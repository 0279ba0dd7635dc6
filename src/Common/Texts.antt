-- ===== src/Common/Texts.antt =====
-- Texts that are cut at a character.
use Prim.Native.Nat.{ℕ}
use Prim.Native.Char.{Char, code}
use Prim.Native.String
use Prim.Native.String.{String}
use mathlib.Core.Path.{◌≡◌, sym, ap, ◌∙◌}
use mathlib.Core.Logic.{◌≢◌}
use mathlib.Core.Bool.{true, false}
use mathlib.Core.List.{List, [], ◌∷◌}
use native.Mathlib.Omega.{arith}
use text.Mathlib.TextLemmas.{nil-append, cons-append, append-nil, append_assoc}
use simulator.Common.Tests.{◌==◌}

-- `strings.Split` at a character, from the part that is being read on.
unfoldable pub split_on : ℕ → String → String → List String
split_on b part String.[] = part ∷ []
split_on b part (String.◌∷◌ c s) = elim (code c == b) [
  | true ↦ part ∷ split_on b "" s
  | false ↦ split_on b (String.◌++◌ part (String.◌∷◌ c String.[])) s
]

one_more :
    (part s : String) (c : Char)
    → String.◌++◌ (String.◌++◌ part (String.◌∷◌ c String.[])) s ≡ String.◌++◌ part (String.◌∷◌ c s)
one_more part s c =
    append_assoc part (String.◌∷◌ c String.[]) s
    ∙ ap (String.◌++◌ part) (cons-append c String.[] s ∙ ap (String.◌∷◌ c) (nil-append s))

-- The character is not in the text.
abbrev pub Lacks : ℕ → String → Type 0
Lacks b String.[] = Unit {0}
Lacks b (String.◌∷◌ c s) = (code c ≢ b) × Lacks b s

pub split_on-last :
    (b : ℕ) (part s : String) → Lacks b s → split_on b part s ≡ String.◌++◌ part s ∷ []
unfolding split_on
split_on-last b part String.[] l = ap (λ p. p ∷ []) (sym (append-nil part))
split_on-last b part (String.◌∷◌ c s) (h, l) =
    let differs : code c == b ≡ false = ground arith in
    rw (differs, split_on)
      (split_on-last b (String.◌++◌ part (String.◌∷◌ c String.[])) s l
        ∙ ap (λ p. p ∷ []) (one_more part s c))

-- The first part ends at the character.
pub split_on-part :
    (b : ℕ) (part s t : String) (c : Char)
    → Lacks b s
    → code c == b ≡ true
    → split_on b part (String.◌++◌ s (String.◌∷◌ c t)) ≡ String.◌++◌ part s ∷ split_on b "" t
unfolding split_on
split_on-part b part String.[] t c l h =
    ap (split_on b part) (nil-append (String.◌∷◌ c t))
    ∙ rw (h, split_on) (ap (λ p. p ∷ split_on b "" t) (sym (append-nil part)))
split_on-part b part (String.◌∷◌ d s) t c (k, l) h =
    let differs : code d == b ≡ false = ground arith in
    ap (split_on b part) (cons-append d s (String.◌∷◌ c t))
    ∙ rw (differs, split_on)
        (split_on-part b (String.◌++◌ part (String.◌∷◌ d String.[])) s t c l h
          ∙ ap (λ p. p ∷ split_on b "" t) (one_more part s d))
