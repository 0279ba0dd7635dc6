-- ===== src/Registry/Versions.antt =====
-- compareVersion orders versions totally, whatever their texts are.
use simulator.Common.{
  ℕ, zero, suc, ◌+◌, ◌-◌, ◌≤◌, ◌≡◌, refl, sym, ap, ◌∙◌, false, none, List, [], ◌∷◌, arith, length,
  get_elem?,
}
use Prim.Native.Nat.{Ordering}
use Prim.Native.String.{String}
use simulator.Registry.{component_int, compare_from, compare_version, larger, split_dots, is_less}

-- The answer for the versions the other way round.
abbrev pub flip : Ordering → Ordering
flip Ordering.lt = Ordering.gt
flip Ordering.eq = Ordering.eq
flip Ordering.gt = Ordering.lt

get_elem?-out {ℓ} : {A : Type ℓ} (xs : List A) (i : ℕ) → length xs ≤ i → get_elem? xs i ≡ none
get_elem?-out [] i h = refl
get_elem?-out (x ∷ xs) zero h = absurd (omega arith)
get_elem?-out (x ∷ xs) (suc i) h = get_elem?-out xs i (omega arith)

component_out : (parts : List String) (i : ℕ) → length parts ≤ i → component_int parts i ≡ 0
unfolding component_int
component_out parts i h = rw (component_int, get_elem?-out parts i h) refl

module _ (pa pb : List String) where
  compare_past_end :
      (i rounds : ℕ) → length pa ≤ i → length pb ≤ i → compare_from pa pb i rounds ≡ Ordering.eq
  unfolding compare_from
  compare_past_end i zero p q = refl
  compare_past_end i (suc rounds) p q = ground (
    arith,
    component_out pa i p,
    component_out pb i q,
    compare_past_end (i + 1) rounds (omega arith) (omega arith),
  )

  -- Rounds past the end of both versions change nothing.
  compare_enough :
      (i n more : ℕ)
      → length pa ≤ i + n
      → length pb ≤ i + n
      → compare_from pa pb i (n + more) ≡ compare_from pa pb i n
  unfolding compare_from
  compare_enough i zero more p q =
      ap (compare_from pa pb i) (omega arith) ∙ compare_past_end i more (omega arith) (omega arith)
  compare_enough i (suc n) more p q =
      let next : suc n + more ≡ suc (n + more) = omega arith in
      ap (compare_from pa pb i) next
      ∙ ground (arith, compare_enough (i + 1) n more (omega arith) (omega arith))

  compare_from-flip : (i n : ℕ) → compare_from pb pa i n ≡ flip (compare_from pa pb i n)
  unfolding compare_from
  compare_from-flip i zero = refl
  compare_from-flip i (suc n) = ground (arith, compare_from-flip (i + 1) n)

compare_from_chain :
    (pa pb pc : List String) (i n : ℕ)
    → is_less (compare_from pa pb i n) ≡ false
    → is_less (compare_from pb pc i n) ≡ false
    → is_less (compare_from pa pc i n) ≡ false
unfolding compare_from
compare_from_chain pa pb pc i zero h k = refl
compare_from_chain pa pb pc i (suc n) h k = ground (arith, compare_from_chain pa pb pc (i + 1) n)

-- One number of rounds for any three versions.
at_rounds :
    (a b : String) (n : ℕ)
    → larger (length (split_dots "" a)) (length (split_dots "" b)) ≤ n
    → compare_from (split_dots "" a) (split_dots "" b) 0 n ≡ compare_version a b
unfolding compare_version larger
at_rounds a b n h =
    let pa = split_dots "" a in
    let pb = split_dots "" b in
    let own = larger (length pa) (length pb) in
    ap (compare_from pa pb 0) (omega arith)
    ∙ compare_enough pa pb 0 own (n - own) (ground arith) (ground arith)

larger-le-add : (n m k : ℕ) → n ≤ k → m ≤ k → larger n m ≤ k
unfolding larger
larger-le-add n m k h l = ground arith

-- Swapping two versions turns the answer of compareVersion round.
pub compare_version-flip : (a b : String) → compare_version b a ≡ flip (compare_version a b)
compare_version-flip a b =
    let pa = split_dots "" a in
    let pb = split_dots "" b in
    let n = length pa + length pb in
    sym (at_rounds b a n (larger-le-add (length pb) (length pa) n (omega arith) (omega arith)))
    ∙ (compare_from-flip pa pb 0 n
        ∙ ap flip
            (at_rounds a b n (larger-le-add (length pa) (length pb) n (omega arith) (omega arith))))

-- A version that is not below a second one, which is not below a third, is not below the third.
pub compare_version_chain :
    (a b c : String)
    → is_less (compare_version a b) ≡ false
    → is_less (compare_version b c) ≡ false
    → is_less (compare_version a c) ≡ false
compare_version_chain a b c h k =
    let pa = split_dots "" a in
    let pb = split_dots "" b in
    let pc = split_dots "" c in
    let n = length pa + length pb + length pc in
    let ab =
      at_rounds a b n (larger-le-add (length pa) (length pb) n (omega arith) (omega arith)) in
    let bc =
      at_rounds b c n (larger-le-add (length pb) (length pc) n (omega arith) (omega arith)) in
    let ac =
      at_rounds a c n (larger-le-add (length pa) (length pc) n (omega arith) (omega arith)) in
    ap is_less (sym ac) ∙ compare_from_chain pa pb pc 0 n (ap is_less ab ∙ h) (ap is_less bc ∙ k)
