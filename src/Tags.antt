-- ===== src/Tags.antt =====
-- pkg/simulation/tags.go: TagStore, a growable bitset of tags for each entity. (TagRegistry, of the
-- same file, stands in Names.)
pub mod Bitset
pub mod Relation
mod Tests
use simulator.Common.{
  ℕ, zero, suc, ◌+◌, ◌-◌, ◌*◌, ◌/◌, ◌%◌, ◌^◌, ◌≤◌, ◌<◌, min, ◌≡◌, refl, sym, ap, subst, ◌∙◌, ◌≢◌,
  ◌↔◌, ◌⊎◌, inl, inr, Bool, true, false, not, ◌&&◌, ◌||◌, Option, none, some, List, [], ◌∷◌, ◌++◌,
  map, Mem, Perm, arith, ℕ_discrete, ◌>>=◌, Returns, returns, ltb, leb, ◌==◌, if◌then◌else◌,
  Bool-cases, Option-cases, length, get_elem?, set, get_or, take, drop, replicate, store,
  length-append, length-set, length-take, length-drop, length-replicate, take-append-drop,
  drop-drop, get_elem?-get_or, get_elem?-lt, get_elem?-append, get_elem?-append_end,
  get_elem?-append_lt, get_or-set, get_or-append, get_or-take,
}
use Prim.Native.Nat.{bit_or, bit_and}
use simulator.Common.Digits.{and_not}
use simulator.Common.Maps.{lookup, put, delete, number_key}

pub record TagStore : Type 0 where
  pub sets : List (ℕ × List ℕ)

unfoldable pub new_tag_store : TagStore
new_tag_store = record { sets = [] }

-- `s.sets[e]`, nil for an entity without tags.
unfoldable pub words_of : TagStore → ℕ → List ℕ
words_of s e = elim (lookup e s.sets) [ some words ↦ words | none ↦ [] ]

-- A longer slice with the words copied to its start, where the word is beyond the end.
unfoldable pub grow_words : List ℕ → ℕ → List ℕ
grow_words words word =
    if leb (length words) word then words ++ replicate (word + 1 - length words) 0 else words

unfoldable pub add_tag : TagStore → ℕ → ℕ → Option TagStore
add_tag s e tag = do
  let word = tag / 64
  let words = grow_words (words_of s e) word
  w ← get_elem? words word
  marked ← store words word (bit_or w (2 ^ (tag % 64)))
  some (record { sets = put e marked s.sets })

-- `words[word] &^= 1 << bit`, in range.
unfoldable pub clear_bit : List ℕ → ℕ → List ℕ
clear_bit words tag =
    if ltb (tag / 64) (length words)
    then set words (tag / 64) (and_not (get_or words (tag / 64) 0) (2 ^ (tag % 64)))
    else words

unfoldable pub remove_tag : TagStore → ℕ → ℕ → TagStore
remove_tag s e tag = elim (lookup e s.sets) [
  | none ↦ s
  | some words ↦ record { sets = put e (clear_bit words tag) s.sets }
]

-- `words[word] & (1 << bit) != 0`, in range.
unfoldable pub has_bit : List ℕ → ℕ → Bool
has_bit words tag =
    ltb (tag / 64) (length words) && not (bit_and (get_or words (tag / 64) 0) (2 ^ (tag % 64)) == 0)

unfoldable pub has_tag : TagStore → ℕ → ℕ → Bool
has_tag s e tag = elim (lookup e s.sets) [ none ↦ false | some words ↦ has_bit words tag ]

unfoldable pub remove_entity : TagStore → ℕ → TagStore
remove_entity s e = record { sets = delete e s.sets }

-- The copies of snapshot and restore.
unfoldable pub snapshot_tags : TagStore → List (ℕ × List ℕ)
snapshot_tags s = s.sets

unfoldable pub restore_tags : List (ℕ × List ℕ) → TagStore
restore_tags sets = record { sets = sets }
