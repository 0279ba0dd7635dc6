-- ===== src/Tags/Bitset.antt =====
-- The tag store is the relation of the entities and the tags that were added and not removed.
use simulator.Common.{
  ℕ, zero, suc, ◌+◌, ◌-◌, ◌*◌, ◌/◌, ◌%◌, ◌^◌, ◌≤◌, ◌<◌, ◌≡◌, refl, sym, ap, ◌∙◌, ◌≢◌, ◌⊎◌, inl, inr,
  false, not, ◌&&◌, ◌||◌, none, some, List, [], ◌∷◌, ◌++◌, arith, Returns, returns, ltb, ◌==◌,
  if◌then◌else◌, Bool-cases, Option-cases, length, set, get_or, replicate, length-append,
  length-replicate, get_elem?-get_or, get_or-set,
}
use Prim.Native.Nat.{bit_or, bit_and, max}
use native.Mathlib.Nat.{pow-suc}
use simulator.Common.Digits.{
  digit, and_not, digit_small, bit_and-power, digit-bit_or, digit-power, digit-and_not,
}
use simulator.Common.Maps.{
  lookup, put, delete, number_key, lookup-put, lookup-put_other, lookup-delete, lookup-delete_other,
}
use simulator.Tags.{
  TagStore, words_of, grow_words, add_tag, clear_bit, remove_tag, has_bit, has_tag, remove_entity,
}

power_pos : (k : ℕ) → 0 < 2 ^ k
power_pos zero = omega arith
power_pos (suc k) = omega (arith, pow-suc 2 k, power_pos k)

-- A bit of a word, and of a word out of range.
bit_test : (k w : ℕ) → not (bit_and w (2 ^ k) == 0) ≡ (digit k w == 1)
bit_test k w = elim (one_or_zero (digit k w) (digit_small k w)) [
  | inl z ↦
      let e : bit_and w (2 ^ k) ≡ 0 = bit_and-power k w ∙ ap (λ d. d * 2 ^ k) z ∙ none_of (2 ^ k) in
      ground arith
  | inr o ↦
      let p : 1 * 2 ^ k ≡ 2 ^ k = omega arith in
      let e : bit_and w (2 ^ k) ≡ 2 ^ k = bit_and-power k w ∙ (ap (λ d. d * 2 ^ k) o ∙ p) in
      ground (arith, power_pos k)
]
  where
    none_of : (n : ℕ) → 0 * n ≡ 0
    none_of n = omega arith

    one_or_zero : (d : ℕ) → d < 2 → (d ≡ 0) ⊎ (d ≡ 1)
    one_or_zero zero h = inl refl
    one_or_zero (suc zero) h = inr refl
    one_or_zero (suc (suc d)) h = absurd (omega arith)

abbrev bit_at : List ℕ → ℕ → ℕ
bit_at words tag = digit (tag % 64) (get_or words (tag / 64) 0)

zero_digit : (k : ℕ) → digit k 0 ≡ 0
unfolding digit
zero_digit zero = refl
zero_digit (suc k) = zero_digit k

get_or_out : (words : List ℕ) (i : ℕ) → length words ≤ i → get_or words i 0 ≡ 0
get_or_out [] i h = refl
get_or_out (w ∷ words) zero h = absurd (omega arith)
get_or_out (w ∷ words) (suc i) h = get_or_out words i (omega arith)

get_or-replicate : (n i : ℕ) → get_or {A = ℕ} (replicate n 0) i 0 ≡ 0
get_or-replicate zero i = refl
get_or-replicate (suc n) zero = refl
get_or-replicate (suc n) (suc i) = get_or-replicate n i

get_or-padded : (words : List ℕ) (n i : ℕ) → get_or (words ++ replicate n 0) i 0 ≡ get_or words i 0
get_or-padded [] n i = get_or-replicate n i
get_or-padded (w ∷ words) n zero = refl
get_or-padded (w ∷ words) n (suc i) = get_or-padded words n i

has_bit-eq : (words : List ℕ) (tag : ℕ) → has_bit words tag ≡ (bit_at words tag == 1)
unfolding has_bit
has_bit-eq words tag = elim (Bool-cases (ltb (tag / 64) (length words))) [
  | inl e ↦ ground (arith, bit_test (tag % 64) (get_or words (tag / 64) 0))
  | inr e ↦
      let z : bit_at words tag ≡ 0 =
        ap (digit (tag % 64)) (get_or_out words (tag / 64) (ground arith))
        ∙ zero_digit (tag % 64) in
      ground arith
]

get_or-grow : (words : List ℕ) (word i : ℕ) → get_or (grow_words words word) i 0 ≡ get_or words i 0
unfolding grow_words
get_or-grow words word i = ground (arith, get_or-padded words (word + 1 - length words) i)

grow_words-lt : (words : List ℕ) (word : ℕ) → word < length (grow_words words word)
unfolding grow_words
grow_words-lt words word = ground (
  arith,
  length-append words (replicate (word + 1 - length words) 0),
  length-replicate {A = ℕ} (word + 1 - length words) 0,
)

same_tag : (t u : ℕ) → t / 64 ≡ u / 64 → t % 64 ≡ u % 64 → t ≡ u
same_tag t u p q = omega arith

-- The words after Add, and the bits in them.
module _ (words : List ℕ) (t : ℕ) where
  abbrev grown : List ℕ
  grown = grow_words words (t / 64)

  abbrev added_word : ℕ
  added_word = bit_or (get_or grown (t / 64) 0) (2 ^ (t % 64))

  abbrev marked : List ℕ
  marked = set grown (t / 64) added_word

  marked_at : (u : ℕ) → bit_at marked u ≡ (if t == u then 1 else bit_at words u)
  marked_at u =
      let place = get_or-set grown (t / 64) (u / 64) added_word 0 (grow_words-lt words (t / 64)) in
      let old = get_or-grow words (t / 64) (u / 64) in
      elim (Bool-cases (t / 64 == u / 64)) [
        | inl e ↦
            let here : get_or marked (u / 64) 0 ≡ added_word = ground arith in
            let i : t / 64 ≡ u / 64 = ground arith in
            let was : get_or grown (t / 64) 0 ≡ get_or words (u / 64) 0 =
              ap (λ k. get_or grown k 0) i ∙ old in
            let bits : digit (u % 64) added_word
                ≡ max (digit (u % 64) (get_or grown (t / 64) 0)) (digit (u % 64) (2 ^ (t % 64))) =
              digit-bit_or (u % 64) (get_or grown (t / 64) 0) (2 ^ (t % 64)) in
            ground (
              arith,
              ap (digit (u % 64)) here,
              bits,
              ap (digit (u % 64)) was,
              digit-power (u % 64) (t % 64),
              digit_small (u % 64) (get_or words (u / 64) 0),
              same_tag t u i,
              ap (λ k. k % 64) {x = t} {y = u},
            )
        | inr e ↦
            let here : get_or marked (u / 64) 0 ≡ get_or words (u / 64) 0 = ground arith in
            let ne : (t == u) ≡ false = ground (arith, ap (λ k. k / 64) {x = t} {y = u}) in
            ground (arith, ap (digit (u % 64)) here)
      ]

  has_bit-marked : (u : ℕ) → has_bit marked u ≡ (t == u || has_bit words u)
  has_bit-marked u = ground (arith, has_bit-eq marked u, has_bit-eq words u, marked_at u)

  cleared_at : (u : ℕ) → bit_at (clear_bit words t) u ≡ (if t == u then 0 else bit_at words u)
  unfolding clear_bit
  cleared_at u = elim (Bool-cases (ltb (t / 64) (length words))) [
    | inl e ↦
        let old = get_or words (t / 64) 0 in
        let new = and_not old (2 ^ (t % 64)) in
        let place = get_or-set words (t / 64) (u / 64) new 0 (ground arith) in
        elim (Bool-cases (t / 64 == u / 64)) [
          | inl f ↦
              let i : t / 64 ≡ u / 64 = ground arith in
              let here : get_or (set words (t / 64) new) (u / 64) 0 ≡ new = ground arith in
              ground (
                arith,
                ap (digit (u % 64)) here,
                digit-and_not (t % 64) (u % 64) old,
                ap (λ k. digit (u % 64) (get_or words k 0)) i,
                same_tag t u i,
                ap (λ k. k % 64) {x = t} {y = u},
              )
          | inr f ↦
              let here : get_or (set words (t / 64) new) (u / 64) 0 ≡ get_or words (u / 64) 0 =
                ground arith in
              let ne : (t == u) ≡ false = ground (arith, ap (λ k. k / 64) {x = t} {y = u}) in
              ground (arith, ap (digit (u % 64)) here)
        ]
    | inr e ↦ elim (Bool-cases (t == u)) [
      | inl f ↦
          let same : t ≡ u = ground arith in
          let far : length words ≤ u / 64 = ground (arith, ap (λ k. k / 64) same) in
          let z : bit_at words u ≡ 0 =
            ap (digit (u % 64)) (get_or_out words (u / 64) far) ∙ zero_digit (u % 64) in
          ground arith
      | inr f ↦ ground arith
    ]
  ]

  has_bit-clear_bit : (u : ℕ) → has_bit (clear_bit words t) u ≡ (not (t == u) && has_bit words u)
  has_bit-clear_bit u =
      ground (arith, has_bit-eq (clear_bit words t) u, has_bit-eq words u, cleared_at u)

has_tag-words : (s : TagStore) (e u : ℕ) → has_tag s e u ≡ has_bit (words_of s e) u
unfolding has_tag words_of has_bit
has_tag-words s e u = ground arith

-- What Add promises: exactly one more pair of an entity and a tag.
unfoldable pub IsAdded : TagStore → ℕ → ℕ → TagStore → Type 0
IsAdded s e t s' = (f u : ℕ) → has_tag s' f u ≡ ((e == f && t == u) || has_tag s f u)

module _ (s : TagStore) (e f u : ℕ) (words : List ℕ) where
  put_other : e ≢ f → has_tag (record { sets = put e words s.sets }) f u ≡ has_tag s f u
  unfolding has_tag
  put_other ne = ground (arith, lookup-put_other f e words s.sets (λ q. ne (sym q)))

  put_same : e ≡ f → has_tag (record { sets = put e words s.sets }) f u ≡ has_bit words u
  unfolding has_tag
  put_same q = ground (arith, lookup-put e words s.sets, ap (λ k. lookup k (put e words s.sets)) q)

add_tag-eq :
    (s : TagStore) (e t : ℕ)
    → add_tag s e t ≡ some (record { sets = put e (marked (words_of s e) t) s.sets })
unfolding add_tag
add_tag-eq s e t =
    let words = words_of s e in
    let inside = grow_words-lt words (t / 64) in
    ground (arith, get_elem?-get_or (grow_words words (t / 64)) (t / 64) 0 inside)

-- Add never panics; after it, an entity has a tag if it had it before, or if it is the given entity
-- with the given tag.
pub add_tag_correct : (s : TagStore) (e t : ℕ) → Returns (IsAdded s e t) (add_tag s e t)
unfolding IsAdded
add_tag_correct s e t = rw (add_tag-eq s e t) (returns added)
  where
    added : IsAdded s e t (record { sets = put e (marked (words_of s e) t) s.sets })
    added f u = elim (Bool-cases (e == f)) [
      | inl q ↦
          let same : e ≡ f = ground arith in
          ground (
            arith,
            put_same s e f u (marked (words_of s e) t) same,
            has_bit-marked (words_of s e) t u,
            has_tag-words s e u,
            ap (λ k. has_tag s k u) same,
          )
      | inr q ↦ ground (arith, put_other s e f u (marked (words_of s e) t))
    ]

-- After Remove, an entity has the tags that it had, but for the given entity with the given tag.
pub remove_tag_correct :
    (s : TagStore) (e t f u : ℕ)
    → has_tag (remove_tag s e t) f u ≡ (not (e == f && t == u) && has_tag s f u)
unfolding remove_tag has_tag
remove_tag_correct s e t f u = elim (Option-cases (lookup e s.sets)) [
  | inl missing ↦ ground (arith, no_tags missing, ap (λ k. has_tag s k u) {x = e} {y = f})
  | inr (words, at) ↦ elim (Bool-cases (e == f)) [
    | inl q ↦
        let same : e ≡ f = ground arith in
        ground (
          arith,
          put_same s e f u (clear_bit words t) same,
          has_bit-clear_bit words t u,
          some_tags words at,
          ap (λ k. has_tag s k u) same,
        )
    | inr q ↦ ground (arith, put_other s e f u (clear_bit words t))
  ]
]
  where
    no_tags : lookup e s.sets ≡ none → has_tag s e u ≡ false
    no_tags h = rw (has_tag, h) refl

    some_tags : (words : List ℕ) → lookup e s.sets ≡ some words → has_tag s e u ≡ has_bit words u
    some_tags words h = rw (has_tag, h) refl

-- After RemoveEntity the entity has no tag, and all others have the tags that they had.
pub remove_entity_correct :
    (s : TagStore) (e f u : ℕ) → has_tag (remove_entity s e) f u ≡ (not (e == f) && has_tag s f u)
unfolding remove_entity has_tag
remove_entity_correct s e f u = elim (Bool-cases (e == f)) [
  | inl q ↦
      let same : e ≡ f = ground arith in
      ground (arith, lookup-delete e s.sets, ap (λ k. lookup k (delete e s.sets)) same)
  | inr q ↦ ground (arith, lookup-delete_other f e s.sets)
]
