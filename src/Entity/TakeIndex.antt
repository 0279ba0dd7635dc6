-- ===== src/Entity/TakeIndex.antt =====
-- The index that Create takes: recycled, or new.
use simulator.Common.{
  ℕ, zero, suc, ◌+◌, ◌-◌, ◌^◌, ◌≤◌, ◌<◌, ◌≡◌, refl, ◌∙◌, ◌≢◌, inl, inr, false, List, [], ◌∷◌, ◌++◌,
  arith, Returns, returns, ltb, leb, Bool-cases, length, get_or, take, length-append, length-take,
  get_elem?-get_or, get_or-take,
}
use simulator.Entity.{EntityManager, u32, index, grow, take_index}
use simulator.Entity.Invariant.{IsValid, unused}

get_or-append_zero : (xs : List ℕ) (i : ℕ) → get_or (xs ++ 0 ∷ []) i 0 ≡ get_or xs i 0
get_or-append_zero [] zero = refl
get_or-append_zero [] (suc i) = refl
get_or-append_zero (x ∷ xs) zero = refl
get_or-append_zero (x ∷ xs) (suc i) = get_or-append_zero xs i

-- Both slices have room for the index, and their entries read as before.
record Grown (idx : ℕ) (versions sparse : List ℕ) (r : List ℕ × List ℕ) : Type 0 where
  sizes : length r.1 ≡ length r.0
  room : idx < length r.0
  same_versions : (i : ℕ) → get_or r.0 i 0 ≡ get_or versions i 0
  same_sparse : (i : ℕ) → get_or r.1 i 0 ≡ get_or sparse i 0

not-Grown :
    (idx : ℕ) (versions sparse : List ℕ)
    → length sparse ≡ length versions
    → idx < length versions
    → Grown idx versions sparse (versions, sparse)
not-Grown idx versions sparse e h = record {
  sizes = e;
  room = h;
  same_versions = λ i. refl;
  same_sparse = λ i. refl;
}

grow_once :
    (fuel idx : ℕ) (versions sparse : List ℕ)
    → length sparse ≡ length versions
    → idx < length versions
    → Grown idx versions sparse (grow fuel idx versions sparse)
unfolding grow
grow_once zero idx versions sparse e h = not-Grown idx versions sparse e h
grow_once (suc fuel) idx versions sparse e h =
    let inside : leb (length versions) idx ≡ false = ground arith in
    rw inside (not-Grown idx versions sparse e h)

grow-Grown :
    (fuel idx : ℕ) (versions sparse : List ℕ)
    → 0 < fuel
    → length sparse ≡ length versions
    → idx ≤ length versions
    → Grown idx versions sparse (grow fuel idx versions sparse)
unfolding grow
grow-Grown zero idx versions sparse f e h = absurd (omega arith)
grow-Grown (suc fuel) idx versions sparse f e h = elim (Bool-cases (leb (length versions) idx)) [
  | inr inside ↦ rw inside (not-Grown idx versions sparse e (ground arith))
  | inl at_end ↦
      let sv = length-append versions (0 ∷ []) in
      let ss = length-append sparse (0 ∷ []) in
      let g =
        grow_once fuel idx (versions ++ 0 ∷ []) (sparse ++ 0 ∷ []) (omega (arith, sv, ss))
          (omega (arith, sv, h)) in
      rw at_end (record {
        sizes = g.sizes;
        room = g.room;
        same_versions = λ i. g.same_versions i ∙ get_or-append_zero versions i;
        same_sparse = λ i. g.same_sparse i ∙ get_or-append_zero sparse i;
      })
]

-- A free index, and the manager without it.
pub record Taken (m : EntityManager) (r : ℕ × EntityManager) : Type 0 where
  pub valid : IsValid r.1
  pub slot : r.0 < r.1.next
  pub blank : get_or r.1.sparse r.0 0 ≡ 0
  pub gone : (k : ℕ) → k < length r.1.free → get_or r.1.free k 0 ≢ r.0
  pub same_dense : r.1.dense ≡ m.dense
  pub same_bump : r.1.bump ≡ m.bump
  pub same_versions : (i : ℕ) → get_or r.1.versions i 0 ≡ get_or m.versions i 0
  pub next_le : r.1.next ≤ m.next + 1

module _ (m : EntityManager) (v : IsValid m) where
  fresh-Taken :
      (versions sparse : List ℕ)
      → m.next + 1 < 2 ^ 32
      → Grown m.next m.versions m.sparse (versions, sparse)
      → Taken m (m.next, record m { versions = versions; sparse = sparse; next = m.next + 1 })
  fresh-Taken versions sparse few g = record {
    valid = record {
      sizes = g.sizes;
      room = omega (arith, g.room);
      narrow = few;
      fits = v.fits;
      counted = v.counted;
      listed = λ p h.
          let id = get_or m.dense p 0 in
          omega (arith, v.listed p h, g.same_versions (index id), g.same_sparse (index id));
      pointed = λ i h. ground (arith, v.pointed i, g.same_sparse i);
      recycled = λ k h. omega (arith, v.recycled k h, g.same_sparse (get_or m.free k 0));
      distinct = v.distinct;
      words = λ i. omega (arith, v.words i, g.same_versions i);
    };
    slot = omega arith;
    blank = omega (arith, unused m v m.next (omega arith), g.same_sparse m.next);
    gone = λ k h. omega (arith, v.recycled k h);
    same_dense = refl;
    same_bump = refl;
    same_versions = g.same_versions;
    next_le = omega arith;
  }

  recycled-Taken :
      (n : ℕ)
      → length m.free ≡ suc n
      → Taken m (get_or m.free n 0, record m { free = take n m.free })
  recycled-Taken n e =
      let size : length (take n m.free) ≡ n = omega (arith, length-take n m.free) in
      record {
        valid = record {
          sizes = v.sizes;
          room = v.room;
          narrow = v.narrow;
          fits = v.fits;
          counted = v.counted;
          listed = v.listed;
          pointed = v.pointed;
          recycled = λ k h.
              rw (get_or-take n m.free k 0 (omega (arith, size)))
                (v.recycled k (omega (arith, size)));
          distinct = λ j k h l.
              rw
                (
                  get_or-take n m.free k 0 (omega (arith, size)),
                  get_or-take n m.free j 0 (omega (arith, size)),
                )
                (v.distinct j k h (omega (arith, size)));
          words = v.words;
        };
        slot = (v.recycled n (omega arith)).0;
        blank = (v.recycled n (omega arith)).1;
        gone = λ k h.
            rw (get_or-take n m.free k 0 (omega (arith, size)))
              (v.distinct k n (omega (arith, size)) (omega arith));
        same_dense = refl;
        same_bump = refl;
        same_versions = λ i. refl;
        next_le = omega arith;
      }

  -- Create always finds an index, while fewer than 2 ^ 32 - 1 have been handed out.
  pub take_index-Taken : m.next + 1 < 2 ^ 32 → Returns (Taken m) (take_index m)
  unfolding take_index
  take_index-Taken few = elim (Bool-cases (ltb 0 (length m.free))) [
    | inl some_free ↦
        let n = length m.free - 1 in
        let size : length m.free ≡ suc n = ground arith in
        rw (some_free, get_elem?-get_or m.free n 0 (omega arith)) (returns (recycled-Taken n size))
    | inr none_free ↦
        let word : u32 (m.next + 1) ≡ m.next + 1 = omega arith in
        let g = grow-Grown (m.next + 1) m.next m.versions m.sparse (omega arith) v.sizes v.room in
        rw (none_free, word) (returns (fresh-Taken _ _ few g))
  ]
