-- ===== src/Entity/Destroy.antt =====
-- Destroy: the last live entity fills the hole, and the index is recycled.
use simulator.Common.{
  ℕ, suc, ◌+◌, ◌-◌, ◌^◌, ◌≤◌, ◌<◌, ◌≡◌, refl, ap, ◌∙◌, ◌≢◌, inl, inr, true, false, [], ◌∷◌, ◌++◌,
  arith, ℕ_discrete, ltb, ◌==◌, if◌then◌else◌, Bool-cases, length, set, get_or, take, length-append,
  length-set, length-take, get_or-set, get_or-append, get_or-take,
}
use simulator.Entity.{EntityManager, index, version}
use simulator.Entity.Invariant.{IsValid}

module _ (m : EntityManager) (v : IsValid m) (id pos last : ℕ) (size : length m.dense ≡ suc last)
    (inside : pos < length m.dense) (at : get_or m.dense pos 0 ≡ id) where
  abbrev pub moved : ℕ
  moved = get_or m.dense last 0

  -- The manager with the hole filled; nothing moves if the hole is the last place.
  abbrev pub filled : EntityManager
  filled =
      if pos + 1 == length m.dense
      then m
      else record m { dense = set m.dense pos moved; sparse = set m.sparse (index moved) (pos + 1) }

  abbrev pub removed : EntityManager
  removed = record filled {
    dense = take last filled.dense;
    sparse = set filled.sparse (index id) 0;
    free = m.free ++ index id ∷ [];
    count = m.count - 1;
  }

  pub moved_listed : (index moved < m.next) × (get_or m.sparse (index moved) 0 ≡ suc last)
  moved_listed = let l = v.listed last (omega arith) in (l.1, omega (arith, l.2))

  pub id_listed : (index id < m.next) × (get_or m.sparse (index id) 0 ≡ suc pos) × (id < 2 ^ 64)
  id_listed =
      let l = v.listed pos inside in (rw (← at) l.1, rw (← at) (omega (arith, l.2)), rw (← at) l.0)

  pub in_sparse : (i : ℕ) → i < m.next → i < length m.sparse
  in_sparse i h = omega (arith, v.room, v.sizes)

  -- Positions after the removal: the last entity stands in the hole.
  pub dense_at :
      (p : ℕ)
      → p < last
      → get_or removed.dense p 0 ≡ (if pos == p then moved else get_or m.dense p 0)
  dense_at p h = elim (Bool-cases (pos + 1 == length m.dense)) [
    | inl at_end ↦
        let miss : (pos == p) ≡ false = ground arith in
        rw (at_end, miss, get_or-take last m.dense p 0 h) refl
    | inr hole ↦
        rw
          (
            hole,
            get_or-take last (set m.dense pos moved) p 0 h,
            get_or-set m.dense pos p moved 0 inside,
          )
          refl
  ]

  pub size_removed : length removed.dense ≡ last
  size_removed = elim (Bool-cases (pos + 1 == length m.dense)) [
    | inl at_end ↦ rw at_end (omega (arith, length-take last m.dense))
    | inr hole ↦
        rw hole
          (omega (arith, length-take last (set m.dense pos moved), length-set m.dense pos moved))
  ]

  -- Only the entries of the two entities change.
  pub sparse_at :
      (i : ℕ)
      → get_or removed.sparse i 0
        ≡ (if index id == i then 0 else if index moved == i then suc pos else get_or m.sparse i 0)
  sparse_at i = elim (Bool-cases (pos + 1 == length m.dense)) [
    | inl at_end ↦
        let e : pos ≡ last = ground arith in
        let same : index moved ≡ index id = rw (← e, at) refl in
        rw (at_end, get_or-set m.sparse (index id) i 0 0 (in_sparse (index id) id_listed.0), same)
          (ground arith)
    | inr hole ↦
        let one : pos + 1 ≡ suc pos = omega arith in
        let room : index id < length (set m.sparse (index moved) (suc pos)) =
          rw (length-set m.sparse (index moved) (suc pos)) (in_sparse (index id) id_listed.0) in
        rw
          (
            hole,
            one,
            get_or-set (set m.sparse (index moved) (suc pos)) (index id) i 0 0 room,
            get_or-set m.sparse (index moved) i (suc pos) 0
                (in_sparse (index moved) moved_listed.0),
          )
          refl
  ]

  pub same_versions : removed.versions ≡ m.versions
  same_versions = ground arith

  pub same_next : (removed.next ≡ m.next) × (removed.bump ≡ m.bump)
  same_next = ground arith

  pub size_sparse : length removed.sparse ≡ length m.sparse
  size_sparse = elim (Bool-cases (pos + 1 == length m.dense)) [
    | inl at_end ↦ rw at_end (length-set m.sparse (index id) 0)
    | inr hole ↦ rw hole (
        length-set (set m.sparse (index moved) (pos + 1)) (index id) 0
        ∙ length-set m.sparse (index moved) (pos + 1))
  ]

  removed_listed :
      (p : ℕ)
      → p < last
      → (get_or removed.dense p 0 < 2 ^ 64)
        × (index (get_or removed.dense p 0) < m.next)
        × (get_or removed.sparse (index (get_or removed.dense p 0)) 0 ≡ p + 1)
        × (get_or m.versions (index (get_or removed.dense p 0)) 0
            ≡ version (get_or removed.dense p 0))
  removed_listed p h = elim (Bool-cases (pos == p)) [
    | inl hole ↦
        let e : pos ≡ p = ground arith in
        let l = v.listed last (omega arith) in
        let other : (index id == index moved) ≡ false = ground (arith, moved_listed, id_listed) in
        let same : (index moved == index moved) ≡ true = ground arith in
        rw (dense_at p h, hole, sparse_at (index moved), other, same) (l.0, l.1, omega arith, l.3)
    | inr miss ↦
        let i = index (get_or m.dense p 0) in
        let l = v.listed p (omega arith) in
        let other : (index id == i) ≡ false = ground (arith, l.2, id_listed) in
        let other' : (index moved == i) ≡ false = ground (arith, l.2, moved_listed) in
        rw (dense_at p h, miss, sparse_at i, other, other') l
  ]

  removed_pointed :
      (i : ℕ)
      → 0 < get_or removed.sparse i 0
      → (get_or removed.sparse i 0 ≤ last)
        × (index (get_or removed.dense (get_or removed.sparse i 0 - 1) 0) ≡ i)
  removed_pointed i h = elim (Bool-cases (index id == i)) [
    | inl gone ↦ absurd (ground (arith, sparse_at i, h))
    | inr stays ↦ elim (Bool-cases (index moved == i)) [
      | inl here ↦
          let e : index moved ≡ i = ground arith in
          let below : pos < last = ground (arith, moved_listed, id_listed, at) in
          let back : suc pos - 1 ≡ pos = omega arith in
          let hit : (pos == pos) ≡ true = ground arith in
          rw (sparse_at i, stays, here, back, dense_at pos below, hit) (below, e)
      | inr other ↦
          let keep : get_or removed.sparse i 0 ≡ get_or m.sparse i 0 =
            rw (sparse_at i, stays, other) refl in
          let (le, to) = v.pointed i (omega (arith, keep)) in
          let q : ℕ = get_or m.sparse i 0 - 1 in
          let not_last : q ≢ last =
            λ f. absurd (ground (arith, to, ap (λ k. index (get_or m.dense k 0)) f, other)) in
          let not_pos : q ≢ pos = λ f.
            absurd
              (ground (arith, to, ap (λ k. index (get_or m.dense k 0)) f, ap index at, stays)) in
          let miss : (pos == q) ≡ false = ground arith in
          rw (keep, dense_at q (omega (arith, keep)), miss) (omega (arith, keep), to)
    ]
  ]

  removed_free_at :
      (k : ℕ)
      → get_or removed.free k 0 ≡ (
          if ltb k (length m.free)
          then get_or m.free k 0
          else get_or (index id ∷ []) (k - length m.free) 0)
  removed_free_at k = get_or-append m.free (index id ∷ []) k 0

  removed_free_last : get_or removed.free (length m.free) 0 ≡ index id
  removed_free_last =
      let past : ltb (length m.free) (length m.free) ≡ false = ground arith in
      let zeroth : length m.free - length m.free ≡ 0 = omega arith in
      rw (removed_free_at (length m.free), past, zeroth) refl

  removed_free_old : (k : ℕ) → k < length m.free → get_or removed.free k 0 ≡ get_or m.free k 0
  removed_free_old k h = ground (arith, removed_free_at k)

  size_free : length removed.free ≡ length m.free + 1
  size_free = length-append m.free (index id ∷ [])

  removed_recycled :
      (k : ℕ)
      → k < length removed.free
      → (get_or removed.free k 0 < m.next) × (get_or removed.sparse (get_or removed.free k 0) 0 ≡ 0)
  removed_recycled k h = elim (ℕ_discrete k (length m.free)) [
    | yes e ↦
        let hit : (index id == index id) ≡ true = ground arith in
        rw (e, removed_free_last, sparse_at (index id), hit) (id_listed.0, refl)
    | no ne ↦
        let old = removed_free_old k (omega (arith, size_free)) in
        let r = v.recycled k (omega (arith, size_free)) in
        rw old (r.0, ground (arith, r.1, sparse_at (get_or m.free k 0), moved_listed))
  ]

  removed_distinct :
      (j k : ℕ)
      → j < k
      → k < length removed.free
      → get_or removed.free j 0 ≢ get_or removed.free k 0
  removed_distinct j k h l = elim (ℕ_discrete k (length m.free)) [
    | yes e ↦
        let r = v.recycled j (omega arith) in
        rw (e, removed_free_last, removed_free_old j (omega arith))
          (λ f. absurd (omega (arith, r.1, id_listed, ap (λ i. get_or m.sparse i 0) f)))
    | no ne ↦
        let below : k < length m.free = omega (arith, size_free) in
        rw (removed_free_old k below, removed_free_old j (omega arith)) (v.distinct j k h below)
  ]

  pub removed-IsValid : IsValid removed
  removed-IsValid = record {
    sizes = rw same_versions (size_sparse ∙ v.sizes);
    room = rw (same_versions, same_next.0) v.room;
    narrow = rw same_next.0 v.narrow;
    fits = omega (arith, size_removed, v.fits);
    counted = omega (arith, size_removed, v.counted);
    listed =
        λ p h. rw (same_versions, same_next.0) (removed_listed p (omega (arith, size_removed)));
    pointed = λ i h. rw size_removed (removed_pointed i h);
    recycled = λ k h. rw same_next.0 (removed_recycled k h);
    distinct = removed_distinct;
    words = λ i. rw same_versions (v.words i);
  }
