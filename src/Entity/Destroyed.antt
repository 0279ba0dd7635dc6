-- ===== src/Entity/Destroyed.antt =====
-- Destroy as a whole, on a live entity and on any other identifier.
use simulator.Common.{
  ℕ, suc, ◌+◌, ◌-◌, ◌^◌, ◌<◌, ◌≡◌, refl, sym, ap, ◌∙◌, ◌≢◌, ◌↔◌, ◌⊎◌, inl, inr, Bool, true, false,
  ◌&&◌, some, [], ◌∷◌, ◌++◌, arith, ℕ_discrete, Returns, returns, ltb, ◌==◌, Bool-cases, length,
  get_or, length-set, get_elem?-get_or,
}
use simulator.Entity.{
  EntityManager, u32, index, call, alive_locked, position, fill_hole, remove_live, destroy,
}
use simulator.Entity.Invariant.{IsValid, IsLive, alive_locked_iff, position_unique}
use simulator.Entity.Destroy

-- What Destroy promises of a live entity: the answer, the manager and the revision.
pub record Destroyed (m : EntityManager) (id revision : ℕ) (r : Bool × EntityManager × ℕ)
    : Type 0 where
  pub told : r.0 ≡ true
  pub valid : IsValid r.1
  pub remaining : (x : ℕ) → IsLive r.1 x ↔ (IsLive m x × (x ≢ id))
  pub now_dead : alive_locked r.1 id ≡ some false
  pub counted : r.1.count + 1 ≡ m.count
  pub recycled : r.1.free ≡ m.free ++ index id ∷ []
  pub same_versions : r.1.versions ≡ m.versions
  pub same_next : r.1.next ≡ m.next
  pub revised : r.2 ≡ call m.bump revision
  pub same_bump : r.1.bump ≡ m.bump

module _ (m : EntityManager) (v : IsValid m) (id pos last : ℕ) (size : length m.dense ≡ suc last)
    (inside : pos < length m.dense) (at : get_or m.dense pos 0 ≡ id) where
  abbrev after : EntityManager
  after = Destroy.removed m v id pos last size inside at

  fill_hole-eq : fill_hole pos m ≡ some (Destroy.filled m v id pos last size inside at)
  unfolding fill_hole
  fill_hole-eq = elim (Bool-cases (pos + 1 == length m.dense)) [
    | inl at_end ↦ rw at_end refl
    | inr hole ↦
        let before : length m.dense - 1 ≡ last = omega arith in
        let room : ltb pos (length m.dense) ≡ true = ground arith in
        let i = index (get_or m.dense last 0) in
        let listed = Destroy.moved_listed m v id pos last size inside at in
        let room' : ltb i (length m.sparse) ≡ true =
          ground (arith, Destroy.in_sparse m v id pos last size inside at i listed.0) in
        let word : u32 (pos + 1) ≡ pos + 1 = omega (arith, v.fits) in
        rw (hole, before, get_elem?-get_or m.dense last 0 (omega arith), room, room', word) refl
  ]

  size_filled : length (Destroy.filled m v id pos last size inside at).sparse ≡ length m.sparse
  size_filled = elim (Bool-cases (pos + 1 == length m.dense)) [
    | inl at_end ↦ rw at_end refl
    | inr hole ↦ rw hole (length-set m.sparse (index (get_or m.dense last 0)) (pos + 1))
  ]

  remove_live-eq : (revision : ℕ) → remove_live m id revision ≡ some (after, call m.bump revision)
  unfolding remove_live position
  remove_live-eq revision =
      let listed = Destroy.id_listed m v id pos last size inside at in
      let in_sparse = Destroy.in_sparse m v id pos last size inside at (index id) listed.0 in
      let read = get_elem?-get_or m.sparse (index id) 0 in_sparse in
      let before : length m.dense - 1 ≡ last = omega arith in
      let signed : (ltb 0 (suc pos) && ltb (suc pos) (2 ^ 31)) ≡ true = ground (arith, v.fits) in
      let back : suc pos - 1 ≡ pos = omega arith in
      let room : ltb (index id) (length (Destroy.filled m v id pos last size inside at).sparse)
          ≡ true =
        ground (arith, size_filled, in_sparse) in
      rw (read, listed.1, signed, back, fill_hole-eq, room, before) refl

  remaining_old : (x : ℕ) → IsLive after x → IsLive m x × (x ≢ id)
  remaining_old x (p, h, e) =
      let below : p < last = omega (arith, Destroy.size_removed m v id pos last size inside at) in
      let read = Destroy.dense_at m v id pos last size inside at p below in
      elim (Bool-cases (pos == p)) [
        | inl hole ↦
            let e' : get_or m.dense last 0 ≡ x = ground (arith, read, e, hole) in
            (
              (last, omega arith, e'),
              λ f. absurd (
                  ground
                    (arith, position_unique m v last pos (omega arith) inside (e' ∙ f ∙ sym at))),
            )
        | inr miss ↦
            let e' : get_or m.dense p 0 ≡ x = ground (arith, read, e, miss) in
            (
              (p, omega arith, e'),
              λ f. absurd (
                  ground (arith, position_unique m v p pos (omega arith) inside (e' ∙ f ∙ sym at))),
            )
      ]

  remaining_new : (x : ℕ) → IsLive m x × (x ≢ id) → IsLive after x
  remaining_new x ((p, h, e), ne) = elim (ℕ_discrete p last) [
    | yes moves ↦
        let here : pos ≢ last =
          λ f. ne (sym e ∙ ap (λ k. get_or m.dense k 0) (moves ∙ sym f) ∙ at) in
        let below : pos < last = omega arith in
        let hit : (pos == pos) ≡ true = ground arith in
        (
          pos,
          omega (arith, Destroy.size_removed m v id pos last size inside at),
          rw (Destroy.dense_at m v id pos last size inside at pos below, hit)
              (ap (λ k. get_or m.dense k 0) (sym moves) ∙ e),
        )
    | no stays ↦
        let below : p < last = omega arith in
        let other : pos ≢ p = λ f. ne (sym e ∙ ap (λ k. get_or m.dense k 0) (sym f) ∙ at) in
        let miss : (pos == p) ≡ false = ground arith in
        (
          p,
          omega (arith, Destroy.size_removed m v id pos last size inside at),
          rw (Destroy.dense_at m v id pos last size inside at p below, miss) e,
        )
  ]

  remove_live-Destroyed :
      (revision : ℕ) → Destroyed m id revision (true, after, call m.bump revision)
  remove_live-Destroyed revision =
      let valid = Destroy.removed-IsValid m v id pos last size inside at in
      let word = (Destroy.id_listed m v id pos last size inside at).2 in
      let next = Destroy.same_next m v id pos last size inside at in
      let gone : ¬ IsLive after id = λ l. (remaining_old id l).1 refl in
      record {
        told = refl;
        valid = valid;
        remaining = λ x. (remaining_old x, remaining_new x);
        now_dead = dead (alive_locked_iff after id valid word) gone;
        counted = omega (arith, v.counted);
        recycled = refl;
        same_versions = Destroy.same_versions m v id pos last size inside at;
        same_next = next.0;
        revised = refl;
        same_bump = next.1;
      }
    where
      dead :
          ((alive_locked after id ≡ some true) × IsLive after id)
            ⊎ ((alive_locked after id ≡ some false) × (¬ IsLive after id))
          → ¬ IsLive after id
          → alive_locked after id ≡ some false
      dead (inl (_, l)) gone = absurd (gone l)
      dead (inr (e, _)) gone = e

-- Destroy of a live entity succeeds: exactly that entity is gone, its index is recycled, and the
-- generations are kept. Of any other identifier it answers false and changes nothing.
pub destroy_correct :
    (m : EntityManager) (id revision : ℕ)
    → IsValid m
    → id < 2 ^ 64
    → (IsLive m id × Returns (Destroyed m id revision) (destroy m id revision))
      ⊎ ((¬ IsLive m id) × (destroy m id revision ≡ some (false, m, revision)))
unfolding destroy
destroy_correct m id revision v word = elim (alive_locked_iff m id v word) [
  | inr (e, dead) ↦ inr (dead, rw e refl)
  | inl (e, (pos, inside, at)) ↦
      let last : ℕ = length m.dense - 1 in
      let size : length m.dense ≡ suc last = omega arith in
      inl (
        (pos, inside, at),
        rw (e, remove_live-eq m v id pos last size inside at revision)
            (returns (remove_live-Destroyed m v id pos last size inside at revision)),
      )
]
