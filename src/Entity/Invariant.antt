-- ===== src/Entity/Invariant.antt =====
-- What holds of an entity manager between two calls.
use simulator.Common.{
  ℕ, zero, suc, ◌+◌, ◌-◌, ◌*◌, ◌^◌, ◌≤◌, ◌<◌, ◌≡◌, refl, ◌≢◌, ◌⊎◌, inl, inr, true, false, some, [],
  ◌∷◌, arith, ℕ_discrete, leb, ◌==◌, Bool-cases, length, get_or, get_elem?-get_or,
}
use simulator.Common.Bits.{bit_or-shifted}
use simulator.Entity.{
  EntityManager, u64, index, version, entity_id, alive_locked, new_entity_manager,
}

pub record IsValid (m : EntityManager) : Type 0 where
  pub sizes : length m.sparse ≡ length m.versions
  pub room : m.next ≤ length m.versions
  pub narrow : m.next < 2 ^ 32
  pub fits : length m.dense < 2 ^ 31
  pub counted : m.count ≡ length m.dense
  -- every live entity is where its index says, and carries the generation of its index
  pub listed :
      (p : ℕ)
      → p < length m.dense
      → (get_or m.dense p 0 < 2 ^ 64)
        × (index (get_or m.dense p 0) < m.next)
        × (get_or m.sparse (index (get_or m.dense p 0)) 0 ≡ p + 1)
        × (get_or m.versions (index (get_or m.dense p 0)) 0 ≡ version (get_or m.dense p 0))
  -- an index that points somewhere points at the live entity with that index
  pub pointed :
      (i : ℕ)
      → 0 < get_or m.sparse i 0
      → (get_or m.sparse i 0 ≤ length m.dense)
        × (index (get_or m.dense (get_or m.sparse i 0 - 1) 0) ≡ i)
  -- the recycled indices are unused, and differ
  pub recycled :
      (k : ℕ)
      → k < length m.free
      → (get_or m.free k 0 < m.next) × (get_or m.sparse (get_or m.free k 0) 0 ≡ 0)
  pub distinct : (j k : ℕ) → j < k → k < length m.free → get_or m.free j 0 ≢ get_or m.free k 0
  pub words : (i : ℕ) → get_or m.versions i 0 < 2 ^ 32

pub new-IsValid : IsValid new_entity_manager
unfolding new_entity_manager
new-IsValid = record {
  sizes = refl;
  room = omega arith;
  narrow = omega arith;
  fits = omega arith;
  counted = refl;
  listed = λ p h. absurd (omega arith);
  pointed = λ i h. absurd (omega (arith, blank i));
  recycled = λ k h. absurd (omega arith);
  distinct = λ j k h l. absurd (omega arith);
  words = λ i. omega (arith, blank i);
}
  where
    blank : (i : ℕ) → get_or {A = ℕ} (0 ∷ []) i 0 ≡ 0
    blank zero = refl
    blank (suc i) = refl

-- The entity at a position.
abbrev pub IsLive : EntityManager → ℕ → Type 0
IsLive m id = (p : ℕ) × (p < length m.dense) × (get_or m.dense p 0 ≡ id)

-- The two fields of an identifier.
pub entity_id_fields :
    (idx ver : ℕ)
    → idx < 2 ^ 32
    → ver < 2 ^ 32
    → (index (entity_id idx ver) ≡ idx)
      × (version (entity_id idx ver) ≡ ver)
      × (entity_id idx ver < 2 ^ 64)
unfolding entity_id
entity_id_fields idx ver h k =
    let shifted : u64 (idx * 2 ^ 32) ≡ idx * 2 ^ 32 = omega arith in
    rw (shifted, bit_or-shifted 32 idx ver k) (omega arith)

pub same_id :
    (a b : ℕ) → a < 2 ^ 64 → b < 2 ^ 64 → index a ≡ index b → version a ≡ version b → a ≡ b
same_id a b h k e f = omega arith

module _ (m : EntityManager) (v : IsValid m) where
  -- An index from `next` on points nowhere.
  pub unused : (i : ℕ) → m.next ≤ i → get_or m.sparse i 0 ≡ 0
  unused i h = elim (ℕ_discrete (get_or m.sparse i 0) 0) [
    | yes e ↦ e
    | no ne ↦
        let (le, at) = v.pointed i (omega arith) in
        let l = v.listed (get_or m.sparse i 0 - 1) (omega arith) in absurd (omega (arith, at, l.1))
  ]

  -- An entity is live exactly if its index points somewhere and its generation is the index's.
  pub live-of_sparse :
      (id : ℕ)
      → id < 2 ^ 64
      → 0 < get_or m.sparse (index id) 0
      → get_or m.versions (index id) 0 ≡ version id
      → IsLive m id
  live-of_sparse id h pos gen =
      let (le, at) = v.pointed (index id) pos in
      let p : ℕ = get_or m.sparse (index id) 0 - 1 in
      let l = v.listed p (omega arith) in
      let same_gen : version (get_or m.dense p 0) ≡ version id = ground (arith, at, l.3, gen) in
      (p, omega arith, same_id (get_or m.dense p 0) id l.0 h at same_gen)

  pub sparse-of_live :
      (id : ℕ)
      → IsLive m id
      → (id < 2 ^ 64)
        × (index id < m.next)
        × (0 < get_or m.sparse (index id) 0)
        × (get_or m.versions (index id) 0 ≡ version id)
  sparse-of_live id (p, h, e) =
      let l = v.listed p h in
      (rw (← e) l.0, rw (← e) l.1, rw (← e) (omega (arith, l.2)), rw (← e) l.3)

  -- Two positions hold two entities.
  pub position_unique :
      (p q : ℕ)
      → p < length m.dense
      → q < length m.dense
      → get_or m.dense p 0 ≡ get_or m.dense q 0
      → p ≡ q
  position_unique p q h k e =
      let a = v.listed p h in let b = v.listed q k in ground (arith, a.2, b.2)

-- Alive is a membership test: true for the live entities, false for all other identifiers.
pub alive_locked_iff :
    (m : EntityManager) (id : ℕ)
    → IsValid m
    → id < 2 ^ 64
    → ((alive_locked m id ≡ some true) × IsLive m id)
      ⊎ ((alive_locked m id ≡ some false) × (¬ IsLive m id))
unfolding alive_locked
alive_locked_iff m id v h = elim (Bool-cases (leb (length m.versions) (index id))) [
  | inl out ↦ inr (rw out, λ live. absurd (ground (arith, sparse-of_live m v id live, v.room)))
  | inr inside ↦
      let le : index id < length m.versions = ground arith in
      let e = get_elem?-get_or m.versions (index id) 0 le in
      let f = get_elem?-get_or m.sparse (index id) 0 (omega (arith, v.sizes)) in
      elim (Bool-cases (get_or m.versions (index id) 0 == version id)) [
        | inr stale ↦
            inr (rw (inside, e, stale), λ live. absurd (ground (arith, sparse-of_live m v id live)))
        | inl fresh ↦ elim (Bool-cases (get_or m.sparse (index id) 0 == 0)) [
          | inl gone ↦ inr (
            rw (inside, e, fresh, f, gone),
            λ live. absurd (ground (arith, sparse-of_live m v id live)),
          )
          | inr here ↦ inl (
            rw (inside, e, fresh, f, here),
            live-of_sparse m v id h (ground arith) (ground arith),
          )
        ]
      ]
]
