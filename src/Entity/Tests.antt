-- ===== src/Entity/Tests.antt =====
-- Runs of the entity manager, and the theorems at concrete managers.
use simulator.Common.{
  ℕ, zero, suc, ◌+◌, ◌^◌, ◌<◌, ◌≡◌, refl, ap, ◌⊎◌, Bool, true, false, Option, none, some, List, [],
  ◌∷◌, arith, ◌>>=◌, Returns, get_or,
}
use simulator.Entity.{
  EntityManager, new_entity_manager, create, destroy, alive, alive_locked, snapshot, restore,
  take_index, place, grow, entity_id, remove_live, fill_hole, position,
}
use simulator.Entity.Invariant.{IsValid, IsLive, alive_locked_iff}
use simulator.Entity.Create.{Created, create_correct}
use simulator.Entity.Destroyed.{Destroyed, destroy_correct}
use simulator.Entity.Generations.{creates, destroys, IsRetired, apply_all, stale_stays_dead}
use simulator.Entity.Snapshot.{restore-snapshot}

-- Two entities, the first destroyed and its index used again.
abbrev session : Option (List ℕ × Bool)
session = create new_entity_manager 0 >>= λ (a, m, r). create m r >>= λ (b, m, r).
    destroy m a r >>= λ (_, m, r). create m r >>= λ (c, m, _).
    alive m a >>= λ old. let l : List ℕ × Bool = (m.dense, old) in some l

session_result : session ≡ some ((2 ^ 32 + 1) ∷ 2 ∷ [], false)
unfolding create new_entity_manager take_index place grow entity_id destroy alive alive_locked
    remove_live fill_hole position
session_result = refl

-- One live entity, with index 0 and generation 1.
abbrev one_live : EntityManager
one_live = record {
  versions = 1 ∷ [];
  sparse = 1 ∷ [];
  dense = 1 ∷ [];
  free = [];
  next = 1;
  count = 1;
  bump = some (λ r. r + 1);
}

only_zero : (x i : ℕ) → 0 < get_or (x ∷ []) i 0 → i ≡ 0
only_zero x zero h = refl
only_zero x (suc i) h = absurd (omega arith)

small : (i : ℕ) → get_or {A = ℕ} (1 ∷ []) i 0 < 2 ^ 32
small zero = omega arith
small (suc i) = omega arith

one_live-IsValid : IsValid one_live
one_live-IsValid = record {
  sizes = refl;
  room = omega arith;
  narrow = omega arith;
  fits = omega arith;
  counted = refl;
  listed = λ p h. let e : p ≡ 0 = omega arith in rw e (omega arith, omega arith, refl, refl);
  pointed = λ i h. let e : i ≡ 0 = only_zero 1 i h in rw e (omega arith, refl);
  recycled = λ k h. absurd (omega arith);
  distinct = λ j k h l. absurd (omega arith);
  words = small;
}

-- The same, after the entity has been destroyed.
abbrev one_gone : EntityManager
one_gone = record {
  versions = 1 ∷ [];
  sparse = 0 ∷ [];
  dense = [];
  free = 0 ∷ [];
  next = 1;
  count = 0;
  bump = none;
}

one_gone-IsValid : IsValid one_gone
one_gone-IsValid = record {
  sizes = refl;
  room = omega arith;
  narrow = omega arith;
  fits = omega arith;
  counted = refl;
  listed = λ p h. absurd (omega arith);
  pointed = λ i h.
      let e : i ≡ 0 = only_zero 0 i h in
      absurd (omega (arith, ap (λ k. get_or {A = ℕ} (0 ∷ []) k 0) e));
  recycled = λ k h. let e : k ≡ 0 = omega arith in rw e (omega arith, refl);
  distinct = λ j k h l. absurd (omega arith);
  words = small;
}

one_gone-IsRetired : IsRetired 1 2 one_gone
one_gone-IsRetired = record {
  valid = one_gone-IsValid;
  dead = λ (p, h, e). absurd (omega arith);
  old = omega arith;
  no_wrap = omega arith;
  indices = omega arith;
  places = omega arith;
}

alive_locked_iff_example :
    ((alive_locked one_live 1 ≡ some true) × IsLive one_live 1)
    ⊎ ((alive_locked one_live 1 ≡ some false) × (¬ IsLive one_live 1))
alive_locked_iff_example = alive_locked_iff one_live 1 one_live-IsValid (omega arith)

create_correct_example : Returns (Created one_gone 5) (create one_gone 5)
create_correct_example = create_correct one_gone one_gone-IsValid 5 (omega arith) (omega arith)

destroy_correct_example :
    (IsLive one_live 1 × Returns (Destroyed one_live 1 5) (destroy one_live 1 5))
    ⊎ ((¬ IsLive one_live 1) × (destroy one_live 1 5 ≡ some (false, one_live, 5)))
destroy_correct_example = destroy_correct one_live 1 5 one_live-IsValid (omega arith)

stale_stays_dead_example :
    Returns {A = EntityManager × ℕ}
      (λ r. IsValid r.0 × (¬ IsLive r.0 1))
      (apply_all (creates ∷ destroys 2 ∷ []) one_gone 0)
stale_stays_dead_example =
    stale_stays_dead (creates ∷ destroys 2 ∷ []) one_gone 1 0 (omega arith, tt) one_gone-IsRetired

restore-snapshot_example :
    restore new_entity_manager (snapshot one_live)
    ≡ some (record one_live { bump = new_entity_manager.bump })
restore-snapshot_example = restore-snapshot one_live new_entity_manager one_live-IsValid
