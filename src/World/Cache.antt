-- ===== src/World/Cache.antt =====
-- pkg/simulation/scheduler.go: the cache of entity sets shows in nothing that a run does.
use simulator.Common.{
  ℕ, ◌≤◌, ◌<◌, ◌≡◌, refl, sym, ap, subst, ◌∙◌, ◌⊎◌, inl, inr, true, some, List, arith, Returns,
  returns, ltb, ◌==◌, Bool-cases, length, get_elem?, set, length-set, get_elem?-lt,
}
use simulator.Scheduler.{System}
use simulator.World.{World}
use simulator.Column.View.{get_elem?-set, get_elem?-some}
use simulator.World.Execution.{EntitySet, Scheduler, system_entities, entity_set}

module _ {V R T P : Type 0} where
  -- What the engine's operations do to a world: the structural revision grows, or every entity set
  -- stays.
  abbrev pub Changes : World V R T P → World V R T P → Type 0
  Changes w w' =
      (w.revision < w'.revision)
      ⊎ ((w.revision ≡ w'.revision)
          × ((sys : System) → system_entities w' sys ≡ system_entities w sys))

  pub Changes-refl : (w : World V R T P) → Changes w w
  Changes-refl w = inr (refl, λ sys. refl)

  pub Changes-trans : (w w' w'' : World V R T P) → Changes w w' → Changes w' w'' → Changes w w''
  Changes-trans w w' w'' (inl a) (inl b) = inl (omega arith)
  Changes-trans w w' w'' (inl a) (inr (e, _)) = inl (omega arith)
  Changes-trans w w' w'' (inr (e, _)) (inl b) = inl (omega arith)
  Changes-trans w w' w'' (inr (e, same)) (inr (e', same')) =
      inr (e ∙ e', λ sys. same' sys ∙ same sys)

  -- An entry of the cache is of a revision up to the world's, and right if it is of the world's.
  pub record IsFresh (s : Scheduler) (w : World V R T P) : Type 0 where
    pub sized : length s.cache ≡ length s.systems
    pub past : (i : ℕ) (c : EntitySet) → get_elem? s.cache i ≡ some c → c.rev ≤ w.revision
    pub right :
        (i : ℕ) (c : EntitySet) (sys : System)
        → get_elem? s.cache i ≡ some c
        → get_elem? s.systems i ≡ some sys
        → c.rev ≡ w.revision
        → c.members ≡ system_entities w sys

  pub IsFresh-Changes :
      (s : Scheduler) (w w' : World V R T P) → IsFresh s w → Changes w w' → IsFresh s w'
  IsFresh-Changes s w w' f (inl grown) = record {
    sized = f.sized;
    past = λ i c at. omega (arith, f.past i c at);
    right = λ i c sys at named same. absurd (omega (arith, f.past i c at));
  }
  IsFresh-Changes s w w' f (inr (e, same)) = record {
    sized = f.sized;
    past = λ i c at. omega (arith, f.past i c at);
    right = λ i c sys at named now. f.right i c sys at named (now ∙ sym e) ∙ sym (same sys);
  }

  -- What entity_set answers for a system in a fresh cache.
  pub record IsLooked (s : Scheduler) (w : World V R T P) (sys : System) (r : List ℕ × Scheduler)
      : Type 0 where
    pub current : r.0 ≡ system_entities w sys
    pub fresh : IsFresh r.1 w
    pub same_systems : r.1.systems ≡ s.systems
    pub same_workers : r.1.workers ≡ s.workers

  module _ (s : Scheduler) (w : World V R T P) (f : IsFresh s w) (idx : ℕ) (sys : System)
      (named : get_elem? s.systems idx ≡ some sys) where
    abbrev stored : Scheduler
    stored = record s {
      cache = set s.cache idx (record { rev = w.revision; members = system_entities w sys });
    }

    room : idx < length s.cache
    room = omega (arith, get_elem?-lt s.systems idx named, f.sized)

    stored_at :
        (i : ℕ) (c : EntitySet)
        → get_elem? stored.cache i ≡ some c
        → ((i ≡ idx) × (c ≡ record { rev = w.revision; members = system_entities w sys }))
          ⊎ (get_elem? s.cache i ≡ some c)
    stored_at i c at = ground (
      arith,
      get_elem?-set s.cache idx i (record { rev = w.revision; members = system_entities w sys })
          room,
    )

    stored-IsFresh : IsFresh stored w
    stored-IsFresh = record {
      sized =
          length-set s.cache idx (record { rev = w.revision; members = system_entities w sys })
          ∙ f.sized;
      past = λ i c at. elim (stored_at i c at) [
        | inl (_, new) ↦ let e : c.rev ≡ w.revision = ap (λ x. x.rev) new in omega arith
        | inr old ↦ f.past i c old
      ];
      right = λ i c other at given now. elim (stored_at i c at) [
        | inl (here, new) ↦
            let found : get_elem? s.systems idx ≡ some other =
              subst (λ k. get_elem? s.systems k ≡ some other) here given in
            let same : other ≡ sys = ground (arith, found, named) in
            ap (λ x. x.members) new ∙ ap (system_entities w) (sym same)
        | inr old ↦ f.right i c other old given now
      ];
    }

    -- The entity set is the system's, whether or not it comes from the cache.
    pub entity_set-IsLooked : Returns (IsLooked s w sys) (entity_set s w sys idx)
    unfolding entity_set
    entity_set-IsLooked = look (get_elem?-some s.cache idx room)
      where
        look :
            (c : EntitySet) × (get_elem? s.cache idx ≡ some c)
            → Returns (IsLooked s w sys) (entity_set s w sys idx)
        look (c, at) = elim (Bool-cases (c.rev == w.revision)) [
          | inl hit ↦
              let fits : ltb idx (length s.cache) ≡ true = ground (arith, room) in
              rw (at, fits, hit)
                (returns (record {
                  current = f.right idx c sys at named (ground arith);
                  fresh = f;
                  same_systems = refl;
                  same_workers = refl;
                }))
          | inr missed ↦
              let fits : ltb idx (length s.cache) ≡ true = ground (arith, room) in
              rw (at, fits, missed)
                (returns (record {
                  current = refl;
                  fresh = stored-IsFresh;
                  same_systems = refl;
                  same_workers = refl;
                }))
        ]
