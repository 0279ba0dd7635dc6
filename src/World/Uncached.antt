-- ===== src/World/Uncached.antt =====
-- pkg/simulation/scheduler.go: a run of the levels without the cache of entity sets, and that the run
-- with it does the same.
use simulator.Common.{
  ℕ, ◌≡◌, refl, ap, ◌∙◌, inl, inr, Option, none, some, List, [], ◌∷◌, ◌>>=◌, Returns, returns, ◌==◌,
  if◌then◌else◌, Bool-cases, length, get_elem?, get_or,
}
use simulator.Scheduler.{System, partition}
use simulator.World.{World}
use simulator.World.Execution.{
  Scheduler, first_error, system_entities, entity_set, run_shards, run_all, run_members, run_system,
  run_level, run_levels, run_scheduler,
}
use simulator.World.Cache.{
  Changes, Changes-refl, Changes-trans, IsFresh, IsFresh-Changes, IsLooked, entity_set-IsLooked,
}

-- The world and the error of a run.
abbrev pub seen :
    {V R T P E : Type 0}
    → Option (Scheduler × World V R T P × Option E)
    → Option (World V R T P × Option E)
seen none = none
seen (some (s, w, err)) = some (w, err)

module _ {V R T P E : Type 0} (run_shard : ℕ → List ℕ → World V R T P → World V R T P × Option E)
    (order_shards : List (List ℕ) → List (List ℕ)) (order_level : List ℕ → List ℕ)
    (systems : List System) (workers : ℕ) where
  unfoldable pub plain_system : ℕ → World V R T P → Option (World V R T P × Option E)
  plain_system idx w = do
    sys ← get_elem? systems idx
    run_members run_shard order_shards order_level idx (system_entities w sys)
        (if sys.serial then 1 else workers) w

  unfoldable pub plain_level : List ℕ → World V R T P → Option (World V R T P × Option E)
  plain_level [] w = some (w, none)
  plain_level (idx ∷ level) w = do
    (w', err) ← plain_system idx w
    (w'', later) ← plain_level level w'
    some (w'', first_error err later)

  unfoldable pub plain_levels : List (List ℕ) → World V R T P → Option (World V R T P × Option E)
  plain_levels [] w = some (w, none)
  plain_levels (level ∷ levels) w = do
    (w', err) ← plain_level (order_level level) w
    elim err [ some e ↦ some (w', some e) | none ↦ plain_levels levels w' ]

  module _
      (grows : (idx : ℕ) (shard : List ℕ) (w : World V R T P)
        → Changes w (run_shard idx shard w).0) where
    run_shards-Changes :
        (idx : ℕ) (shards : List (List ℕ)) (w : World V R T P)
        → Changes w (run_shards run_shard order_shards order_level idx shards w).0
    unfolding run_shards
    run_shards-Changes idx [] w = Changes-refl w
    run_shards-Changes idx (shard ∷ shards) w =
        Changes-trans w (run_shard idx shard w).0
          (run_shards run_shard order_shards order_level idx shards (run_shard idx shard w).0).0
          (grows idx shard w) (run_shards-Changes idx shards (run_shard idx shard w).0)

    run_all-Changes :
        (idx : ℕ) (shards : List (List ℕ)) (w : World V R T P)
        → Changes w (run_all run_shard order_shards order_level idx shards w).0
    unfolding run_all
    run_all-Changes idx shards w = elim (Bool-cases (length shards == 1)) [
      | inl e ↦ rw e (grows idx (get_or shards 0 []) w)
      | inr e ↦ rw e (run_shards-Changes idx (order_shards shards) w)
    ]

    -- The two runs both panic, or end alike, with a cache that is fresh.
    data Agrees
        : Option (Scheduler × World V R T P × Option E)
          → Option (World V R T P × Option E)
          → Type 0 where
      both_panic : Agrees none none
      both_run :
          {s : Scheduler} {w : World V R T P} {err : Option E}
          → IsFresh s w
          → s.systems ≡ systems
          → s.workers ≡ workers
          → Agrees (some (s, w, err)) (some (w, err))

    members-Agrees :
        (s : Scheduler) (w : World V R T P) (idx : ℕ) (entities : List ℕ) (n : ℕ)
        → IsFresh s w
        → s.systems ≡ systems
        → s.workers ≡ workers
        → Agrees
            (run_members run_shard order_shards order_level idx entities n w >>= λ (w', err).
              some (s, w', err))
            (run_members run_shard order_shards order_level idx entities n w)
    unfolding run_members
    members-Agrees s w idx entities n f sy wo = elim (Bool-cases (length entities == 0)) [
      | inl e ↦ rw e (both_run f sy wo)
      | inr e ↦ rw e (go (partition entities n))
    ]
      where
        go :
            (r : Option (List (List ℕ)))
            → Agrees
                ((r >>= λ shards. some (run_all run_shard order_shards order_level idx shards w))
                  >>= λ (w', err). some (s, w', err))
                (r >>= λ shards. some (run_all run_shard order_shards order_level idx shards w))
        go none = both_panic
        go (some shards) =
            both_run
              (IsFresh-Changes s w (run_all run_shard order_shards order_level idx shards w).0 f
                (run_all-Changes idx shards w))
              sy wo

    -- runSystem from the entity set on, with the scheduler that it leaves.
    system-Agrees :
        (s : Scheduler) (w : World V R T P) (idx : ℕ)
        → IsFresh s w
        → s.systems ≡ systems
        → s.workers ≡ workers
        → Agrees (run_system run_shard order_shards order_level s w idx) (plain_system idx w)
    unfolding run_system plain_system
    system-Agrees s w idx f sy wo = at (get_elem? systems idx) refl
      where
        looked :
            (sys : System) (r : Option (List ℕ × Scheduler))
            → Returns (IsLooked s w sys) r
            → Agrees
                (r >>= λ (entities, s').
                  run_members run_shard order_shards order_level idx entities
                    (if sys.serial then 1 else s.workers)
                    w
                  >>= λ (w', err). some (s', w', err))
                (run_members run_shard order_shards order_level idx
                  (system_entities w sys)
                  (if sys.serial then 1 else workers)
                  w)
        looked sys none x = elim x [ ]
        looked sys (some (entities, s')) (returns l) =
            rw (l.current, wo)
              (members-Agrees s' w idx (system_entities w sys) (if sys.serial then 1 else workers)
                l.fresh (l.same_systems ∙ sy) (l.same_workers ∙ wo))

        at :
            (r : Option System)
            → get_elem? systems idx ≡ r
            → Agrees (run_system run_shard order_shards order_level s w idx) (
                r >>= λ sys.
                run_members run_shard order_shards order_level idx
                  (system_entities w sys)
                  (if sys.serial then 1 else workers)
                  w)
        at none e =
            let none_here : get_elem? s.systems idx ≡ none = ap (λ l. get_elem? l idx) sy ∙ e in
            rw none_here both_panic
        at (some sys) e =
            let here : get_elem? s.systems idx ≡ some sys = ap (λ l. get_elem? l idx) sy ∙ e in
            rw here (looked sys (entity_set s w sys idx) (entity_set-IsLooked s w f idx sys here))

    -- A run of one part, and of the rest after it, which agree.
    then-Agrees :
        {r : Option (Scheduler × World V R T P × Option E)} {r' : Option (World V R T P × Option E)}
        (k : Scheduler → World V R T P → Option E → Option (Scheduler × World V R T P × Option E))
        (k' : World V R T P → Option E → Option (World V R T P × Option E))
        → Agrees r r'
        → ((s : Scheduler) (w : World V R T P) (err : Option E)
            → IsFresh s w
            → s.systems ≡ systems
            → s.workers ≡ workers
            → Agrees (k s w err) (k' w err))
        → Agrees (r >>= λ (s, w, err). k s w err) (r' >>= λ (w, err). k' w err)
    then-Agrees k k' both_panic next = both_panic
    then-Agrees k k' (both_run {s} {w} {err} f sy wo) next = next s w err f sy wo

    level-Agrees :
        (level : List ℕ) (s : Scheduler) (w : World V R T P)
        → IsFresh s w
        → s.systems ≡ systems
        → s.workers ≡ workers
        → Agrees (run_level run_shard order_shards order_level level s w) (plain_level level w)
    unfolding run_level plain_level
    level-Agrees [] s w f sy wo = both_run f sy wo
    level-Agrees (idx ∷ level) s w f sy wo =
        then-Agrees
          (λ s' w' err.
            run_level run_shard order_shards order_level level s' w' >>= λ (s'', w'', later).
            some (s'', w'', first_error err later))
          (λ w' err. plain_level level w' >>= λ (w'', later). some (w'', first_error err later))
          (system-Agrees s w idx f sy wo)
          (λ s' w' err f' sy' wo'.
            then-Agrees (λ s'' w'' later. some (s'', w'', first_error err later))
              (λ w'' later. some (w'', first_error err later)) (level-Agrees level s' w' f' sy' wo')
              (λ s'' w'' later f'' sy'' wo''. both_run f'' sy'' wo''))

    levels-Agrees :
        (levels : List (List ℕ)) (s : Scheduler) (w : World V R T P)
        → IsFresh s w
        → s.systems ≡ systems
        → s.workers ≡ workers
        → Agrees (run_levels run_shard order_shards order_level levels s w) (plain_levels levels w)
    unfolding run_levels plain_levels
    levels-Agrees [] s w f sy wo = both_run f sy wo
    levels-Agrees (level ∷ levels) s w f sy wo =
        then-Agrees
          (λ s' w' err. elim err [
            | some e ↦ some (s', w', some e)
            | none ↦ run_levels run_shard order_shards order_level levels s' w'
          ])
          (λ w' err. elim err [ some e ↦ some (w', some e) | none ↦ plain_levels levels w' ])
          (level-Agrees (order_level level) s w f sy wo) (after (levels-Agrees levels))
      where
        after :
            ((s' : Scheduler) (w' : World V R T P)
              → IsFresh s' w'
              → s'.systems ≡ systems
              → s'.workers ≡ workers
              → Agrees
                  (run_levels run_shard order_shards order_level levels s' w')
                  (plain_levels levels w'))
            → (s' : Scheduler) (w' : World V R T P) (err : Option E) → IsFresh s' w'
            → s'.systems ≡ systems
            → s'.workers ≡ workers
            → Agrees
                (elim err [
                  | some e ↦ some (s', w', some e)
                  | none ↦ run_levels run_shard order_shards order_level levels s' w'
                ])
                (elim err [ some e ↦ some (w', some e) | none ↦ plain_levels levels w' ])
        after rest s' w' (some e) f' sy' wo' = both_run f' sy' wo'
        after rest s' w' none f' sy' wo' = rest s' w' f' sy' wo'

    seen-Agrees :
        (r : Option (Scheduler × World V R T P × Option E)) (r' : Option (World V R T P × Option E))
        → Agrees r r'
        → seen r ≡ r'
    seen-Agrees _ _ both_panic = refl
    seen-Agrees _ _ (both_run f sy wo) = refl

module _ {V R T P E : Type 0} (run_shard : ℕ → List ℕ → World V R T P → World V R T P × Option E)
    (order_shards : List (List ℕ) → List (List ℕ)) (order_level : List ℕ → List ℕ) where
  -- For systems whose every run over a shard either raises the structural revision or leaves all entity
  -- sets as they are, and a cache in which no entry is of a later revision than the world's and those
  -- of the world's are right: a run with the cache ends in the same world and with the same error, or
  -- panics alike, as a run that computes every entity set when it is needed.
  pub cache_is_invisible :
      ((idx : ℕ) (shard : List ℕ) (w : World V R T P) → Changes w (run_shard idx shard w).0)
      → (s : Scheduler) (w : World V R T P) → IsFresh s w
      → seen (run_scheduler run_shard order_shards order_level s w)
        ≡ plain_levels run_shard order_shards order_level s.systems s.workers s.levels w
  unfolding run_scheduler
  cache_is_invisible grows s w f =
      seen-Agrees run_shard order_shards order_level s.systems s.workers grows
        (run_levels run_shard order_shards order_level s.levels s w)
        (plain_levels run_shard order_shards order_level s.systems s.workers s.levels w)
        (levels-Agrees run_shard order_shards order_level s.systems s.workers grows s.levels s w f
          refl refl)
