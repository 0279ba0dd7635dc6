-- ===== src/World/Execution.antt =====
-- pkg/simulation/scheduler.go: running the levels over a world, and the cache of entity sets.
use simulator.Common.{
  ℕ, ◌+◌, Option, none, some, List, [], ◌∷◌, ◌++◌, ◌>>=◌, ◌==◌, if◌then◌else◌, length, get_elem?,
  get_or, replicate, store,
}
use simulator.Common.Maps.{number_key}
use simulator.Entity
use simulator.Scheduler.{System, contains, dependency_levels, partition}
use simulator.Store.{component_entities}
use simulator.World.{World}

pub record EntitySet : Type 0 where
  pub rev : ℕ
  pub members : List ℕ

pub record Scheduler : Type 0 where
  pub workers : ℕ
  pub systems : List System
  pub levels : List (List ℕ)
  pub cache : List EntitySet

unfoldable pub new_scheduler : List System → ℕ → Option Scheduler
new_scheduler systems workers = dependency_levels systems >>= λ levels. some (record {
  workers = workers;
  systems = systems;
  levels = levels;
  cache = replicate (length systems) (record { rev = 0; members = [] });
})

-- The closure `add`: those that were not seen, in order. The seen are the entities of `out`.
unfoldable pub add_unseen : List ℕ → List ℕ → List ℕ
add_unseen out [] = out
add_unseen out (e ∷ es) = add_unseen (if contains e out then out else out ++ e ∷ []) es

-- The only component that a system declares.
unfoldable pub only_component : System → ℕ
only_component sys = if length sys.reads == 1 then get_or sys.reads 0 0 else get_or sys.writes 0 0

-- The first error counts; all tasks run.
abbrev pub first_error : {E : Type 0} → Option E → Option E → Option E
first_error (some e) later = some e
first_error none later = later

module _ {V R T P : Type 0} where
  unfoldable pub add_components : World V R T P → List ℕ → List ℕ → List ℕ
  add_components w out [] = out
  add_components w out (id ∷ component_ids) =
      add_components w (add_unseen out (component_entities w.components id)) component_ids

  unfoldable pub system_entities : World V R T P → System → List ℕ
  system_entities w sys =
      let n = length sys.reads + length sys.writes in
      if n == 0
      then Entity.ids w.entities
      else if n == 1
      then component_entities w.components (only_component sys)
      else add_components w (add_components w [] sys.reads) sys.writes

  unfoldable pub entity_set : Scheduler → World V R T P → System → ℕ → Option (List ℕ × Scheduler)
  entity_set s w sys idx = do
    let members = system_entities w sys
    cached ← get_elem? s.cache idx
    cache ← store s.cache idx (record { rev = w.revision; members = members })
    some (
        if cached.rev == w.revision
        then (cached.members, s)
        else (members, record s { cache = cache }))

  module _ {E : Type 0} (run_shard : ℕ → List ℕ → World V R T P → World V R T P × Option E)
      (order_shards : List (List ℕ) → List (List ℕ)) (order_level : List ℕ → List ℕ) where
    -- runConcurrent over shards, one after the other in the order in which they get to run.
    unfoldable pub run_shards : ℕ → List (List ℕ) → World V R T P → World V R T P × Option E
    run_shards idx [] w = (w, none)
    run_shards idx (shard ∷ shards) w =
        let (w', err) = run_shard idx shard w in
        let (w'', later) = run_shards idx shards w' in (w'', first_error err later)

    -- A single shard runs inline.
    unfoldable pub run_all : ℕ → List (List ℕ) → World V R T P → World V R T P × Option E
    run_all idx shards w =
        if length shards == 1
        then run_shard idx (get_or shards 0 []) w
        else run_shards idx (order_shards shards) w

    -- runSystem from the entity set on.
    unfoldable pub run_members : ℕ → List ℕ → ℕ → World V R T P → Option (World V R T P × Option E)
    run_members idx entities workers w =
        let sharded = partition entities workers >>= λ shards. some (run_all idx shards w) in
        if length entities == 0 then some (w, none) else sharded

    unfoldable pub run_system :
        Scheduler → World V R T P → ℕ → Option (Scheduler × World V R T P × Option E)
    run_system s w idx = do
      sys ← get_elem? s.systems idx
      (entities, s') ← entity_set s w sys idx
      (w', err) ← run_members idx entities (if sys.serial then 1 else s.workers) w
      some (s', w', err)

    -- runLevelParallel: every system of the level runs.
    unfoldable pub run_level :
        List ℕ → Scheduler → World V R T P → Option (Scheduler × World V R T P × Option E)
    run_level [] s w = some (s, w, none)
    run_level (idx ∷ level) s w = do
      (s', w', err) ← run_system s w idx
      (s'', w'', later) ← run_level level s' w'
      some (s'', w'', first_error err later)

    -- run: a level is started when the one before it ended without an error.
    unfoldable pub run_levels :
        List (List ℕ) → Scheduler → World V R T P → Option (Scheduler × World V R T P × Option E)
    run_levels [] s w = some (s, w, none)
    run_levels (level ∷ levels) s w = do
      (s', w', err) ← run_level (order_level level) s w
      elim err [ some e ↦ some (s', w', some e) | none ↦ run_levels levels s' w' ]

    unfoldable pub run_scheduler :
        Scheduler → World V R T P → Option (Scheduler × World V R T P × Option E)
    run_scheduler s w = run_levels s.levels s w
