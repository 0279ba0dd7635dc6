-- ===== src/Scheduler/Tests.antt =====
-- Runs of the scheduler's functions, and the theorems at concrete systems and entities.
use simulator.Common.{◌≡◌, refl, true, false, some, List, [], ◌∷◌, arith, Returns}
use simulator.Scheduler.{
  System, contains, conflicts, intersects_write, level_above, assign_levels, max_level,
  group_levels, dependency_levels, partition, shards_from,
}
use simulator.Scheduler.Schedule.{IsSchedule, dependency_levels_correct}
use simulator.Scheduler.Partition.{IsPartition, partition_correct}

-- The second and third systems read what the first writes; the fourth writes what they read.
abbrev systems : List System
systems =
    record { reads = []; writes = 0 ∷ []; serial = false }
    ∷ record { reads = 0 ∷ []; writes = 1 ∷ []; serial = false }
    ∷ record { reads = 0 ∷ []; writes = 2 ∷ []; serial = true }
    ∷ record { reads = 2 ∷ []; writes = 0 ∷ []; serial = false }
    ∷ []

levels_result : dependency_levels systems ≡ some ((0 ∷ []) ∷ (1 ∷ 2 ∷ []) ∷ (3 ∷ []) ∷ [])
unfolding dependency_levels assign_levels level_above conflicts intersects_write contains max_level
    group_levels
levels_result = refl

shards_result :
    partition (10 ∷ 11 ∷ 12 ∷ 13 ∷ 14 ∷ []) 4
    ≡ some ((10 ∷ 11 ∷ []) ∷ (12 ∷ 13 ∷ []) ∷ (14 ∷ []) ∷ [] ∷ [])
unfolding partition shards_from
shards_result = refl

dependency_levels_correct_example : Returns (IsSchedule systems) (dependency_levels systems)
dependency_levels_correct_example = dependency_levels_correct systems

partition_correct_example :
    Returns (IsPartition (10 ∷ 11 ∷ 12 ∷ []) 2) (partition (10 ∷ 11 ∷ 12 ∷ []) 2)
partition_correct_example = partition_correct (10 ∷ 11 ∷ 12 ∷ []) 2 (omega arith) (omega arith)
