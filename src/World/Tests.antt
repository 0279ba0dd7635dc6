-- ===== src/World/Tests.antt =====
-- One step of an event model over a world with one event.
use simulator.Common.{
  ℕ, zero, suc, ◌+◌, ◌≡◌, refl, sym, ap, inl, false, Option, none, some, List, [], ◌∷◌, arith,
  Returns, get_elem?,
}
use simulator.Scheduler.{System}
use simulator.World.Execution.{EntitySet, Scheduler, run_scheduler}
use simulator.World.Cache.{IsFresh}
use simulator.World.Uncached.{seen, plain_levels, cache_is_invisible}
use mathlib.Core.List.{forall_mem-cons, not-mem-nil}
use mathlib.Core.Bool.{Bool-set}
use simulator.Event.{Event}
use simulator.Event.Tests.{whole, whole-IsOrdered, one_event, one_event-IsQueue}
use simulator.World.{World, Metadata, mode_event, new_world, new_clock}
use simulator.World.Executor.{event_step}
use simulator.World.Past.{IsTimely, IsFired, event_step_forward}

abbrev about : Metadata
about = record {
  simulation_id = "s";
  model_id = "m";
  model_version = "1";
  seed = 1;
  mode = mode_event;
}

abbrev start : World ℕ ℕ ℕ ℕ
start = record (new_world 0 0 about "s" 1) { events = one_event }

abbrev do_nothing : World ℕ ℕ ℕ ℕ → Event ℕ ℕ → World ℕ ℕ ℕ ℕ × Option ℕ
do_nothing w e = (w, none)

start-IsTimely : IsTimely whole start
unfolding new_world new_clock
start-IsTimely = record {
  valid = one_event-IsQueue;
  not_past = (forall_mem-cons (λ e. Bool-set _ _)).1 (refl, λ e m. absurd (not-mem-nil m));
}

event_step_forward_example :
    Returns (IsFired whole do_nothing start) (event_step whole do_nothing start)
event_step_forward_example =
    event_step_forward whole whole-IsOrdered do_nothing start start-IsTimely (omega arith)
      (λ x e t. t)

-- One system over all entities, whose cached set is of the revision 0, and a world of a later one.
abbrev every_entity : System
every_entity = record { reads = []; writes = []; serial = false }

abbrev no_set : EntitySet
no_set = record { rev = 0; members = [] }

abbrev one_system : Scheduler
one_system = record {
  workers = 1;
  systems = every_entity ∷ [];
  levels = (0 ∷ []) ∷ [];
  cache = no_set ∷ [];
}

abbrev later_world : World ℕ ℕ ℕ ℕ
later_world = record start { revision = 3; entities = record start.entities { dense = 1 ∷ [] } }

-- The system changes the structure in each of its runs.
abbrev raise : ℕ → List ℕ → World ℕ ℕ ℕ ℕ → World ℕ ℕ ℕ ℕ × Option ℕ
raise idx shard w = (record w { revision = w.revision + 1 }, none)

cached_revision : (i : ℕ) (c : EntitySet) → get_elem? (no_set ∷ []) i ≡ some c → c.rev ≡ 0
cached_revision zero c e = let same : no_set ≡ c = ground (arith, e) in ap (λ x. x.rev) (sym same)
cached_revision (suc i) c e = absurd (ground (arith, e))

one_system-IsFresh : IsFresh one_system later_world
one_system-IsFresh = record {
  sized = refl;
  past = λ i c at. omega (arith, cached_revision i c at);
  right = λ i c sys at named same. absurd (omega (arith, cached_revision i c at));
}

cache_is_invisible_example :
    seen (run_scheduler raise (λ l. l) (λ l. l) one_system later_world)
    ≡ plain_levels raise
        (λ l. l)
        (λ l. l)
        one_system.systems
        one_system.workers
        one_system.levels
        later_world
cache_is_invisible_example =
    cache_is_invisible raise (λ l. l) (λ l. l) (λ idx shard w. inl (omega arith)) one_system
      later_world one_system-IsFresh
