-- ===== src/World.antt =====
-- pkg/simulation/world.go, clock.go and schedule.go: the state of a simulation, its clock, and the
-- helpers that schedule events.
pub mod Executor
pub mod Limits
pub mod Execution
pub mod Cache
pub mod Uncached
pub mod Executors
pub mod Past
mod Tests
use simulator.Common.{
  ℕ, zero, suc, ◌+◌, ◌-◌, ◌*◌, ◌/◌, ◌%◌, ◌^◌, ◌≤◌, ◌<◌, min, ◌≡◌, refl, sym, ap, subst, ◌∙◌, ◌≢◌,
  ◌↔◌, ◌⊎◌, inl, inr, Bool, true, false, not, ◌&&◌, ◌||◌, Option, none, some, List, [], ◌∷◌, ◌++◌,
  map, Mem, Perm, arith, ℕ_discrete, ◌>>=◌, Returns, returns, ltb, leb, ◌==◌, if◌then◌else◌,
  Bool-cases, Option-cases, length, get_elem?, set, get_or, take, drop, replicate, store,
  length-append, length-set, length-take, length-drop, length-replicate, take-append-drop,
  drop-drop, get_elem?-get_or, get_elem?-lt, get_elem?-append, get_elem?-append_end,
  get_elem?-append_lt, get_or-set, get_or-append, get_or-take,
}
use Prim.Native.String.{String}
use simulator.Common.Int.{ℤ, pos}
use simulator.Common.Float.{Float64}
use simulator.Entity.{EntityManager, new_entity_manager, u64}
use simulator.Names.{TagRegistry, new_tag_registry}
use simulator.Tags.{TagStore, new_tag_store}
use simulator.Store.{ComponentStore, new_component_store}
use simulator.Event
use simulator.Event.{Event, EventQueue, new_event_queue, zero_event}

pub record Clock (T : Type 0) : Type 0 where
  pub tick : ℕ
  pub time : T

unfoldable pub new_clock : {T : Type 0} → T → Clock T
new_clock zero_time = record { tick = 0; time = zero_time }

module _ {T : Type 0} where
  -- Advance
  unfoldable pub advance_tick : Clock T → Clock T
  advance_tick c = record c { tick = u64 (c.tick + 1) }

  unfoldable pub advance_time : Clock T → T → Clock T
  advance_time c t = record c { time = t }

  unfoldable pub set_clock : Clock T → ℕ → T → Clock T
  set_clock c tick t = record c { tick = tick; time = t }

pub data Mode : Type 0 where
  mode_tick mode_event : Mode

pub record Metadata : Type 0 where
  pub simulation_id : String
  pub model_id : String
  pub model_version : String
  pub seed : ℕ
  pub mode : Mode

-- `R` stands for the resources. The random streams are the seed.
pub record World (V R T P : Type 0) : Type 0 where
  pub id : String
  pub entities : EntityManager
  pub components : ComponentStore V
  pub resources : R
  pub tags : TagRegistry
  pub tag_store : TagStore
  pub events : EventQueue T P
  pub clock : Clock T
  pub random : ℕ
  pub meta : Metadata
  pub revision : ℕ

-- `w.revision.Add(1)`
unfoldable pub bump_revision : ℕ → ℕ
bump_revision r = u64 (r + 1)

-- NewWorld: the managers of entities and of components bump the revision of the world.
unfoldable pub new_world : {V R T P : Type 0} → T → R → Metadata → String → ℕ → World V R T P
new_world zero_time no_resources no_meta id seed = record {
  id = id;
  entities = record new_entity_manager { bump = some bump_revision };
  components = record new_component_store { bump = some bump_revision };
  resources = no_resources;
  tags = new_tag_registry;
  tag_store = new_tag_store;
  events = new_event_queue;
  clock = new_clock zero_time;
  random = seed;
  meta = no_meta;
  revision = 0;
}

module _ (f : Float64) {P : Type 0} where
  abbrev pub event_at : f.Time → ℤ → String → Option P → Event f.Time P
  event_at t priority kind payload = record (zero_event f.zero_time) {
    time = t;
    priority = priority;
    kind = kind;
    payload = payload;
  }

module _ (f : Float64) {V R P : Type 0} where
  -- `w.Events.Push` of an event with the given fields.
  unfoldable pub schedule_event :
      World V R f.Time P → Event f.Time P → Option (Event f.Time P × World V R f.Time P)
  schedule_event w e = Event.push f w.events e >>= λ (e', q). some (e', record w { events = q })

  unfoldable pub schedule_at_priority :
      World V R f.Time P
      → f.Time
      → ℤ
      → String
      → Option P
      → Option (Event f.Time P × World V R f.Time P)
  schedule_at_priority w t priority kind payload =
      schedule_event w (event_at f t priority kind payload)

  unfoldable pub schedule_at :
      World V R f.Time P → f.Time → String → Option P → Option (Event f.Time P × World V R f.Time P)
  schedule_at w t kind payload = schedule_event w (event_at f t (pos 0) kind payload)

  unfoldable pub schedule_in :
      World V R f.Time P → f.Time → String → Option P → Option (Event f.Time P × World V R f.Time P)
  schedule_in w delay kind payload =
      schedule_event w (event_at f (f.add w.clock.time delay) (pos 0) kind payload)

  unfoldable pub schedule_now :
      World V R f.Time P → String → Option P → Option (Event f.Time P × World V R f.Time P)
  schedule_now w kind payload = schedule_event w (event_at f w.clock.time (pos 0) kind payload)
