-- ===== src/Runner.antt =====
-- internal/runner/manager.go: the simulations in the process, their control, and the records kept
-- of them. The store of records, the models and the creation of a simulation are parameters.
pub mod Control
pub mod Statuses
pub mod Replay
pub mod Inspect
use simulator.Common.{
  ℕ, zero, suc, ◌+◌, ◌-◌, ◌*◌, ◌/◌, ◌%◌, ◌^◌, ◌≤◌, ◌<◌, min, ◌≡◌, refl, sym, ap, subst, ◌∙◌, ◌≢◌,
  ◌↔◌, ◌⊎◌, inl, inr, Bool, true, false, not, ◌&&◌, ◌||◌, Option, none, some, List, [], ◌∷◌, ◌++◌,
  map, Mem, Perm, arith, ℕ_discrete, ◌>>=◌, Returns, returns, ltb, leb, ◌==◌, if◌then◌else◌,
  Bool-cases, Option-cases, length, get_elem?, set, get_or, take, drop, replicate, store,
  length-append, length-set, length-take, length-drop, length-replicate, take-append-drop,
  drop-drop, get_elem?-get_or, get_elem?-lt, get_elem?-append, get_elem?-append_end,
  get_elem?-append_lt, get_or-set, get_or-append, get_or-take,
}
use Prim.Native.String.{String}
use simulator.Common.Maps.{Key, lookup, put, delete, text_key}
use simulator.Registry.{ModelInfo, Entry, Registry, get_latest, get_version}
use simulator.Runtime.{
  State, idle, running, paused, stopped, completed, failed, Outcome, Simulation, LifecycleError,
  StepReply, refused, returned, panics, is_running, is_paused, pause, resume, stop, begin,
  single_step,
}
use simulator.World.{Mode, mode_tick, mode_event}

-- The run configuration, which the record of a simulation keeps; `D` stands for JSON. MaxTime, a
-- float64 that is only copied from the request to here and on to simulation.New, is left out.
pub record RunConfig (D : Type 0) : Type 0 where
  pub model_id : String
  pub model_version : String
  pub seed : ℕ
  pub mode : Mode
  pub max_ticks : ℕ
  pub workers : ℕ
  pub model : Option D

pub record SimulationInfo (D : Type 0) : Type 0 where
  pub id : String
  pub model_id : String
  pub model_version : String
  pub seed : ℕ
  pub mode : Mode
  pub status : String
  pub config : RunConfig D
  pub owner_id : Option String

-- A request without its MaxTime, which is left out here and in RunConfig.
pub record CreateRequest (D : Type 0) : Type 0 where
  pub id : String
  pub model_id : String
  pub model_version : String
  pub seed : ℕ
  pub mode : String
  pub max_ticks : ℕ
  pub workers : ℕ
  pub config : Option D
  pub owner_id : String

-- What a factory's model does: its own mode, its answer to a configuration (none if it takes none
-- or took it), and the world that simulation.New makes for it, or the error.
pub record Model (W D E : Type 0) : Type 0 where
  pub mode : Mode
  pub configure : D → Option E
  pub init : RunConfig D → E ⊎ W

pub record Managed (W D E : Type 0) : Type 0 where
  pub sim : Simulation W E
  pub info : SimulationInfo D

pub data ManagerError (E : Type 0) : Type 0 where
  not_found : ManagerError E
  lifecycle : LifecycleError → ManagerError E
  cannot_delete : ManagerError E
  seed_range : ManagerError E
  unknown_model : String → ManagerError E
  unknown_version : String → String → ManagerError E
  no_factory : ManagerError E
  invalid_mode : String → ManagerError E
  store_error : E → ManagerError E
  configure_error : E → ManagerError E
  init_error : E → ManagerError E
  step_error : E → ManagerError E

-- The calls of the persistence store; an error leaves the store as the call returns it.
pub record Persistence (S D E : Type 0) : Type 0 where
  pub upsert_model : ModelInfo → S → Option E × S
  pub create_simulation : SimulationInfo D → S → (E ⊎ SimulationInfo D) × S
  pub update_status : String → String → S → Option E × S
  pub delete_simulation : String → S → Option E × S

-- The counters of the metrics; the gauge of active simulations is its increments and decrements.
pub record Metrics : Type 0 where
  pub started : ℕ
  pub active_up : ℕ
  pub active_down : ℕ
  pub failures : ℕ
  pub completions : ℕ

pub record Manager (W S D E : Type 0) : Type 0 where
  pub sims : List (String × Managed W D E)
  pub store : S
  pub registry : Registry (Model W D E)
  pub met : Option Metrics

unfoldable pub status_of : State → String
status_of running = "running"
status_of paused = "paused"
status_of completed = "completed"
status_of failed = "failed"
status_of stopped = "stopped"
status_of idle = "created"

abbrev pub is_empty : String → Bool
is_empty s = text_key.same s ""

unfoldable pub owner_ptr : String → Option String
owner_ptr s = if is_empty s then none else some s

-- The switch over the mode of a request.
unfoldable pub requested_mode : Mode → String → Option Mode
requested_mode own s =
    if is_empty s
    then some own
    else if text_key.same s "tick"
    then some mode_tick
    else if text_key.same s "event"
    then some mode_event
    else none

unfoldable pub mode_string : Mode → String
mode_string mode_tick = "tick"
mode_string mode_event = "event"

module _ {W D E : Type 0} where
  unfoldable pub list_infos : List (String × Managed W D E) → List (SimulationInfo D)
  list_infos [] = []
  list_infos ((id, mg) ∷ sims) =
      record mg.info { status = status_of mg.sim.state } ∷ list_infos sims

  -- The entry of the registry that a request asks for.
  unfoldable pub requested_entry :
      Registry (Model W D E) → CreateRequest D → ManagerError E ⊎ Entry (Model W D E)
  requested_entry r req = elim (get_latest r req.model_id) [
    | none ↦ inl (unknown_model req.model_id)
    | some e ↦
        if is_empty req.model_version
        then inr e
        else elim (get_version r req.model_id req.model_version) [
          | some v ↦ inr v
          | none ↦ inl (unknown_version req.model_id req.model_version)
        ]
  ]

  -- The run configuration that a request comes to, for an entry and a mode.
  unfoldable pub run_config : Entry (Model W D E) → CreateRequest D → Mode → RunConfig D
  run_config e req mode = record {
    model_id = e.info.id;
    model_version = e.info.version;
    seed = req.seed;
    mode = mode;
    max_ticks = req.max_ticks;
    workers = req.workers;
    model = req.config;
  }

  abbrev pub configure_answer : Model W D E → Option D → Option E
  configure_answer mdl none = none
  configure_answer mdl (some d) = mdl.configure d

  -- instantiate from the world that simulation.New made on.
  unfoldable pub managed_from :
      Entry (Model W D E) → CreateRequest D → String → Mode → W → Managed W D E
  managed_from e req id mode w = record {
    sim = record { state = idle; err = none; steps = 0; world = w; cancel = none; loops = [] };
    info = record {
      id = id;
      model_id = e.info.id;
      model_version = e.info.version;
      seed = req.seed;
      mode = mode;
      status = "created";
      config = run_config e req mode;
      owner_id = owner_ptr req.owner_id;
    };
  }

  -- instantiate from the world that simulation.New made, or its error, on.
  unfoldable pub after_init :
      Entry (Model W D E) → CreateRequest D → String → Mode → E ⊎ W → ManagerError E ⊎ Managed W D E
  after_init e req id mode (inl err) = inl (init_error err)
  after_init e req id mode (inr w) = inr (managed_from e req id mode w)

  -- instantiate from the mode on.
  unfoldable pub after_mode :
      Entry (Model W D E)
      → Model W D E
      → CreateRequest D
      → String
      → Option Mode
      → ManagerError E ⊎ Managed W D E
  after_mode e mdl req id none = inl (invalid_mode req.mode)
  after_mode e mdl req id (some mode) = after_init e req id mode (mdl.init (run_config e req mode))

  -- instantiate from the answer of Configure on.
  unfoldable pub after_configure :
      Entry (Model W D E)
      → Model W D E
      → CreateRequest D
      → String
      → Option E
      → ManagerError E ⊎ Managed W D E
  after_configure e mdl req id (some err) = inl (configure_error err)
  after_configure e mdl req id none = after_mode e mdl req id (requested_mode mdl.mode req.mode)

module _ {W S D E : Type 0} where
  unfoldable pub new_manager : S → Registry (Model W D E) → Manager W S D E
  new_manager store registry = record { sims = []; store = store; registry = registry; met = none }

  unfoldable pub lookup_sim : Manager W S D E → String → ManagerError E ⊎ Managed W D E
  lookup_sim m id = elim (lookup id m.sims) [ none ↦ inl not_found | some mg ↦ inr mg ]

  unfoldable pub get_info : Manager W S D E → String → Option (SimulationInfo D)
  get_info m id = elim (lookup id m.sims) [
    | none ↦ none
    | some mg ↦ some (record mg.info { status = status_of mg.sim.state })
  ]

  module _ (p : Persistence S D E) where
    -- updateStatus ignores an error.
    unfoldable pub update_status : Manager W S D E → String → String → Manager W S D E
    update_status m id status = record m { store = (p.update_status id status m.store).1 }

    -- instantiate from the store of the model on.
    unfoldable pub after_upsert :
        Manager W S D E
        → Entry (Model W D E)
        → Model W D E
        → CreateRequest D
        → String
        → Option E × S
        → (ManagerError E ⊎ Managed W D E) × Manager W S D E
    after_upsert m e mdl req id (some err, store) =
        (inl (store_error err), record m { store = store })
    after_upsert m e mdl req id (none, store) =
        (after_configure e mdl req id (configure_answer mdl req.config), record m { store = store })

    -- instantiate from the factory on.
    unfoldable pub after_factory :
        Manager W S D E
        → Entry (Model W D E)
        → CreateRequest D
        → String
        → Option (Model W D E)
        → (ManagerError E ⊎ Managed W D E) × Manager W S D E
    after_factory m e req id none = (inl no_factory, m)
    after_factory m e req id (some mdl) =
        after_upsert m e mdl req id (p.upsert_model e.info m.store)

    -- instantiate from the entry on.
    unfoldable pub after_entry :
        Manager W S D E
        → CreateRequest D
        → String
        → ManagerError E ⊎ Entry (Model W D E)
        → (ManagerError E ⊎ Managed W D E) × Manager W S D E
    after_entry m req id (inl err) = (inl err, m)
    after_entry m req id (inr e) = after_factory m e req id e.factory

    -- instantiate; the first argument is the identifier that newID would give.
    unfoldable pub instantiate :
        String
        → Manager W S D E
        → CreateRequest D
        → (ManagerError E ⊎ Managed W D E) × Manager W S D E
    instantiate fresh m req =
        let id = if is_empty req.id then fresh else req.id in
        let resolved = after_entry m req id (requested_entry m.registry req) in
        if leb (2 ^ 63) req.seed then (inl seed_range, m) else resolved

    -- Create from the answer of the store on.
    unfoldable pub after_persist :
        Manager W S D E
        → Managed W D E
        → (E ⊎ SimulationInfo D) × S
        → (ManagerError E ⊎ SimulationInfo D) × Manager W S D E
    after_persist m mg (inl err, store) = (inl (store_error err), record m { store = store })
    after_persist m mg (inr info, store) = (
      inr info,
      record m { store = store; sims = put info.id (record mg { info = info }) m.sims },
    )

    -- Create from what instantiate gave on.
    unfoldable pub register_created :
        (ManagerError E ⊎ Managed W D E) × Manager W S D E
        → (ManagerError E ⊎ SimulationInfo D) × Manager W S D E
    register_created (inl err, m) = (inl err, m)
    register_created (inr mg, m) = after_persist m mg (p.create_simulation mg.info m.store)

    unfoldable pub create_sim :
        String
        → Manager W S D E
        → CreateRequest D
        → (ManagerError E ⊎ SimulationInfo D) × Manager W S D E
    create_sim fresh m req = register_created (instantiate fresh m req)
