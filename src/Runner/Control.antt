-- ===== src/Runner/Control.antt =====
-- internal/runner/manager.go: the control of the simulations in the process. A call of the manager
-- first calls the runtime, and then, without its lock, records the status; what the run of that
-- simulation, its watcher and other calls do to it in between is `meanwhile`.
use simulator.Common.{◌+◌, ◌⊎◌, inl, inr, ◌||◌, Option, none, some, if◌then◌else◌, store}
use Prim.Native.String.{String}
use simulator.Common.Maps.{lookup, put, delete, text_key}
use simulator.Runtime.{
  State, failed, Outcome, Simulation, LifecycleError, StepReply, refused, returned, panics,
  is_running, is_paused, pause, resume, stop, begin, single_step,
}
use simulator.Runner.{
  RunConfig, CreateRequest, Managed, ManagerError, not_found, lifecycle, cannot_delete, store_error,
  step_error, Persistence, Metrics, Manager, status_of, mode_string, update_status, instantiate,
}

abbrev pub count_start : Option Metrics → Option Metrics
count_start none = none
count_start (some c) = some (record c { started = c.started + 1; active_up = c.active_up + 1 })

abbrev pub count_end : State → Option Metrics → Option Metrics
count_end s none = none
count_end failed (some c) =
    some (record c { active_down = c.active_down + 1; failures = c.failures + 1 })
count_end s (some c) =
    some (record c { active_down = c.active_down + 1; completions = c.completions + 1 })

-- The request that Replay makes of a stored run configuration: no model configuration was written
-- as JSON null, which is read back as a configuration.
unfoldable pub replay_request : {D : Type 0} → D → String → RunConfig D → CreateRequest D
replay_request null id rc = record {
  id = id;
  model_id = rc.model_id;
  model_version = rc.model_version;
  seed = rc.seed;
  mode = mode_string rc.mode;
  max_ticks = rc.max_ticks;
  workers = rc.workers;
  config = some (elim rc.model [ none ↦ null | some d ↦ d ]);
  owner_id = "";
}

module _ {W S D E : Type 0} where
  -- A call on the simulation of a managed record.
  abbrev pub with_sim : Manager W S D E → String → Managed W D E → Simulation W E → Manager W S D E
  with_sim m id mg sim = record m { sims = put id (record mg { sim = sim }) m.sims }

  -- What follows `m.lookup(id)`: its error, or the rest with the simulation it found.
  unfoldable pub after_lookup :
      Manager W S D E
      → (Managed W D E → Option (ManagerError E) × Manager W S D E)
      → Option (Managed W D E)
      → Option (ManagerError E) × Manager W S D E
  after_lookup m next none = (some not_found, m)
  after_lookup m next (some mg) = next mg

  module _ (p : Persistence S D E) (meanwhile : Simulation W E → Simulation W E) where
    -- control after the call of the runtime.
    unfoldable pub after_control :
        String
        → Manager W S D E
        → String
        → Managed W D E
        → Option LifecycleError × Simulation W E
        → Option (ManagerError E) × Manager W S D E
    after_control status m id mg (some e, sim) = (some (lifecycle e), with_sim m id mg sim)
    after_control status m id mg (none, sim) =
        (none, update_status p (with_sim m id mg (meanwhile sim)) id status)

    -- control, for a call of the runtime.
    unfoldable pub control :
        (Simulation W E → Option LifecycleError × Simulation W E)
        → String
        → Manager W S D E
        → String
        → Option (ManagerError E) × Manager W S D E
    control f status m id =
        after_lookup m (λ mg. after_control status m id mg (f mg.sim)) (lookup id m.sims)

    unfoldable pub pause_sim : Manager W S D E → String → Option (ManagerError E) × Manager W S D E
    pause_sim m id = control pause "paused" m id

    unfoldable pub resume_sim : Manager W S D E → String → Option (ManagerError E) × Manager W S D E
    resume_sim m id = control resume "running" m id

    unfoldable pub stop_sim : Manager W S D E → String → Option (ManagerError E) × Manager W S D E
    stop_sim m id = control stop "stopped" m id

    -- Start after the call of the runtime; the goroutine of watch is a later call.
    unfoldable pub after_start :
        Manager W S D E
        → String
        → Managed W D E
        → Option LifecycleError × Simulation W E
        → Option (ManagerError E) × Manager W S D E
    after_start m id mg (some e, sim) = (some (lifecycle e), with_sim m id mg sim)
    after_start m id mg (none, sim) =
        let counted = record m { met = count_start m.met } in
        (none, update_status p (with_sim counted id mg (meanwhile sim)) id "running")

    unfoldable pub start_sim : Manager W S D E → String → Option (ManagerError E) × Manager W S D E
    start_sim m id = after_lookup m (λ mg. after_start m id mg (begin mg.sim)) (lookup id m.sims)

    -- Step after the call of the runtime; a panic goes on to the caller, here as an error.
    unfoldable pub after_single_step :
        Manager W S D E
        → String
        → Managed W D E
        → StepReply E × Simulation W E
        → Option (ManagerError E) × Manager W S D E
    after_single_step m id mg (refused, sim) =
        (some (lifecycle LifecycleError.already_running), with_sim m id mg sim)
    after_single_step m id mg (panics e, sim) = (some (step_error e), with_sim m id mg sim)
    after_single_step m id mg (returned (some e), sim) = (some (step_error e), with_sim m id mg sim)
    after_single_step m id mg (returned none, sim) =
        let t = meanwhile sim in (none, update_status p (with_sim m id mg t) id (status_of t.state))

    -- Step, with the executor's step, and what others do to the simulation while it works.
    unfoldable pub step_sim :
        (W → W × Outcome E)
        → (Simulation W E → Simulation W E)
        → Manager W S D E
        → String
        → Option (ManagerError E) × Manager W S D E
    step_sim exec working m id =
        after_lookup m (λ mg. after_single_step m id mg (single_step exec working mg.sim))
          (lookup id m.sims)

  module _ (p : Persistence S D E) where
    -- Delete from the call of the store on.
    unfoldable pub after_delete :
        Manager W S D E → String → Option E × S → Option (ManagerError E) × Manager W S D E
    after_delete m id (none, store) = (none, record m { sims = delete id m.sims; store = store })
    after_delete m id (some e, store) =
        (some (store_error e), record m { sims = delete id m.sims; store = store })

    -- Delete: Stop of a simulation that neither runs nor is paused answers that it is not running.
    unfoldable pub delete_sim : Manager W S D E → String → Option (ManagerError E) × Manager W S D E
    delete_sim m id =
        after_lookup m
          (λ mg.
            let answer = after_delete m id (p.delete_simulation id m.store) in
            if is_running mg.sim.state || is_paused mg.sim.state
            then (some cannot_delete, m)
            else answer)
          (lookup id m.sims)

  module _ (p : Persistence S D E) (meanwhile : Simulation W E → Simulation W E) where
    -- Replay after Start of the fresh simulation.
    unfoldable pub after_restart :
        Manager W S D E
        → String
        → Managed W D E
        → Option LifecycleError × Simulation W E
        → Option (ManagerError E) × Manager W S D E
    after_restart m id mg (some e, sim) = (some (lifecycle e), with_sim m id mg sim)
    after_restart m id mg (none, sim) =
        (none, update_status p (with_sim m id mg (meanwhile sim)) id "running")

    -- Replay from what instantiate gave on.
    unfoldable pub after_instantiate :
        String
        → (ManagerError E ⊎ Managed W D E) × Manager W S D E
        → Option (ManagerError E) × Manager W S D E
    after_instantiate id (inl e, m) = (some e, m)
    after_instantiate id (inr fresh, m) = after_restart m id fresh (begin fresh.sim)

    -- Replay; the error of Stop is that the simulation is not running, which it goes on from.
    unfoldable pub replay_sim :
        D → Manager W S D E → String → Option (ManagerError E) × Manager W S D E
    replay_sim null m id =
        after_lookup m
          (λ mg.
            let stopped = with_sim m id mg (stop mg.sim).1 in
            after_instantiate id (instantiate p "" stopped (replay_request null id mg.info.config)))
          (lookup id m.sims)

  module _ (p : Persistence S D E) where
    -- watch, once Wait has returned.
    unfoldable pub watch_end : Manager W S D E → String → Managed W D E → Manager W S D E
    watch_end m id mg =
        update_status p (record m { met = count_end mg.sim.state m.met }) id
          (status_of mg.sim.state)
