-- ===== src/Workers.antt =====
-- internal/workers/runjob.go: a job of the queue is run as a simulation. JSON, the run of the
-- simulation with all that happens during it (the moves of Runtime), its snapshot and the broker are
-- parameters, and the limit of the time is left out.
mod Tests
pub mod Processed
use simulator.Common.{
  ℕ, zero, suc, ◌+◌, ◌-◌, ◌*◌, ◌/◌, ◌%◌, ◌^◌, ◌≤◌, ◌<◌, min, ◌≡◌, refl, sym, ap, subst, ◌∙◌, ◌≢◌,
  ◌↔◌, ◌⊎◌, inl, inr, Bool, true, false, not, ◌&&◌, ◌||◌, Option, none, some, List, [], ◌∷◌, ◌++◌,
  map, Mem, Perm, arith, ℕ_discrete, ◌>>=◌, Returns, returns, ltb, leb, ◌==◌, if◌then◌else◌,
  Bool-cases, Option-cases, length, get_elem?, set, get_or, take, drop, replicate, store,
  length-append, length-set, length-take, length-drop, length-replicate, take-append-drop,
  drop-drop, get_elem?-get_or, get_elem?-lt, get_elem?-append, get_elem?-append_end,
  get_elem?-append_lt, get_or-set, get_or-append, get_or-take,
}
use Prim.Native.String.{String}
use simulator.Common.Maps.{text_key}
use simulator.Runtime.{Simulation, new_simulation}
use simulator.World.{Mode, mode_tick, mode_event}
use simulator.Registry.{Entry, Registry, get_latest, get_version}
use simulator.Jobs.{Job}
use simulator.Runner.{RunConfig, Model, is_empty, configure_answer}

pub record RunJobPayload (D : Type 0) : Type 0 where
  pub simulation_id : String
  pub model_id : String
  pub model_version : String
  pub seed : ℕ
  pub mode : String
  pub max_ticks : ℕ
  pub workers : ℕ
  pub config : Option D

-- A result, without the time at which it was made; the error is that of the run.
pub record JobResult (D E : Type 0) : Type 0 where
  pub job_id : String
  pub simulation_id : String
  pub status : String
  pub error : Option E
  pub snapshot : Option D

pub data JobError (E : Type 0) : Type 0 where
  bad_payload no_factory : JobError E
  unknown_model : String → JobError E
  configure_failed init_failed not_published : E → JobError E

unfoldable pub job_mode : Mode → String → Mode
job_mode own s =
    if text_key.same s "tick"
    then mode_tick
    else if text_key.same s "event"
    then mode_event
    else own

-- What RunJob calls.
pub record Engine (W Q D E : Type 0) : Type 0 where
  pub decode : D → Option (RunJobPayload D)
  pub run : Simulation W E → Option E × Simulation W E
  -- the JSON form of the snapshot, if both succeed
  pub snapshot : Simulation W E → Option D
  pub publish : JobResult D E → Q → Option E × Q

module _ {W D E : Type 0} where
  -- A version that is not registered leaves the latest one.
  unfoldable pub versioned :
      Entry (Model W D E) → Option (Entry (Model W D E)) → Entry (Model W D E)
  versioned e none = e
  versioned e (some v) = v

  unfoldable pub job_entry : Registry (Model W D E) → RunJobPayload D → Option (Entry (Model W D E))
  job_entry r p = elim (get_latest r p.model_id) [
    | none ↦ none
    | some e ↦
        if is_empty p.model_version
        then some e
        else some (versioned e (get_version r p.model_id p.model_version))
  ]

  unfoldable pub job_config : RunJobPayload D → Entry (Model W D E) → Model W D E → RunConfig D
  job_config p e mdl = record {
    model_id = e.info.id;
    model_version = e.info.version;
    seed = p.seed;
    mode = job_mode mdl.mode p.mode;
    max_ticks = p.max_ticks;
    workers = p.workers;
    model = p.config;
  }

unfoldable pub run_status : {E : Type 0} → Option E → String
run_status none = "completed"
run_status (some e) = "failed"

abbrev pub published : {Q E : Type 0} → Option E × Q → Option (JobError E) × Q
published (none, q) = (none, q)
published (some e, q) = (some (not_published e), q)

module _ {W Q D E : Type 0} (g : Engine W Q D E) where
  unfoldable pub result_of : Job D → RunJobPayload D → Option E × Simulation W E → JobResult D E
  result_of job p (err, s) = record {
    job_id = job.id;
    simulation_id = p.simulation_id;
    status = run_status err;
    error = err;
    snapshot = g.snapshot s;
  }

  -- RunJob from the world that simulation.New made, or its error, on.
  unfoldable pub run_world : Job D → RunJobPayload D → Q → E ⊎ W → Option (JobError E) × Q
  run_world job p q (inl e) = (some (init_failed e), q)
  run_world job p q (inr w) = published (g.publish (result_of job p (g.run (new_simulation w))) q)

  -- RunJob from the answer of Configure on.
  unfoldable pub run_configured :
      Job D
      → RunJobPayload D
      → Entry (Model W D E)
      → Model W D E
      → Q
      → Option E
      → Option (JobError E) × Q
  run_configured job p e mdl q (some err) = (some (configure_failed err), q)
  run_configured job p e mdl q none = run_world job p q (mdl.init (job_config p e mdl))

  -- RunJob from the model's factory on.
  unfoldable pub run_made :
      Job D
      → RunJobPayload D
      → Entry (Model W D E)
      → Q
      → Option (Model W D E)
      → Option (JobError E) × Q
  run_made job p e q none = (some no_factory, q)
  run_made job p e q (some mdl) = run_configured job p e mdl q (configure_answer mdl p.config)

  -- RunJob from the entry of the registry on.
  unfoldable pub run_entry :
      Job D → RunJobPayload D → Q → Option (Entry (Model W D E)) → Option (JobError E) × Q
  run_entry job p q none = (some (unknown_model p.model_id), q)
  run_entry job p q (some e) = run_made job p e q e.factory

  unfoldable pub run_payload :
      Registry (Model W D E) → Job D → Q → Option (RunJobPayload D) → Option (JobError E) × Q
  run_payload r job q none = (some bad_payload, q)
  run_payload r job q (some p) = run_entry job p q (job_entry r p)

  unfoldable pub run_job : Registry (Model W D E) → Job D → Q → Option (JobError E) × Q
  run_job r job q = run_payload r job q (g.decode job.payload)
