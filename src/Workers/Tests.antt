-- ===== src/Workers/Tests.antt =====
-- A worker with one model.
use simulator.Common.{ℕ, ◌+◌, ◌≡◌, refl, inr, Option, none, some, [], ◌∷◌}
use Prim.Native.String.{String}
use simulator.Common.Maps.{lookup}
use simulator.World.{mode_tick}
use simulator.Registry.{
  ModelInfo, Registry, get_latest, get_version, entry_key, entry_or_zero, Entry,
}
use simulator.Runner.{Model}
use simulator.Jobs.{Job, JobQueue, job_body, claim, deliver}
use simulator.Runtime.{Simulation, new_simulation}
use simulator.Workers.{RunJobPayload, job_entry, versioned, Engine, run_job, job_config, job_mode}
use simulator.Workers.Processed.{handler, run_job_is_processed}

abbrev counter_model : Model ℕ ℕ ℕ
counter_model = record { mode = mode_tick; configure = λ d. none; init = λ rc. inr 10 }

abbrev counter_info : ModelInfo
counter_info = record {
  id = "counter";
  name = "Counter";
  version = "1.0.0";
  description = "";
  mode = "tick";
}

abbrev models : Registry (Model ℕ ℕ ℕ)
models = record {
  entries = ("counter@1.0.0", record { info = counter_info; factory = some counter_model }) ∷ [];
  latest = ("counter", "1.0.0") ∷ [];
}

abbrev payload_of : String → RunJobPayload ℕ
payload_of version = record {
  simulation_id = "s1";
  model_id = "counter";
  model_version = version;
  seed = 1;
  mode = "";
  max_ticks = 0;
  workers = 1;
  config = none;
}

-- A version that does not exist runs as the latest one.
other_version :
    job_entry models (payload_of "9.9.9")
    ≡ some (record { info = counter_info; factory = some counter_model })
unfolding job_entry versioned get_latest get_version entry_key lookup entry_or_zero
other_version = refl

-- Every run fails with the error 7, and the broker counts the results.
abbrev failing : Engine ℕ ℕ ℕ ℕ
failing = record {
  decode = λ d. some (payload_of "");
  run = λ s. (some 7, s);
  snapshot = λ s. none;
  publish = λ r q. (none, q + 1);
}

abbrev job : Job ℕ
job = record {
  id = "j1";
  simulation_id = "s1";
  kind = "run_simulation";
  payload = 0;
  attempt = 0;
  max_attempts = 3;
  last_error = "";
  created_at = 0;
}

abbrev no_jobs : JobQueue ℕ
no_jobs = record { jobs = []; dead = []; timers = []; claims = none; backoff = 1 }

abbrev the_entry : Entry (Model ℕ ℕ ℕ)
the_entry = record { info = counter_info; factory = some counter_model }

abbrev failed_run : Option ℕ × Simulation ℕ ℕ
failed_run = failing.run (new_simulation 10)

run_job_is_processed_example :
    (run_job failing models job 0 ≡ (none, 1))
    × (deliver (handler failing models (λ e. "failed") 0) no_jobs (job_body job)
        ≡ (job ∷ [], no_jobs))
unfolding job_entry versioned get_latest get_version entry_key lookup entry_or_zero job_config
    job_mode claim
run_job_is_processed_example =
    run_job_is_processed failing models (λ e. "failed") job (payload_of "") the_entry counter_model
      10 0 refl refl refl refl refl (some 7) (new_simulation 10) 1 no_jobs no_jobs refl refl refl
