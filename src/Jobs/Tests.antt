-- ===== src/Jobs/Tests.antt =====
-- A job with two attempts, run by a handler that fails and by one that succeeds.
use simulator.Common.{List, ℕ, ◌≡◌, refl, Option, none, some, [], ◌∷◌, ◌>>=◌, length, Returns}
use Prim.Native.String.{String}
use simulator.Common.Maps.{lookup, put, delete}
use simulator.Jobs.{
  Job, job_body, JobQueue, new_job_queue, enqueue, double_times, backoff_for, handle_failure, claim,
  release, settle, deliver, consume_one, fire_timer, drain,
}
use simulator.Jobs.Retry.{Happening, enqueues, delivers, fires, all_happen, done_job_is_skipped}
use simulator.Jobs.GivingUp.{holding, IsGivenUp, failing_job_gives_up}

abbrev run_job : Job ℕ
run_job = record {
  id = "j";
  simulation_id = "s";
  kind = "run_simulation";
  payload = 0;
  attempt = 0;
  max_attempts = 2;
  last_error = "";
  created_at = 0;
}

abbrev fails : Job ℕ → Option String
fails job = some "model panic"

abbrev succeeds : Job ℕ → Option String
succeeds job = none

abbrev waiting : JobQueue ℕ
waiting = enqueue (new_job_queue (some []) 5) run_job

-- With two attempts at most, the job runs three times and is dead-lettered.
three_runs :
    (drain 5 fails waiting >>= λ (ran, q).
    let counts : ℕ × ℕ = (length ran, length q.dead) in some counts)
    ≡ some (3, 1)
unfolding drain consume_one fire_timer deliver claim release settle handle_failure enqueue
    new_job_queue backoff_for double_times lookup put delete
three_runs = refl

-- The job is enqueued and delivered twice more in between.
abbrev busy : List (Happening ℕ)
busy = enqueues run_job ∷ delivers (job_body run_job) ∷ fires 0 ∷ []

done_job_is_skipped_example :
    ((deliver succeeds waiting (job_body run_job)).0 ≡ run_job ∷ [])
    × (deliver succeeds
          (all_happen succeeds busy (deliver succeeds waiting (job_body run_job)).1)
          (job_body run_job)
        ≡ ([], all_happen succeeds busy (deliver succeeds waiting (job_body run_job)).1))
unfolding enqueue new_job_queue lookup
done_job_is_skipped_example =
    done_job_is_skipped succeeds waiting run_job run_job [] busy refl refl refl refl

failing_job_gives_up_example :
    Returns
      (IsGivenUp fails "model panic" (λ j. refl) [] 5 run_job)
      (drain 3 fails (holding fails "model panic" (λ j. refl) [] 5 (some []) run_job))
unfolding lookup
failing_job_gives_up_example =
    failing_job_gives_up fails "model panic" (λ j. refl) [] 5 (some []) run_job refl
