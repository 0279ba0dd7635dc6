-- ===== src/Workers/Processed.antt =====
-- internal/workers/runjob.go as the handler of internal/queue/queue.go.
use simulator.Common.{◌≡◌, refl, ap, ◌∙◌, inr, Option, none, some, [], ◌∷◌}
use Prim.Native.String.{String}
use simulator.Registry.{Entry, Registry}
use simulator.Jobs.{Job, JobQueue, job_body, claimed, not_claimed, claim, settle, deliver}
use simulator.Runner.{Model, configure_answer}
use simulator.Runtime.{Simulation, new_simulation}
use simulator.Workers.{
  RunJobPayload, JobError, job_entry, job_config, run_status, Engine, published, result_of,
  run_world, run_configured, run_made, run_entry, run_payload, run_job,
}

module _ {W Q D E : Type 0} (g : Engine W Q D E) (r : Registry (Model W D E))
    (message : JobError E → String) where
  -- The handler that the worker gives to Consume: the error of RunJob, as its message.
  abbrev pub job_error : Option (JobError E) → Option String
  job_error none = none
  job_error (some e) = some (message e)

  abbrev pub handler : Q → Job D → Option String
  handler q job = job_error (run_job g r job q).0

  module _ (job : Job D) (p : RunJobPayload D) (e : Entry (Model W D E)) (mdl : Model W D E) (w : W)
      (q : Q) (decoded : g.decode job.payload ≡ some p) (found : job_entry r p ≡ some e)
      (made : e.factory ≡ some mdl) (configured : configure_answer mdl p.config ≡ none)
      (started : mdl.init (job_config p e mdl) ≡ inr w) where
    result_of-eq :
        (err : Option E) (s : Simulation W E)
        → result_of g job p (err, s) ≡ record {
          job_id = job.id;
          simulation_id = p.simulation_id;
          status = elim err [ none ↦ "completed" | some _ ↦ "failed" ];
          error = err;
          snapshot = g.snapshot s;
        }
    unfolding result_of run_status
    result_of-eq none s = refl
    result_of-eq (some e) s = refl

    -- A job whose simulation comes to be is published, whatever its run answers.
    run_job-published :
        run_job g r job q ≡ published (g.publish (result_of g job p (g.run (new_simulation w))) q)
    unfolding run_job run_payload run_entry run_made run_configured run_world
    run_job-published =
        ap (run_payload g r job q) decoded
        ∙ ap (run_entry g job p q) found
        ∙ ap (run_made g job p e q) made
        ∙ ap (run_configured g job p e mdl q) configured
        ∙ ap (run_world g job p q) started

    -- A job whose payload decodes, whose model is registered and makes a simulation, and whose result
    -- the broker takes: RunJob publishes the result of the run under the identifiers of the job and of
    -- the simulation, with the snapshot: "failed" with the error of the run if there is one, and
    -- else "completed" without an error. It answers no error itself. So the queue ran the job once
    -- and keeps its claim: also a run that failed is neither retried nor a dead letter.
    pub run_job_is_processed :
        (err : Option E) (s : Simulation W E) (q' : Q) (jobs jobs' : JobQueue D)
        → g.run (new_simulation w) ≡ (err, s)
        → g.publish
            (record {
              job_id = job.id;
              simulation_id = p.simulation_id;
              status = elim err [ none ↦ "completed" | some _ ↦ "failed" ];
              error = err;
              snapshot = g.snapshot s;
            })
            q
          ≡ (none, q')
        → claim jobs job ≡ (claimed, jobs')
        → (run_job g r job q ≡ (none, q'))
          × (deliver (handler q) jobs (job_body job) ≡ (job ∷ [], jobs'))
    unfolding deliver settle
    run_job_is_processed err s q' jobs jobs' answered taken free =
        let result_is = result_of-eq err s in
        let ran : run_job g r job q ≡ (none, q') =
          run_job-published
          ∙ ap (λ x. published (g.publish (result_of g job p x) q)) answered
          ∙ ap (λ x. published (g.publish x q)) result_is
          ∙ ap published taken in
        (
          ran,
          ap
                (λ c. elim c.0 [
                  | not_claimed ↦ ([], c.1)
                  | claimed ↦ (job ∷ [], settle c.1 job (handler q job))
                ])
                free
              ∙ ap (λ x. (job ∷ [], settle jobs' job (job_error x.0))) ran,
        )
