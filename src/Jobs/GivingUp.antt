-- ===== src/Jobs/GivingUp.antt =====
-- A job that fails whenever it runs: its attempts, and its end as a dead letter.
use simulator.Common.{
  ℕ, zero, suc, ◌+◌, ◌-◌, ◌≤◌, ◌<◌, ◌≡◌, refl, ap, ◌∙◌, true, false, Option, none, some, List, [],
  ◌∷◌, ◌++◌, arith, ◌>>=◌, Returns, returns, leb, length,
}
use Prim.Native.String.{String}
use simulator.Common.Maps.{lookup, put, delete, text_key, lookup-delete}
use simulator.Jobs.{
  Job, job_body, JobQueue, ClaimReply, claimed, not_claimed, handle_failure, claim, release, settle,
  deliver, consume_one, fire_timer, drain,
}

-- No other delivery of the job is under way or has succeeded.
abbrev pub IsUnclaimed : Option (List (String × String)) → String → Type 0
IsUnclaimed none key = Unit {0}
IsUnclaimed (some keys) key = lookup key keys ≡ none

-- The claims after a job was claimed and its claim was given back.
abbrev given_back : Option (List (String × String)) → String → Option (List (String × String))
given_back none key = none
given_back (some keys) key = some (delete key (put key "1" keys))

given_back-IsUnclaimed :
    (c : Option (List (String × String))) (key : String) → IsUnclaimed (given_back c key) key
given_back-IsUnclaimed none key = tt
given_back-IsUnclaimed (some keys) key = lookup-delete key (put key "1" keys)

module _ {D : Type 0} (handler : Job D → Option String) (err : String)
    (failing : (j : Job D) → handler j ≡ some err) (dead : List (Job D)) (backoff : ℕ) where
  -- The queue with this job only.
  abbrev pub holding : Option (List (String × String)) → Job D → JobQueue D
  holding c job = record {
    jobs = job_body job ∷ [];
    dead = dead;
    timers = [];
    claims = c;
    backoff = backoff;
  }

  abbrev pub failed : Job D → Job D
  failed job = record job { last_error = err }

  abbrev next_attempt : Job D → Job D
  next_attempt job = record job { last_error = err; attempt = job.attempt + 1 }

  abbrev emptied : Option (List (String × String)) → Job D → JobQueue D
  emptied c job = record {
    jobs = [];
    dead = dead;
    timers = [];
    claims = given_back c job.id;
    backoff = backoff;
  }

  abbrev taken : Option (List (String × String)) → JobQueue D
  taken c = record { jobs = []; dead = dead; timers = []; claims = c; backoff = backoff }

  claim_held :
      (keys : List (String × String)) (job : Job D)
      → lookup job.id keys ≡ none
      → claim (taken (some keys)) job ≡ (claimed, taken (some (put job.id "1" keys)))
  unfolding claim
  claim_held keys job u = ground arith

  abbrev after_claim : Job D → ClaimReply × JobQueue D → Option (List (Job D) × JobQueue D)
  after_claim job c = some (elim c.0 as (λ _. List (Job D) × JobQueue D) [
    | not_claimed ↦ ([], c.1)
    | claimed ↦ (job ∷ [], settle c.1 job (handler job))
  ])

  consumed :
      (c : Option (List (String × String))) (job : Job D)
      → IsUnclaimed c job.id
      → consume_one handler (holding c job)
        ≡ some (job ∷ [], handle_failure (emptied c job) job err)
  unfolding consume_one deliver claim release settle
  consumed none job u = rw (failing job) refl
  consumed (some keys) job u =
      ap (after_claim job) (claim_held keys job u)
      ∙ ap (λ r. some (job ∷ [], settle (taken (some (put job.id "1" keys))) job r)) (failing job)

  -- The queue in the end.
  abbrev pub given_up : Option (List (String × String)) → Job D → JobQueue D
  given_up c job = record (emptied c job) { dead = dead ++ failed job ∷ [] }

  last_round :
      (c : Option (List (String × String))) (job : Job D) (fuel : ℕ)
      → IsUnclaimed c job.id
      → job.max_attempts ≤ job.attempt
      → drain (suc fuel) handler (holding c job) ≡ some (job ∷ [], given_up c job)
  unfolding drain handle_failure
  last_round c job fuel u done =
      let over : leb job.max_attempts job.attempt ≡ true = ground arith in
      rw (consumed c job u, over) refl

  -- What a round makes of the later ones.
  abbrev then_later :
      Job D → Option (List (Job D) × JobQueue D) → Option (List (Job D) × JobQueue D)
  then_later job rest = rest >>= λ (later, end). some (job ∷ later, end)

  one_round :
      (c : Option (List (String × String))) (job : Job D) (fuel : ℕ)
      → IsUnclaimed c job.id
      → job.attempt < job.max_attempts
      → drain (suc fuel) handler (holding c job)
        ≡ then_later job (drain fuel handler (holding (given_back c job.id) (next_attempt job)))
  unfolding drain handle_failure fire_timer
  one_round c job fuel u more =
      let open_still : leb job.max_attempts job.attempt ≡ false = ground arith in
      rw (consumed c job u, open_still) refl

  -- What a job comes to that fails in every attempt.
  pub record IsGivenUp (job : Job D) (r : List (Job D) × JobQueue D) : Type 0 where
    pub runs : length r.0 ≡ job.max_attempts - job.attempt + 1
    pub idle : (r.1.jobs ≡ []) × (r.1.timers ≡ [])
    pub last : Job D
    pub buried : r.1.dead ≡ dead ++ last ∷ []
    pub same : (last.id ≡ job.id) × (last.payload ≡ job.payload) × (last.last_error ≡ err)
    pub unclaimed : IsUnclaimed r.1.claims job.id

  gives_up :
      (n : ℕ) (c : Option (List (String × String))) (job : Job D)
      → job.max_attempts - job.attempt ≡ n
      → IsUnclaimed c job.id
      → Returns (IsGivenUp job) (drain (suc n) handler (holding c job))
  gives_up zero c job left u = rw (last_round c job zero u (omega arith)) (
      returns (record {
        runs = omega arith;
        idle = (refl, refl);
        last = failed job;
        buried = refl;
        same = (refl, refl, refl);
        unclaimed = given_back-IsUnclaimed c job.id;
      }))
  gives_up (suc n) c job left u = rw (one_round c job (suc n) u (omega arith)) (
      prepend (
        gives_up n (given_back c job.id) (next_attempt job) (omega arith)
          (given_back-IsUnclaimed c job.id)))
    where
      prepend :
          {t : Option (List (Job D) × JobQueue D)}
          → Returns (IsGivenUp (next_attempt job)) t
          → Returns (IsGivenUp job) (then_later job t)
      prepend (returns {a = r} g) = returns (record {
        runs = omega (arith, g.runs);
        idle = g.idle;
        last = g.last;
        buried = g.buried;
        same = g.same;
        unclaimed = g.unclaimed;
      })

  -- A job that fails in every attempt, alone in the queue and not claimed, is run once more than
  -- the attempts that it has left; then it is the last of the dead letters, with the error of the
  -- handler, nothing is queued or waits for a delay, and its claim is free.
  pub failing_job_gives_up :
      (c : Option (List (String × String))) (job : Job D)
      → IsUnclaimed c job.id
      → Returns
          (IsGivenUp job)
          (drain (suc (job.max_attempts - job.attempt)) handler (holding c job))
  failing_job_gives_up c job u = gives_up (job.max_attempts - job.attempt) c job refl u
