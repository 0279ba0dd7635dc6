-- ===== src/Jobs.antt =====
-- internal/queue/queue.go: jobs on a broker, with retries, backoff, dead letters and claims. The
-- state holds what was published and not delivered; a delay is a timer. A Duration is the 64-bit
-- word of its int64; attempts are counted in natural numbers. The broker takes every message, and
-- the coordinator, where there is one, answers every claim; a claim
-- does not expire.
pub mod Retry
pub mod GivingUp
mod Tests
use simulator.Common.{
  ℕ, zero, suc, ◌+◌, ◌-◌, ◌*◌, ◌/◌, ◌%◌, ◌^◌, ◌≤◌, ◌<◌, min, ◌≡◌, refl, sym, ap, subst, ◌∙◌, ◌≢◌,
  ◌↔◌, ◌⊎◌, inl, inr, Bool, true, false, not, ◌&&◌, ◌||◌, Option, none, some, List, [], ◌∷◌, ◌++◌,
  map, Mem, Perm, arith, ℕ_discrete, ◌>>=◌, Returns, returns, ltb, leb, ◌==◌, if◌then◌else◌,
  Bool-cases, Option-cases, length, get_elem?, set, get_or, take, drop, replicate, store,
  length-append, length-set, length-take, length-drop, length-replicate, take-append-drop,
  drop-drop, get_elem?-get_or, get_elem?-lt, get_elem?-append, get_elem?-append_end,
  get_elem?-append_lt, get_or-set, get_or-append, get_or-take,
}
use Prim.Native.String.{String}
use simulator.Common.Maps.{lookup, put, delete, text_key}
use simulator.Entity.{u64}

pub record Job (D : Type 0) : Type 0 where
  pub id : String
  pub simulation_id : String
  pub kind : String
  pub payload : D
  pub attempt : ℕ
  pub max_attempts : ℕ
  pub last_error : String
  pub created_at : ℕ

-- A message is a job, or a body that does not decode.
pub data Body (D : Type 0) : Type 0 where
  job_body : Job D → Body D
  malformed : Body D

pub record JobQueue (D : Type 0) : Type 0 where
  pub jobs : List (Body D)
  pub dead : List (Job D)
  -- retries that wait for their delay
  pub timers : List (ℕ × Job D)
  -- the processed keys, or nil coordination
  pub claims : Option (List (String × String))
  pub backoff : ℕ

-- What Claim answers.
pub data ClaimReply : Type 0 where
  claimed not_claimed : ClaimReply

unfoldable pub is_negative : ℕ → Bool
is_negative d = leb (2 ^ 63) d

-- The loop of backoffFor: `d *= 2` for each earlier attempt.
unfoldable pub double_times : ℕ → ℕ → ℕ
double_times zero d = d
double_times (suc n) d = double_times n (u64 (d * 2))

module _ {D : Type 0} where
  -- New: a base delay that is not positive becomes a second.
  unfoldable pub new_job_queue : Option (List (String × String)) → ℕ → JobQueue D
  new_job_queue claims backoff = record {
    jobs = [];
    dead = [];
    timers = [];
    claims = claims;
    backoff = if backoff == 0 || is_negative backoff then 1000000000 else backoff;
  }

  unfoldable pub enqueue : JobQueue D → Job D → JobQueue D
  enqueue q job =
      let max = if job.max_attempts == 0 then 1 else job.max_attempts in
      record q { jobs = q.jobs ++ job_body (record job { max_attempts = max }) ∷ [] }

  unfoldable pub backoff_for : JobQueue D → ℕ → ℕ
  backoff_for q attempt = double_times (attempt - 1) q.backoff

  unfoldable pub handle_failure : JobQueue D → Job D → String → JobQueue D
  handle_failure q job err =
      let failed = record job { last_error = err } in
      let again = record failed { attempt = job.attempt + 1 } in
      if leb job.max_attempts job.attempt
      then record q { dead = q.dead ++ failed ∷ [] }
      else record q { timers = q.timers ++ (backoff_for q (job.attempt + 1), again) ∷ [] }

  -- The key of a job, without its constant prefix.
  abbrev pub processed_key : Job D → String
  processed_key job = job.id

  -- Claim sets the key if it is absent.
  unfoldable pub claim : JobQueue D → Job D → ClaimReply × JobQueue D
  claim q job = elim q.claims [
    | none ↦ (claimed, q)
    | some keys ↦ elim (lookup (processed_key job) keys) [
      | some _ ↦ (not_claimed, q)
      | none ↦ (claimed, record q { claims = some (put (processed_key job) "1" keys) })
    ]
  ]

  unfoldable pub release : JobQueue D → Job D → JobQueue D
  release q job = elim q.claims [
    | none ↦ q
    | some keys ↦ record q { claims = some (delete (processed_key job) keys) }
  ]

  -- What follows the handler.
  unfoldable pub settle : JobQueue D → Job D → Option String → JobQueue D
  settle q job none = q
  settle q job (some err) = handle_failure (release q job) job err

  -- The callback of Consume: which jobs the handler ran on, and the queue after the delivery. The
  -- handler is a function of the job.
  unfoldable pub deliver : (Job D → Option String) → JobQueue D → Body D → List (Job D) × JobQueue D
  deliver handler q malformed = ([], q)
  deliver handler q (job_body job) =
      let (reply, q') = claim q job in
      elim reply [ not_claimed ↦ ([], q') | claimed ↦ (job ∷ [], settle q' job (handler job)) ]

  -- The broker delivers the first message.
  unfoldable pub consume_one :
      (Job D → Option String) → JobQueue D → Option (List (Job D) × JobQueue D)
  consume_one handler q =
      get_elem? q.jobs 0 >>= λ body. some (deliver handler (record q { jobs = drop 1 q.jobs }) body)

  -- A timer runs out, and its job is published again.
  unfoldable pub fire_timer : JobQueue D → ℕ → Option (JobQueue D)
  fire_timer q i = get_elem? q.timers i >>= λ (delay, job). some (record q {
    jobs = q.jobs ++ job_body job ∷ [];
    timers = take i q.timers ++ drop (i + 1) q.timers;
  })

  -- A queue with nothing else in it: each round delivers a job and lets its retry's timer run out.
  -- The jobs that the handler ran on, in order.
  unfoldable pub drain :
      ℕ → (Job D → Option String) → JobQueue D → Option (List (Job D) × JobQueue D)
  drain zero handler q = none
  drain (suc fuel) handler q = consume_one handler q >>= λ (ran, q').
      if length q'.timers == 0
      then some (ran, q')
      else (fire_timer q' 0 >>= λ q''.
          drain fuel handler q'' >>= λ (later, end). some (ran ++ later, end))
