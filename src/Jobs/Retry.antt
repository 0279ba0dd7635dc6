-- ===== src/Jobs/Retry.antt =====
-- Jobs that are delivered more than once.
use simulator.Common.{
  ℕ, ◌+◌, ◌≡◌, refl, sym, ap, subst, ◌∙◌, ◌≢◌, inl, inr, Option, none, some, List, [], ◌∷◌, ◌++◌,
  arith, ◌>>=◌, Option-cases, get_elem?, take, drop,
}
use Prim.Native.String.{String}
use simulator.Common.Maps.{
  lookup, put, delete, text_key, lookup-put, lookup-put_other, lookup-delete_other,
}
use simulator.Jobs.{
  Job, Body, job_body, malformed, JobQueue, ClaimReply, claimed, not_claimed, claim, settle,
  deliver, release, handle_failure, enqueue, fire_timer,
}

-- What can happen to the queue: a job comes in, any message is delivered, a timer runs out. A timer
-- that there is not does nothing.
pub data Happening (D : Type 0) : Type 0 where
  enqueues : Job D → Happening D
  delivers : Body D → Happening D
  fires : ℕ → Happening D

module _ {D : Type 0} where
  abbrev marked_done : JobQueue D → Job D → List (String × String) → JobQueue D
  marked_done q job keys = record q { claims = some (put job.id "1" keys) }

  module _ (q : JobQueue D) (job : Job D) (keys : List (String × String))
      (coord : q.claims ≡ some keys) where
    claim_free : lookup job.id keys ≡ none → claim q job ≡ (claimed, marked_done q job keys)
    unfolding claim
    claim_free fresh = ground arith

    claim_taken : (v : String) → lookup job.id keys ≡ some v → claim q job ≡ (not_claimed, q)
    unfolding claim
    claim_taken v there = ground arith

  abbrev after_claim :
      (Job D → Option String) → Job D → ClaimReply × JobQueue D → List (Job D) × JobQueue D
  after_claim handler job c = elim c.0 [
    | not_claimed ↦ ([], c.1)
    | claimed ↦ (job ∷ [], settle c.1 job (handler job))
  ]

  delivered :
      (handler : Job D → Option String) (q : JobQueue D) (job : Job D)
      (keys : List (String × String))
      → q.claims ≡ some keys
      → lookup job.id keys ≡ none
      → handler job ≡ none
      → deliver handler q (job_body job) ≡ (job ∷ [], marked_done q job keys)
  unfolding deliver settle
  delivered handler q job keys coord fresh done =
      ap (after_claim handler job) (claim_free q job keys coord fresh)
      ∙ ap (λ r. (job ∷ [], settle (marked_done q job keys) job r)) done

  skipped :
      (handler : Job D → Option String) (q : JobQueue D) (again : Job D)
      (keys : List (String × String)) (v : String)
      → q.claims ≡ some keys
      → lookup again.id keys ≡ some v
      → deliver handler q (job_body again) ≡ ([], q)
  unfolding deliver
  skipped handler q again keys v coord there =
      ap (after_claim handler again) (claim_taken q again keys coord v there)

  unfoldable pub fired : JobQueue D → Option (JobQueue D) → JobQueue D
  fired q none = q
  fired q (some q') = q'

  unfoldable pub happen : (Job D → Option String) → Happening D → JobQueue D → JobQueue D
  happen handler (enqueues job) q = enqueue q job
  happen handler (delivers body) q = (deliver handler q body).1
  happen handler (fires i) q = fired q (fire_timer q i)

  unfoldable pub all_happen : (Job D → Option String) → List (Happening D) → JobQueue D → JobQueue D
  all_happen handler [] q = q
  all_happen handler (h ∷ hs) q = all_happen handler hs (happen handler h q)

  -- The key of a job is set.
  abbrev IsClaimed : String → JobQueue D → Type 0
  IsClaimed id q =
      (keys : List (String × String)) × (v : String) × (q.claims ≡ some keys)
      × (lookup id keys ≡ some v)

  claims-handle_failure :
      (q : JobQueue D) (job : Job D) (err : String) → (handle_failure q job err).claims ≡ q.claims
  unfolding handle_failure
  claims-handle_failure q job err = ground arith

  claims-release :
      (q : JobQueue D) (job : Job D) (keys : List (String × String))
      → q.claims ≡ some keys
      → (release q job).claims ≡ some (delete job.id keys)
  unfolding release
  claims-release q job keys at = rw (at) refl

  settle-IsClaimed :
      (id : String) (q : JobQueue D) (job : Job D) (r : Option String)
      → id ≢ job.id
      → IsClaimed id q
      → IsClaimed id (settle q job r)
  unfolding settle
  settle-IsClaimed id q job none ne c = c
  settle-IsClaimed id q job (some err) ne (keys, v, at, has) = (
    delete job.id keys,
    v,
    claims-handle_failure (release q job) job err ∙ claims-release q job keys at,
    lookup-delete_other id job.id keys ne ∙ has,
  )

  deliver-IsClaimed :
      (handler : Job D → Option String) (id : String) (q : JobQueue D) (body : Body D)
      → IsClaimed id q
      → IsClaimed id (deliver handler q body).1
  unfolding deliver
  deliver-IsClaimed handler id q malformed c = c
  deliver-IsClaimed handler id q (job_body job) (keys, v, at, has) =
      elim (Option-cases (lookup job.id keys)) [
        | inr (w, there) ↦
            subst (λ x. IsClaimed id (after_claim handler job x).1)
              (sym (claim_taken q job keys at w there)) (keys, v, at, has)
        | inl free ↦
            let ne : id ≢ job.id = λ e. cc (has, free, ap (λ k. lookup k keys) e) in
            subst (λ x. IsClaimed id (after_claim handler job x).1)
              (sym (claim_free q job keys at free))
              (settle-IsClaimed id (marked_done q job keys) job (handler job) ne
                (put job.id "1" keys, v, refl, lookup-put_other id job.id "1" keys ne ∙ has))
      ]

  fired-IsClaimed :
      (id : String) (q : JobQueue D) (i : ℕ) (r : Option (ℕ × Job D))
      → IsClaimed id q
      → IsClaimed id (
          fired q (
            r >>= λ (delay, job). some (record q {
              jobs = q.jobs ++ job_body job ∷ [];
              timers = take i q.timers ++ drop (i + 1) q.timers;
            })))
  unfolding fired
  fired-IsClaimed id q i none c = c
  fired-IsClaimed id q i (some (delay, job)) c = c

  happen-IsClaimed :
      (handler : Job D → Option String) (id : String) (h : Happening D) (q : JobQueue D)
      → IsClaimed id q
      → IsClaimed id (happen handler h q)
  unfolding happen enqueue fire_timer
  happen-IsClaimed handler id (enqueues job) q c = c
  happen-IsClaimed handler id (delivers body) q c = deliver-IsClaimed handler id q body c
  happen-IsClaimed handler id (fires i) q c = fired-IsClaimed id q i (get_elem? q.timers i) c

  all_happen-IsClaimed :
      (handler : Job D → Option String) (id : String) (hs : List (Happening D)) (q : JobQueue D)
      → IsClaimed id q
      → IsClaimed id (all_happen handler hs q)
  unfolding all_happen
  all_happen-IsClaimed handler id [] q c = c
  all_happen-IsClaimed handler id (h ∷ hs) q c =
      all_happen-IsClaimed handler id hs (happen handler h q) (happen-IsClaimed handler id h q c)

  -- With a coordinator, a job that is not claimed and succeeds is run once: after whatever is enqueued,
  -- delivered, retried or fails in between, every delivery of a job with its identifier runs
  -- nothing and changes nothing, as long as its key has not expired.
  pub done_job_is_skipped :
      (handler : Job D → Option String) (q : JobQueue D) (job again : Job D)
      (keys : List (String × String)) (between : List (Happening D))
      → q.claims ≡ some keys
      → lookup job.id keys ≡ none
      → handler job ≡ none
      → again.id ≡ job.id
      → ((deliver handler q (job_body job)).0 ≡ job ∷ [])
        × (deliver handler
              (all_happen handler between (deliver handler q (job_body job)).1)
              (job_body again)
            ≡ ([], all_happen handler between (deliver handler q (job_body job)).1))
  done_job_is_skipped handler q job again keys between coord fresh done same =
      rw (delivered handler q job keys coord fresh done) (
        refl,
        later (
            all_happen-IsClaimed handler job.id between (marked_done q job keys)
              (put job.id "1" keys, "1", refl, lookup-put job.id "1" keys)),
      )
    where
      later : {t : JobQueue D} → IsClaimed job.id t → deliver handler t (job_body again) ≡ ([], t)
      later {t} (ks, v, at, has) =
          skipped handler t again ks v at (ap (λ k. lookup k ks) same ∙ has)
