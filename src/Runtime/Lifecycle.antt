-- ===== src/Runtime/Lifecycle.antt =====
-- Calls, loops and watchers in any interleaving.
use simulator.Common.{
  ℕ, ◌+◌, ◌≡◌, refl, inl, inr, Bool, true, false, Option, none, some, List, [], ◌∷◌, arith, ◌>>=◌,
  Option-cases, get_elem?, set,
}
use simulator.Entity.{u64}
use simulator.Runtime.{
  State, failed, Outcome, more, nothing_left, error, panicked, Place, entry, head, check, stepping,
  broken, ended, Loop, Simulation, is_running, new_simulation, pause, resume, stop, begin, watch,
  after_step, complete, at_check, at_error, at_step, finalize, advance, advance_loop, update_loop,
  cancel_loop,
}

abbrev is_failed : State → Bool
is_failed failed = true
is_failed _ = false

abbrev is_some {ℓ} : {A : Type ℓ} → Option A → Bool
is_some none = false
is_some (some a) = true

abbrev is_entry : {E : Type 0} → Place E → Bool
is_entry entry = true
is_entry _ = false

-- A call of Step past its check: before its work, before its result, and past that.
pub data Single (E : Type 0) : Type 0 where
  to_execute : Single E
  to_record : Outcome E → Single E
  recorded : Single E

-- The simulation with the calls of Step that are under way.
pub record Shared (W E : Type 0) : Type 0 where
  pub sim : Simulation W E
  pub singles : List (Single E)

abbrev pub alone : {W E : Type 0} → Simulation W E → Shared W E
alone s = record { sim = s; singles = [] }

module _ {W E : Type 0} (exec : W → W × Outcome E) (limit : Option (ℕ → W → Bool)) where
  -- One section of a call, of a run or of a watcher. A run's watcher starts after its entry.
  pub data Section (s : Simulation W E) : Simulation W E → Type 0 where
    pauses : Section s (pause s).1
    resumes : Section s (resume s).1
    stops : Section s (stop s).1
    begins : Section s (begin s).1
    -- the caller cancels the context of run `i`
    cancels : (i : ℕ) → Section s (record s { loops = update_loop i cancel_loop s.loops })
    watches :
        (i : ℕ) {l : Loop E}
        → get_elem? s.loops i ≡ some l
        → is_entry l.place ≡ false
        → l.cancelled ≡ true
        → l.watching ≡ true
        → Section s (record (watch s) {
          loops = update_loop i (λ k. record k { watching = false }) s.loops;
        })
    advances : (i : ℕ) {t : Simulation W E} → advance_loop exec limit i s ≡ some t → Section s t

  -- The same, and the sections of Step: its check, its work without the lock, and its result.
  pub data Step (s : Shared W E) : Shared W E → Type 0 where
    acts : {t : Simulation W E} → Section s.sim t → Step s (record s { sim = t })
    checks_step :
        is_running s.sim.state ≡ false → Step s (record s { singles = to_execute ∷ s.singles })
    executes_step :
        (i : ℕ)
        → get_elem? s.singles i ≡ some to_execute
        → Step s (record {
          sim = record s.sim { world = (exec s.sim.world).0 };
          singles = set s.singles i (to_record (exec s.sim.world).1);
        })
    records_step :
        (i : ℕ) (o : Outcome E)
        → get_elem? s.singles i ≡ some (to_record o)
        → Step s (record { sim = (after_step o s.sim).1; singles = set s.singles i recorded })

  pub data Reach (s : Shared W E) : Shared W E → Type 0 where
    here : Reach s s
    next : {t u : Shared W E} → Reach s t → Step t u → Reach s u

module _ {W E : Type 0} where
  -- Err reports an error exactly when the simulation has failed.
  abbrev pub IsConsistent : Simulation W E → Type 0
  IsConsistent s = is_failed s.state ≡ is_some s.err

  complete-IsConsistent : (s : Simulation W E) → IsConsistent s → IsConsistent (complete s)
  unfolding complete
  complete-IsConsistent s c = ground arith

  watch-IsConsistent : (s : Simulation W E) → IsConsistent s → IsConsistent (watch s)
  unfolding watch
  watch-IsConsistent s c = ground arith

  finalize-IsConsistent :
      (e : Option E) (s : Simulation W E) → IsConsistent s → IsConsistent (finalize e s)
  unfolding finalize
  finalize-IsConsistent none s c = complete-IsConsistent s c
  finalize-IsConsistent (some e) s c = refl

  calls-IsConsistent :
      (s : Simulation W E)
      → IsConsistent s
      → IsConsistent (pause s).1
        × IsConsistent (resume s).1
        × IsConsistent (stop s).1
        × IsConsistent (begin s).1
  unfolding pause resume stop begin
  calls-IsConsistent s c = (ground arith, ground arith, ground arith, ground arith)

  after_step-IsConsistent :
      (o : Outcome E) (s : Simulation W E) → IsConsistent s → IsConsistent (after_step o s).1
  unfolding after_step
  after_step-IsConsistent (error e) s c = refl
  after_step-IsConsistent o s c = c

  at_error-IsConsistent :
      (cancelled : Bool) (e : E) (s : Simulation W E)
      → IsConsistent s
      → IsConsistent (at_error cancelled e s).1
  unfolding at_error
  at_error-IsConsistent true e s c = watch-IsConsistent s c
  at_error-IsConsistent false e s c = refl

  module _ (exec : W → W × Outcome E) (limit : Option (ℕ → W → Bool)) where
    at_step-IsConsistent :
        (cancelled : Bool) (s : Simulation W E)
        → IsConsistent s
        → IsConsistent (at_step exec cancelled s).1
    unfolding at_step
    at_step-IsConsistent cancelled s c = outcome (exec s.world).1
      where
        outcome :
            (o : Outcome E)
            → IsConsistent
                (let x : Place E × Simulation W E = elim o [
                  | more ↦ (head, record s { world = (exec s.world).0; steps = u64 (s.steps + 1) })
                  | nothing_left ↦ (broken none, complete (record s { world = (exec s.world).0 }))
                  | error e ↦ at_error cancelled e (record s { world = (exec s.world).0 })
                  | panicked e ↦ (broken (some e), record s { world = (exec s.world).0 })
                ] in
                  x).1
        outcome more = c
        outcome nothing_left = complete-IsConsistent (record s { world = (exec s.world).0 }) c
        outcome (error e) =
            at_error-IsConsistent cancelled e (record s { world = (exec s.world).0 }) c
        outcome (panicked e) = c

    advance-IsConsistent :
        (i : ℕ) (p : Place E) (l : Loop E) (s : Simulation W E)
        → IsConsistent s
        → IsConsistent (advance exec limit i (record l { place = p }) s).1
    unfolding advance at_check
    advance-IsConsistent i entry l s c = c
    advance-IsConsistent i head l s c = c
    advance-IsConsistent i check l s c = ground (arith, complete-IsConsistent s c)
    advance-IsConsistent i stepping l s c = at_step-IsConsistent l.cancelled s c
    advance-IsConsistent i (broken e) l s c = finalize-IsConsistent e s c
    advance-IsConsistent i ended l s c = c

    advance_loop-IsConsistent :
        (i : ℕ) (s t : Simulation W E)
        → advance_loop exec limit i s ≡ some t
        → IsConsistent s
        → IsConsistent t
    unfolding advance_loop
    advance_loop-IsConsistent i s t e c = elim (Option-cases (get_elem? s.loops i)) [
      | inl missing ↦ cc (rw (missing, ◌>>=◌) at e)
      | inr (l, at) ↦
          let kept = advance-IsConsistent i l.place l s c in
          ground (arith, rw (at, ◌>>=◌) at e, kept)
    ]

    Section-IsConsistent :
        {s t : Simulation W E} → Section exec limit s t → IsConsistent s → IsConsistent t
    Section-IsConsistent {s} pauses c = (calls-IsConsistent s c).0
    Section-IsConsistent {s} resumes c = (calls-IsConsistent s c).1
    Section-IsConsistent {s} stops c = (calls-IsConsistent s c).2
    Section-IsConsistent {s} begins c = (calls-IsConsistent s c).3
    Section-IsConsistent (cancels i) c = c
    Section-IsConsistent {s} (watches i at entered done due) c = watch-IsConsistent s c
    Section-IsConsistent {s} {t} (advances i e) c = advance_loop-IsConsistent i s t e c

    Step-IsConsistent :
        {s t : Shared W E} → Step exec limit s t → IsConsistent s.sim → IsConsistent t.sim
    Step-IsConsistent (acts a) c = Section-IsConsistent a c
    Step-IsConsistent (checks_step idle) c = c
    Step-IsConsistent (executes_step i at) c = c
    Step-IsConsistent {s} (records_step i o at) c = after_step-IsConsistent o s.sim c

    -- However the sections of calls, runs, watchers and of Step interleave from a new simulation on: Err
    -- holds an error exactly when the state is failed.
    pub Reach-IsConsistent :
        (w : W) {s : Shared W E}
        → Reach exec limit (alone (new_simulation w)) s
        → IsConsistent s.sim
    unfolding new_simulation
    Reach-IsConsistent w here = refl
    Reach-IsConsistent w (next r st) = Step-IsConsistent st (Reach-IsConsistent w r)
