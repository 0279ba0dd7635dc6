-- ===== src/Runtime.antt =====
-- pkg/simulation/runtime.go and state.go: the lifecycle of a simulation. Each function is what one
-- goroutine does while it holds the lock, or between two such sections; a goroutine that executes a
-- run, and the watcher beside it, are a `Loop`. What the executor and the limit do is a parameter.
mod Tests
pub mod Lifecycle
pub mod Bounded
use simulator.Common.{
  ℕ, zero, suc, ◌+◌, ◌-◌, ◌*◌, ◌/◌, ◌%◌, ◌^◌, ◌≤◌, ◌<◌, min, ◌≡◌, refl, sym, ap, subst, ◌∙◌, ◌≢◌,
  ◌↔◌, ◌⊎◌, inl, inr, Bool, true, false, not, ◌&&◌, ◌||◌, Option, none, some, List, [], ◌∷◌, ◌++◌,
  map, Mem, Perm, arith, ℕ_discrete, ◌>>=◌, Returns, returns, ltb, leb, ◌==◌, if◌then◌else◌,
  Bool-cases, Option-cases, length, get_elem?, set, get_or, take, drop, replicate, store,
  length-append, length-set, length-take, length-drop, length-replicate, take-append-drop,
  drop-drop, get_elem?-get_or, get_elem?-lt, get_elem?-append, get_elem?-append_end, get_or-set,
  get_or-append, get_or-take,
}
use Prim.Native.String.{String}
use simulator.Entity.{u64}

pub data State : Type 0 where
  idle running paused stopped completed failed : State

-- State.String; the default of its switch is for numbers that are no state.
unfoldable pub state_string : State → String
state_string idle = "idle"
state_string running = "running"
state_string paused = "paused"
state_string stopped = "stopped"
state_string completed = "completed"
state_string failed = "failed"

pub data LifecycleError : Type 0 where
  already_running not_running : LifecycleError

abbrev pub is_running : State → Bool
is_running running = true
is_running _ = false

abbrev pub is_paused : State → Bool
is_paused paused = true
is_paused _ = false

-- What `exec.step` reports: more to do, nothing left, an error, or a panic of the model.
pub data Outcome (E : Type 0) : Type 0 where
  more nothing_left : Outcome E
  error : E → Outcome E
  panicked : E → Outcome E

-- What Step answers: ErrAlreadyRunning, its error, or the panic of the model.
pub data StepReply (E : Type 0) : Type 0 where
  refused : StepReply E
  returned : Option E → StepReply E
  panics : E → StepReply E

-- Where a call of `run` stands: before its first section, which stores the cancel of its context,
-- at the head of its loop, before the limit, before the step, after it broke out with its error, or
-- past its deferred end.
pub data Place (E : Type 0) : Type 0 where
  entry head check stepping : Place E
  broken : Option E → Place E
  ended : Place E

pub record Loop (E : Type 0) : Type 0 where
  pub place : Place E
  -- runCtx.Err() is not nil
  pub cancelled : Bool
  -- the watcher has not run yet
  pub watching : Bool

pub record Simulation (W E : Type 0) : Type 0 where
  pub state : State
  pub err : Option E
  pub steps : ℕ
  pub world : W
  -- `s.cancel`: the loop whose context Stop cancels
  pub cancel : Option ℕ
  -- every run so far
  pub loops : List (Loop E)

module _ {E : Type 0} where
  abbrev pub cancel_loop : Loop E → Loop E
  cancel_loop l = record l { cancelled = true }

  -- `f` on the loop with number `i`.
  unfoldable pub update_loop : ℕ → (Loop E → Loop E) → List (Loop E) → List (Loop E)
  update_loop i f [] = []
  update_loop zero f (l ∷ ls) = f l ∷ ls
  update_loop (suc i) f (l ∷ ls) = l ∷ update_loop i f ls

  abbrev pub cancel_current : Option ℕ → List (Loop E) → List (Loop E)
  cancel_current none ls = ls
  cancel_current (some i) ls = update_loop i cancel_loop ls

  -- The end of a run also cancels its context.
  abbrev pub ends : Place E → Place E → Bool
  ends (broken e) ended = true
  ends _ _ = false

module _ {W E : Type 0} where
  unfoldable pub new_simulation : W → Simulation W E
  new_simulation w = record {
    state = idle;
    err = none;
    steps = 0;
    world = w;
    cancel = none;
    loops = [];
  }

  unfoldable pub pause : Simulation W E → Option LifecycleError × Simulation W E
  pause s =
      if is_running s.state then (none, record s { state = paused }) else (some not_running, s)

  unfoldable pub resume : Simulation W E → Option LifecycleError × Simulation W E
  resume s =
      if is_paused s.state then (none, record s { state = running }) else (some not_running, s)

  unfoldable pub stop : Simulation W E → Option LifecycleError × Simulation W E
  stop s =
      if is_running s.state || is_paused s.state
      then (none, record s { state = stopped; loops = cancel_current s.cancel s.loops })
      else (some not_running, s)

  -- begin; the call of run that follows it is a new loop.
  unfoldable pub begin : Simulation W E → Option LifecycleError × Simulation W E
  begin s = if is_running s.state then (some already_running, s) else (
    none,
    record s {
      state = running;
      err = none;
      steps = 0;
      loops = s.loops ++ (record { place = entry; cancelled = false; watching = true }) ∷ [];
    },
  )

  -- The watcher, once the context of its run is done.
  unfoldable pub watch : Simulation W E → Simulation W E
  watch s = if is_running s.state || is_paused s.state then record s { state = stopped } else s

  -- What follows the step of Step: a panic goes on to the caller and changes nothing more.
  unfoldable pub after_step : Outcome E → Simulation W E → StepReply E × Simulation W E
  after_step (error e) s = (returned (some e), record s { state = failed; err = some e })
  after_step (panicked e) s = (panics e, s)
  after_step _ s = (returned none, record s { steps = u64 (s.steps + 1) })

  -- Step, one unit of work outside of a run. The lock is free between its check and its result: what
  -- others do to the simulation there is `working`.
  unfoldable pub single_step :
      (W → W × Outcome E)
      → (Simulation W E → Simulation W E)
      → Simulation W E
      → StepReply E × Simulation W E
  single_step exec working s =
      let t = working s in
      let (w, o) = exec t.world in
      if is_running s.state then (refused, s) else after_step o (record t { world = w })

  -- The head of the loop: wait while paused, leave unless running.
  unfoldable pub at_head : Simulation W E → Place E
  at_head s = if is_paused s.state then head else if is_running s.state then check else broken none

  -- `if s.state == StateRunning { s.state = StateCompleted }`
  unfoldable pub complete : Simulation W E → Simulation W E
  complete s = if is_running s.state then record s { state = completed } else s

  -- A nil limit never holds.
  abbrev pub limit_holds : Option (ℕ → W → Bool) → Simulation W E → Bool
  limit_holds none s = false
  limit_holds (some limit) s = limit s.steps s.world

  unfoldable pub at_check : Option (ℕ → W → Bool) → Simulation W E → Place E × Simulation W E
  at_check limit s = if limit_holds limit s then (broken none, complete s) else (stepping, s)

  -- An error after cancellation is a stop; any other fails the simulation.
  unfoldable pub at_error : Bool → E → Simulation W E → Place E × Simulation W E
  at_error cancelled e s =
      if cancelled
      then (broken none, watch s)
      else (broken (some e), record s { state = failed; err = some e })

  unfoldable pub at_step : (W → W × Outcome E) → Bool → Simulation W E → Place E × Simulation W E
  at_step exec cancelled s =
      let (w, o) = exec s.world in
      let t = record s { world = w } in
      elim o [
        | more ↦ (head, record t { steps = u64 (s.steps + 1) })
        | nothing_left ↦ (broken none, complete t)
        | error e ↦ at_error cancelled e t
        | panicked e ↦ (broken (some e), t)
      ]

  -- The deferred end of run.
  unfoldable pub finalize : Option E → Simulation W E → Simulation W E
  finalize none s = record (complete s) { cancel = none }
  finalize (some e) s = record s { state = failed; err = some e; cancel = none }

  -- One move of loop `i`, from its place and the done-ness of its context. At its entry it makes its
  -- context the one that Stop cancels.
  unfoldable pub advance :
      (W → W × Outcome E)
      → Option (ℕ → W → Bool)
      → ℕ
      → Loop E
      → Simulation W E
      → Place E × Simulation W E
  advance exec limit i l s = elim l.place [
    | entry ↦ (head, record s { cancel = some i })
    | head ↦ (at_head s, s)
    | check ↦ at_check limit s
    | stepping ↦ at_step exec l.cancelled s
    | broken e ↦ (ended, finalize e s)
    | ended ↦ (ended, s)
  ]

  unfoldable pub advance_loop :
      (W → W × Outcome E) → Option (ℕ → W → Bool) → ℕ → Simulation W E → Option (Simulation W E)
  advance_loop exec limit i s = do
    l ← get_elem? s.loops i
    let (p, t) = advance exec limit i l s
    let moved = record l { place = p; cancelled = l.cancelled || ends l.place p }
    some (record t { loops = update_loop i (λ _. moved) t.loops })

abbrev pub error_of : {E : Type 0} → Place E → Option E
error_of (broken e) = e
error_of _ = none

abbrev pub has_ended : {E : Type 0} → Place E → Bool
has_ended ended = true
has_ended _ = false

module _ {W E : Type 0} (exec : W → W × Outcome E) where
  -- The call number `i` of `run` when no other goroutine acts and its context is not cancelled: its
  -- error and the simulation it leaves. On fuel; a loop that waits while paused uses it up.
  unfoldable pub run_loop :
      Option (ℕ → W → Bool) → ℕ → ℕ → Place E → Simulation W E → Option (Option E × Simulation W E)
  run_loop limit i zero p s = none
  run_loop limit i (suc fuel) p s =
      let l : Loop E = record { place = p; cancelled = false; watching = true } in
      let (p', t) = advance exec limit i l s in
      elim (has_ended p') [ true ↦ some (error_of p, t) | false ↦ run_loop limit i fuel p' t ]

  unfoldable pub run_limited :
      Option (ℕ → W → Bool) → ℕ → Simulation W E → Option (StepReply E × Simulation W E)
  run_limited limit fuel s =
      let (refusal, t) = begin s in
      elim refusal [
        | some _ ↦ some (refused, t)
        | none ↦ run_loop limit (length s.loops) fuel entry t >>= λ (e, u). some (returned e, u)
      ]

  -- RunN: one move enters, each round takes three moves of the loop, and three more end it.
  unfoldable pub run_n : ℕ → Simulation W E → Option (StepReply E × Simulation W E)
  run_n n s = run_limited (some (λ steps w. leb n steps)) (3 * n + 4) s
