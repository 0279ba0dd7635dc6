-- ===== src/World/Executor.antt =====
-- pkg/simulation/executor.go: one step of a tick model and of an event model.
use simulator.Common.{Option, none, some, ◌>>=◌, if◌then◌else◌}
use simulator.Common.Float.{Float64}
use simulator.Event
use simulator.Event.{Event, Popped, empty, popped}
use simulator.Runtime.{Outcome, more, nothing_left, error}
use simulator.World.{World, advance_tick, advance_time}

-- What goes wrong in a step: an event before the clock, or the model's own error.
pub data StepError (T P E : Type 0) : Type 0 where
  in_the_past : Event T P → T → StepError T P E
  model_error : E → StepError T P E

module _ {V R T P E : Type 0} where
  -- tickExecutor.step, and systemTickExecutor.step, from the model's Step or the scheduler's run.
  unfoldable pub tick_step :
      (World V R T P → World V R T P × Option E) → World V R T P → World V R T P × Outcome E
  tick_step run w =
      let (w', err) = run w in
      elim err [
        | some e ↦ (w', error e)
        | none ↦ (record w' { clock = advance_tick w'.clock }, more)
      ]

module _ (f : Float64) {V R P E : Type 0} where
  unfoldable pub handle_event :
      (World V R f.Time P → Event f.Time P → World V R f.Time P × Option E)
      → World V R f.Time P
      → Event f.Time P
      → World V R f.Time P × Outcome (StepError f.Time P E)
  handle_event handle w e =
      let (w', err) = handle (record w { clock = advance_time w.clock e.time }) e in
      elim err [ some x ↦ (w', error (model_error x)) | none ↦ (w', more) ]

  -- eventExecutor.step; `none` is a panic of the heap.
  unfoldable pub event_step :
      (World V R f.Time P → Event f.Time P → World V R f.Time P × Option E)
      → World V R f.Time P
      → Option (World V R f.Time P × Outcome (StepError f.Time P E))
  event_step handle w = Event.pop f w.events >>= λ r. elim r [
    | empty ↦ some (w, nothing_left)
    | popped e q ↦
        let w' = record w { events = q } in
        let handled = handle_event handle w' e in
        some
          (if f.lt e.time w.clock.time then (w', error (in_the_past e w.clock.time)) else handled)
  ]
