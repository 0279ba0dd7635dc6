-- ===== src/World/Past.antt =====
-- Events do not fire in the past: the clock of an event model never goes back.
use simulator.Common.{
  ◌<◌, ◌≡◌, refl, sym, ap, subst, ◌∙◌, true, false, Option, none, some, ◌∷◌, Mem, Perm, arith,
  Returns, returns, length,
}
use mathlib.Core.List.{mem-cons_self}
use mathlib.Core.List.Perm
use simulator.Common.Float.{Float64, IsOrdered}
use simulator.Event
use simulator.Event.{Event, EventQueue, Popped, empty, popped}
use simulator.Event.Queue.{IsQueue, pop_correct}
use simulator.Runtime.{Outcome, more, error}
use simulator.World.{World, advance_time}
use simulator.World.Executor.{StepError, model_error, handle_event, event_step}

module _ (f : Float64) {V R P : Type 0} where
  -- The queue is valid, and none of its events lies before the clock.
  pub record IsTimely (w : World V R f.Time P) : Type 0 where
    pub valid : IsQueue f w.events
    pub not_past : (e : Event f.Time P) → Mem e w.events.h → f.lt e.time w.clock.time ≡ false

  -- The world that a handler is given: without the event, at the time of the event.
  abbrev pub at_event :
      World V R f.Time P → Event f.Time P → EventQueue f.Time P → World V R f.Time P
  at_event w e rest = record w { events = rest; clock = record w.clock { time = e.time } }

  -- The answer of a step to what the handler answers.
  abbrev pub step_answer :
      {E : Type 0}
      → World V R f.Time P × Option E
      → World V R f.Time P × Outcome (StepError f.Time P E)
  step_answer (w, none) = (w, more)
  step_answer (w, some e) = (w, error (model_error e))

  -- What an event step promises where events are queued.
  pub record IsFired {E : Type 0}
      (handle : World V R f.Time P → Event f.Time P → World V R f.Time P × Option E)
      (w : World V R f.Time P) (r : World V R f.Time P × Outcome (StepError f.Time P E))
      : Type 0 where
    pub event : Event f.Time P
    pub rest : EventQueue f.Time P
    pub queued : Perm (event ∷ rest.h) w.events.h
    pub first : (x : Event f.Time P) → Mem x rest.h → Event.event_less f event x ≡ true
    pub forward : f.lt event.time w.clock.time ≡ false
    pub given : IsTimely (at_event w event rest)
    pub result : r ≡ step_answer (handle (at_event w event rest) event)
    pub timely_after : IsTimely r.0

module _ (f : Float64) {V R P E : Type 0} where
  handle_event-eq :
      (handle : World V R f.Time P → Event f.Time P → World V R f.Time P × Option E)
      (w : World V R f.Time P) (e : Event f.Time P) (q : EventQueue f.Time P)
      → handle_event f handle (record w { events = q }) e
        ≡ step_answer f (handle (at_event f w e q) e)
  unfolding handle_event advance_time
  handle_event-eq handle w e q = answers (handle (at_event f w e q) e)
    where
      answers :
          (x : World V R f.Time P × Option E)
          → (let r : World V R f.Time P × Outcome (StepError f.Time P E) = elim x.1 [
            | some y ↦ (x.0, error (model_error y))
            | none ↦ (x.0, more)
          ] in
              r)
            ≡ step_answer f x
      answers (w', none) = refl
      answers (w', some y) = refl

module _ (f : Float64) {P : Type 0} (o : IsOrdered f) where
  not_before : (x y : Event f.Time P) → Event.event_less f x y ≡ true → f.lt y.time x.time ≡ false
  unfolding Event.event_less
  not_before x y h = ground (arith, o.lt_asym x.time y.time, o.eq_iff x.time y.time)

module _ (f : Float64) {V R P : Type 0} (o : IsOrdered f) where
  -- With no event before the clock, and a handler that leaves no event before the clock of a world that
  -- has none: a step takes the first event out of the queue and nothing else, its time is not
  -- before the clock, and the handler runs once, on the world without the event and with the
  -- clock at the event's time. The step answers the error of the handler if there is one, never one
  -- of a past event, and again leaves a world with no event before its clock.
  pub event_step_forward :
      {E : Type 0} (handle : World V R f.Time P → Event f.Time P → World V R f.Time P × Option E)
      (w : World V R f.Time P)
      → IsTimely f w
      → 0 < length w.events.h
      → ((x : World V R f.Time P) (e : Event f.Time P) → IsTimely f x → IsTimely f (handle x e).0)
      → Returns (IsFired f handle w) (event_step f handle w)
  unfolding event_step advance_time
  event_step_forward {E} handle w t nonempty keeps =
      let (e, q, eq, r) = pop_correct f o w.events t.valid nonempty in
      let queued : Mem e w.events.h = (Perm.mem_iff r.same).0 mem-cons_self in
      let forward = t.not_past e queued in
      let given : IsTimely f (at_event f w e q) = record {
        valid = r.valid;
        not_past = λ x m. not_before f o e x (r.first x m);
      } in
      let answer = handled e q in
      rw (eq, forward)
        (returns (record {
          event = e;
          rest = q;
          queued = r.same;
          first = r.first;
          forward = forward;
          given = given;
          result = answer;
          timely_after =
              subst (IsTimely f)
                (sym (ap (λ x. x.0) answer ∙ world_of (handle (at_event f w e q) e)))
                (keeps (at_event f w e q) e given);
        }))
    where
      handled :
          (e : Event f.Time P) (q : EventQueue f.Time P)
          → handle_event f handle (record w { events = q }) e
            ≡ step_answer f (handle (at_event f w e q) e)
      handled e q = handle_event-eq f handle w e q

      world_of : (x : World V R f.Time P × Option E) → (step_answer f x).0 ≡ x.0
      world_of (w', none) = refl
      world_of (w', some y) = refl
