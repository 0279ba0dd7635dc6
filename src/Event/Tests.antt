-- ===== src/Event/Tests.antt =====
-- The theorems about the event queue at concrete queues, with natural numbers for the times.
use simulator.Common.{
  Option, if◌then◌else◌, ◌-◌, true, ℕ, ◌+◌, ◌≡◌, refl, none, some, List, [], ◌∷◌, Perm, arith,
  Returns, ltb, ◌==◌,
}
use mathlib.Core.List.{Nodup-cons, Nodup-nil, not-mem-nil, forall_mem-cons}
use mathlib.Core.List.Perm
use Prim.Native.Char.{IsScalar}
use Prim.Derive.{prop→set}
use text.Mathlib.TextEquality.{IsScalar-prop}
use native.Mathlib.Bridge.{le_prop}
use simulator.Common.Int.{pos}
use simulator.Common.Float.{Float64, IsOrdered}
use simulator.Event.{Event, EventQueue, popped, new_event_queue, push, pop, peek_all}
use simulator.Event.Queue.{IsQueue, IsPushed, IsRemoved, push_correct, pop_correct}
use simulator.Event.Snapshot.{
  with_payload, code_events, snapshot_events, restore_events, restore_events-snapshot,
}
use simulator.Event.Firing.{IsSorted, Fires, peek_all-Fires, same_events_fire_alike}

abbrev pub whole : Float64
whole = record { Time = ℕ; zero_time = 0; lt = ltb; eq = λ x y. x == y; add = λ x y. x + y }

pub whole-IsOrdered : IsOrdered whole
whole-IsOrdered = record {
  lt_asym = λ x y h. ground arith;
  lt_chain = λ x y z h k. ground arith;
  eq_iff = λ x y. ground arith;
}

abbrev arrival : Event ℕ ℕ
arrival = record {
  id = 1;
  kind = "arrival";
  time = 4;
  priority = pos 0;
  seq = 1;
  source = 0;
  target = 0;
  payload = some 7;
}

abbrev pub one_event : EventQueue ℕ ℕ
one_event = record { h = arrival ∷ []; next = 1; seq = 1 }

pub one_event-IsQueue : IsQueue whole one_event
one_event-IsQueue = record {
  heap = λ c p l. absurd (omega arith);
  distinct = Nodup-cons.1 (not-mem-nil, Nodup-nil);
  bounded = (forall_mem-cons (λ s. le_prop)).1 (omega arith, λ s m. absurd (not-mem-nil m));
  word = omega arith;
}

scalars_are_a_set : (n : ℕ) → IsSet (IsScalar n)
scalars_are_a_set n = prop→set (IsScalar-prop n)

events_are_a_set : IsSet (Event ℕ ℕ)
events_are_a_set = hlevel (scalars_are_a_set)

push_correct_example :
    Returns (IsPushed whole whole-IsOrdered one_event arrival) (push whole one_event arrival)
push_correct_example =
    push_correct whole whole-IsOrdered one_event arrival one_event-IsQueue (omega arith)

pop_correct_example :
    (e : Event ℕ ℕ) × (q : EventQueue ℕ ℕ) × (pop whole one_event ≡ some (popped e q))
    × IsRemoved whole whole-IsOrdered one_event e q
pop_correct_example = pop_correct whole whole-IsOrdered one_event one_event-IsQueue (omega arith)

peek_all-Fires_example :
    Fires whole whole-IsOrdered one_event (peek_all whole one_event)
    × IsSorted whole whole-IsOrdered (peek_all whole one_event)
    × Perm (peek_all whole one_event) one_event.h
peek_all-Fires_example =
    peek_all-Fires whole whole-IsOrdered events_are_a_set one_event one_event-IsQueue

same_events_fire_alike_example :
    (es : List (Event ℕ ℕ)) × Fires whole whole-IsOrdered one_event es
    × Fires whole whole-IsOrdered one_event es
same_events_fire_alike_example =
    same_events_fire_alike whole whole-IsOrdered events_are_a_set one_event one_event
      one_event-IsQueue one_event-IsQueue (Perm.refl (arrival ∷ []))

abbrev code_payload : ℕ → Option ℕ
code_payload p = some (p + 1)

abbrev decode_payload : ℕ → Option ℕ
decode_payload d = if ltb 0 d then some (d - 1) else none

restore_events-snapshot_example :
    restore_events whole decode_payload
      (record { events = with_payload arrival (some 8) ∷ []; next = 1; seq = 1 })
      new_event_queue
    ≡ some (true, one_event)
unfolding snapshot_events code_events
restore_events-snapshot_example =
    restore_events-snapshot code_payload decode_payload (λ p d e. ground arith) whole one_event
      new_event_queue (record { events = with_payload arrival (some 8) ∷ []; next = 1; seq = 1 })
      one_event-IsQueue refl
