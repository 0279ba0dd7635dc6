-- ===== src/Broker/Settled.antt =====
-- internal/broker/memory.go under any schedule of its calls: each delivery comes to one end.
use simulator.Common.{
  ℕ, zero, suc, ◌+◌, ◌≡◌, refl, ap, Option, none, some, List, [], ◌∷◌, arith, get_elem?, set,
}
use Prim.Native.String.{String}
use simulator.Broker.{
  Process, Move, MessageEvent, Moved, move_process, BrokerState, Step, close_step, publish_call,
  consume_call, process_step, moved_at, process_moves, step, run,
}
use simulator.Broker.Deliveries.{
  held, all_held, all_taken, all_finished, all_lost, all_requeued, ended, all_taken-append,
  ended-append, Keeps, stuck, keeps, move_process-Keeps,
}

module _ (w : String → String → ℕ) where
  all_held-set :
      (ps : List Process) (i : ℕ) (p p' : Process)
      → get_elem? ps i ≡ some p
      → all_held w (set ps i p') + held w p ≡ all_held w ps + held w p'
  unfolding all_held
  all_held-set [] i p p' e = absurd (ground (arith, e))
  all_held-set (x ∷ ps) zero p p' e =
      let same : held w x ≡ held w p = ap (held w) (ground (arith, e)) in omega arith
  all_held-set (x ∷ ps) (suc i) p p' e = let h = all_held-set ps i p p' e in omega arith

  -- The account of a part of a run.
  pub IsSettled : BrokerState → BrokerState × List MessageEvent → Type 0
  IsSettled s (t, log) =
      all_held w s.processes + all_taken w log ≡ all_held w t.processes + ended w log

  moved_at-IsSettled :
      (s : BrokerState) (i : ℕ) (p : Process) (r : Option Moved)
      → get_elem? s.processes i ≡ some p
      → Keeps w p r
      → IsSettled s (moved_at s i r)
  unfolding moved_at IsSettled all_taken ended all_finished all_lost all_requeued
  moved_at-IsSettled s i p none here stuck = refl
  moved_at-IsSettled s i p (some r) here (keeps k) =
      let h = all_held-set s.processes i p r.process here in omega arith

  process_moves-IsSettled :
      (s : BrokerState) (i : ℕ) (move : Move) (r : Option Process)
      → get_elem? s.processes i ≡ r
      → IsSettled s (process_moves s i move r)
  unfolding process_moves IsSettled all_taken ended all_finished all_lost all_requeued
  process_moves-IsSettled s i move none here = refl
  process_moves-IsSettled s i move (some p) here =
      moved_at-IsSettled s i p (move_process p s.memory move) here
        (move_process-Keeps w p s.memory move)

  step-IsSettled : (s : BrokerState) (x : Step) → IsSettled s (step s x)
  unfolding step IsSettled all_held held all_taken ended all_finished all_lost all_requeued
  step-IsSettled s close_step = refl
  step-IsSettled s (publish_call k b) = omega arith
  step-IsSettled s (consume_call k) = omega arith
  step-IsSettled s (process_step i move) =
      process_moves-IsSettled s i move (get_elem? s.processes i) refl

  -- Under every schedule and for every message: the deliveries under way, together with those that are
  -- received, are those under way then, together with those that came to an end, each in one way:
  -- settled for good, lost, or requeued by a Nack.
  pub run-IsSettled : (s : BrokerState) (xs : List Step) → IsSettled s (run s xs)
  unfolding run IsSettled all_taken ended all_finished all_lost all_requeued
  run-IsSettled s [] = refl
  run-IsSettled s (x ∷ xs) =
      let first = step-IsSettled s x in
      let rest = run-IsSettled (step s x).0 xs in
      let a = all_taken-append w (step s x).1 (run (step s x).0 xs).1 in
      let b = ended-append w (step s x).1 (run (step s x).0 xs).1 in omega arith
