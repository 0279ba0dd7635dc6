-- ===== src/Broker/Schedules.antt =====
-- internal/broker/memory.go under any schedule of its calls: the queues are first in, first out, and
-- bounded.
use simulator.Common.{
  ℕ, ◌≤◌, ◌≡◌, refl, sym, ap, ◌∙◌, Bool, true, false, Option, none, some, List, [], ◌∷◌, ◌++◌,
  arith, ltb, if◌then◌else◌, length, get_elem?,
}
use Prim.Native.String.{String}
use mathlib.Core.List.{append_assoc}
use simulator.Broker.{
  BrokerError, err_closed, context_done, Memory, capacity, queue_of, get_queue, close_broker,
  Caller, client, nack_call, Process, publishing, checked, sending, starting, consuming, handling,
  settled, returned, Move, advance, send, receive, give_up, see_closed, call_ack, call_nack,
  return_nil, return_error, MessageEvent, finished, lost, Moved, publish_failed, sent_to,
  publish_select, consume_select, handler_move, settled_move, move_process, BrokerState, Step,
  close_step, publish_call, consume_call, process_step, moved_at, process_moves, step, run,
}
use simulator.Broker.Fifo.{
  content, sent_bodies, taken_bodies, sent_bodies-append, taken_bodies-append, Carries,
  content-close_broker, Ready, not_ready, ready, quiet, same_memory, get_queue-Carries,
  sent_to-Carries, received-Carries,
}

module _ (n : String) (m : Memory) (within : length (content n m) ≤ capacity) where
  publish_failed-Carries :
      (c : Caller) (k b : String) (e : BrokerError)
      → Carries n m (publish_failed c k b e m).memory (publish_failed c k b e m).events
  unfolding publish_failed sent_bodies taken_bodies
  publish_failed-Carries client k b e = same_memory n m within [] refl refl
  publish_failed-Carries nack_call k b e = same_memory n m within (lost k b ∷ []) refl refl

  see_closed-Carries :
      (c : Caller) (k b : String) → Ready (Carries n m) (publish_select c k b m see_closed)
  unfolding publish_select
  see_closed-Carries c k b = go c (queue_of k m).done
    where
      go :
          (c : Caller) (d : Bool)
          → Ready (Carries n m) (if d then some (publish_failed c k b err_closed m) else none)
      go c true = ready (publish_failed-Carries c k b err_closed)
      go c false = not_ready

  send-Carries : (c : Caller) (k b : String) → Ready (Carries n m) (publish_select c k b m send)
  unfolding publish_select sent_to
  send-Carries c k b = go (ltb (length (queue_of k m).ch) capacity) refl
    where
      go :
          (r : Bool)
          → ltb (length (queue_of k m).ch) capacity ≡ r
          → Ready (Carries n m) (if r then some (sent_to c k b (queue_of k m) m) else none)
      go true e = ready (sent_to-Carries n m within c k b (ground arith))
      go false e = not_ready

  publish_select-Carries :
      (c : Caller) (k b : String) (move : Move) → Ready (Carries n m) (publish_select c k b m move)
  unfolding publish_select
  publish_select-Carries client k b give_up = ready (publish_failed-Carries client k b context_done)
  publish_select-Carries nack_call k b give_up = not_ready
  publish_select-Carries c k b send = send-Carries c k b
  publish_select-Carries c k b see_closed = see_closed-Carries c k b
  publish_select-Carries _ _ _ _ = not_ready

  same :
      (p : Process) → Ready (Carries n m) (some (record { process = p; memory = m; events = [] }))
  unfolding sent_bodies taken_bodies
  same p = ready (same_memory n m within [] refl refl)

  ended :
      (p : Process) (k b : String)
      → Ready (Carries n m) (some (record { process = p; memory = m; events = finished k b ∷ [] }))
  unfolding sent_bodies taken_bodies
  ended p k b = ready (same_memory n m within (finished k b ∷ []) refl refl)

  dropped :
      (p : Process) (k b : String)
      → Ready (Carries n m) (some (record { process = p; memory = m; events = lost k b ∷ [] }))
  unfolding sent_bodies taken_bodies
  dropped p k b = ready (same_memory n m within (lost k b ∷ []) refl refl)

  got_queue :
      (p : Process) (k : String)
      → Ready (Carries n m) (some (record { process = p; memory = get_queue k m; events = [] }))
  got_queue p k = ready (get_queue-Carries n m within k)

  consume_select-Carries :
      (k : String) (move : Move) → Ready (Carries n m) (consume_select k m move)
  unfolding consume_select
  consume_select-Carries k receive = received-Carries n m within k (queue_of k m).ch refl
  consume_select-Carries k give_up = same (returned (some context_done))
  consume_select-Carries k see_closed = go (queue_of k m).done
    where
      go :
          (d : Bool)
          → Ready (Carries n m) (
              if d
              then some (record { process = returned (some err_closed); memory = m; events = [] })
              else none)
      go true = same (returned (some err_closed))
      go false = not_ready
  consume_select-Carries _ _ = not_ready

  handler_move-Carries :
      (k b : String) (move : Move) → Ready (Carries n m) (handler_move k b m move)
  unfolding handler_move
  handler_move-Carries k b call_ack = ended (settled k) k b
  handler_move-Carries k b (call_nack false) = ended (settled k) k b
  handler_move-Carries k b (call_nack true) = same (publishing nack_call k b)
  handler_move-Carries k b return_nil = dropped (consuming k) k b
  handler_move-Carries k b return_error = ended (consuming k) k b
  handler_move-Carries _ _ _ = not_ready

  settled_move-Carries : (k : String) (move : Move) → Ready (Carries n m) (settled_move k m move)
  unfolding settled_move
  settled_move-Carries k call_ack = same (settled k)
  settled_move-Carries k (call_nack _) = same (settled k)
  settled_move-Carries k return_nil = same (consuming k)
  settled_move-Carries k return_error = same (consuming k)
  settled_move-Carries _ _ = not_ready

  checked-Carries :
      (c : Caller) (k b : String) → Ready (Carries n m) (move_process (publishing c k b) m advance)
  unfolding move_process
  checked-Carries c k b = go m.closed
    where
      go :
          (d : Bool)
          → Ready (Carries n m) (
              if d
              then some (publish_failed c k b err_closed m)
              else some (record { process = checked c k b; memory = m; events = [] }))
      go true = ready (publish_failed-Carries c k b err_closed)
      go false = same (checked c k b)

  move_process-Carries : (p : Process) (move : Move) → Ready (Carries n m) (move_process p m move)
  unfolding move_process
  move_process-Carries (publishing c k b) advance = checked-Carries c k b
  move_process-Carries (checked c k b) advance = got_queue (sending c k b) k
  move_process-Carries (sending c k b) move = publish_select-Carries c k b move
  move_process-Carries (starting k) advance = got_queue (consuming k) k
  move_process-Carries (consuming k) move = consume_select-Carries k move
  move_process-Carries (handling k b) move = handler_move-Carries k b move
  move_process-Carries (settled k) move = settled_move-Carries k move
  move_process-Carries _ _ = not_ready

module _ (n : String) where
  moved_at-Carries :
      (s : BrokerState) (i : ℕ) (r : Option Moved)
      → length (content n s.memory) ≤ capacity
      → Ready (Carries n s.memory) r
      → Carries n s.memory (moved_at s i r).0.memory (moved_at s i r).1
  unfolding moved_at sent_bodies taken_bodies
  moved_at-Carries s i none within not_ready = same_memory n s.memory within [] refl refl
  moved_at-Carries s i (some r) within (ready c) = c

  process_moves-Carries :
      (s : BrokerState) (i : ℕ) (move : Move) (p : Option Process)
      → length (content n s.memory) ≤ capacity
      → Carries n s.memory (process_moves s i move p).0.memory (process_moves s i move p).1
  unfolding process_moves sent_bodies taken_bodies
  process_moves-Carries s i move none within = same_memory n s.memory within [] refl refl
  process_moves-Carries s i move (some p) within =
      moved_at-Carries s i (move_process p s.memory move) within
        (move_process-Carries n s.memory within p move)

  step-Carries :
      (s : BrokerState) (x : Step)
      → length (content n s.memory) ≤ capacity
      → Carries n s.memory (step s x).0.memory (step s x).1
  unfolding step sent_bodies taken_bodies
  step-Carries s close_step within =
      quiet n s.memory within (close_broker s.memory) [] (content-close_broker n s.memory) refl refl
  step-Carries s (publish_call k b) within = same_memory n s.memory within [] refl refl
  step-Carries s (consume_call k) within = same_memory n s.memory within [] refl refl
  step-Carries s (process_step i move) within =
      process_moves-Carries s i move (get_elem? s.processes i) within

  -- Two parts of a run, one after the other.
  Carries-append :
      (m m' m'' : Memory) (es fs : List MessageEvent)
      → Carries n m m' es
      → Carries n m' m'' fs
      → Carries n m m'' (es ++ fs)
  Carries-append m m' m'' es fs c d = record {
    order =
        ap (◌++◌ (content n m)) (sent_bodies-append n es fs)
        ∙ sym (append_assoc (content n m) (sent_bodies n es) (sent_bodies n fs))
        ∙ ap (λ l. l ++ sent_bodies n fs) c.order
        ∙ append_assoc (taken_bodies n es) (content n m') (sent_bodies n fs)
        ∙ ap (◌++◌ (taken_bodies n es)) d.order
        ∙ sym (append_assoc (taken_bodies n es) (taken_bodies n fs) (content n m''))
        ∙ ap (λ l. l ++ content n m'') (sym (taken_bodies-append n es fs));
    bound = d.bound;
  }

  -- Under every schedule, for a queue within its 1024 places: what the queue held, followed by what it
  -- took, is what was received from it, in this order, followed by what it holds then; and it keeps
  -- within its places. So no message is lost, doubled or overtaken in a queue.
  pub run-Carries :
      (s : BrokerState) (xs : List Step)
      → length (content n s.memory) ≤ capacity
      → Carries n s.memory (run s xs).0.memory (run s xs).1
  unfolding run sent_bodies taken_bodies
  run-Carries s [] within = same_memory n s.memory within [] refl refl
  run-Carries s (x ∷ xs) within =
      let first = step-Carries s x within in
      Carries-append s.memory (step s x).0.memory (run (step s x).0 xs).0.memory (step s x).1
        (run (step s x).0 xs).1 first (run-Carries (step s x).0 xs first.bound)
