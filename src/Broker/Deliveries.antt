-- ===== src/Broker/Deliveries.antt =====
-- The deliveries of internal/broker/memory.go: each is settled once.
use simulator.Common.{
  ℕ, ◌+◌, ◌≡◌, refl, sym, ◌∙◌, Bool, true, false, Option, none, some, List, [], ◌∷◌, ◌++◌, arith,
  ltb, if◌then◌else◌, length,
}
use Prim.Native.String.{String}
use simulator.Broker.{
  BrokerError, err_closed, context_done, MemQueue, Memory, capacity, queue_of, get_queue, Caller,
  client, nack_call, Process, publishing, checked, sending, starting, consuming, handling, settled,
  returned, Move, advance, send, receive, give_up, see_closed, call_ack, call_nack, return_nil,
  return_error, MessageEvent, sent, taken, finished, lost, Moved, publish_failed, sent_to,
  publish_select, received, consume_select, handler_move, settled_move, move_process,
}

-- Messages are counted with any weights, so that an equation for all of them is one of multisets.
module _ (w : String → String → ℕ) where
  -- The delivery that a process has not settled yet, or is to requeue.
  unfoldable pub held : Process → ℕ
  held (publishing client k b) = 0
  held (publishing nack_call k b) = w k b
  held (checked client k b) = 0
  held (checked nack_call k b) = w k b
  held (sending client k b) = 0
  held (sending nack_call k b) = w k b
  held (starting k) = 0
  held (consuming k) = 0
  held (handling k b) = w k b
  held (settled k) = 0
  held (returned e) = 0

  unfoldable pub all_held : List Process → ℕ
  all_held [] = 0
  all_held (p ∷ ps) = held p + all_held ps

  -- The messages that were received, and those whose delivery came to its end.
  unfoldable pub all_taken : List MessageEvent → ℕ
  all_taken [] = 0
  all_taken (taken k b ∷ es) = w k b + all_taken es
  all_taken (sent c k b ∷ es) = all_taken es
  all_taken (finished k b ∷ es) = all_taken es
  all_taken (lost k b ∷ es) = all_taken es

  unfoldable pub all_finished : List MessageEvent → ℕ
  all_finished [] = 0
  all_finished (finished k b ∷ es) = w k b + all_finished es
  all_finished (sent c k b ∷ es) = all_finished es
  all_finished (taken k b ∷ es) = all_finished es
  all_finished (lost k b ∷ es) = all_finished es

  unfoldable pub all_lost : List MessageEvent → ℕ
  all_lost [] = 0
  all_lost (lost k b ∷ es) = w k b + all_lost es
  all_lost (sent c k b ∷ es) = all_lost es
  all_lost (taken k b ∷ es) = all_lost es
  all_lost (finished k b ∷ es) = all_lost es

  unfoldable pub all_requeued : List MessageEvent → ℕ
  all_requeued [] = 0
  all_requeued (sent nack_call k b ∷ es) = w k b + all_requeued es
  all_requeued (sent client k b ∷ es) = all_requeued es
  all_requeued (taken k b ∷ es) = all_requeued es
  all_requeued (finished k b ∷ es) = all_requeued es
  all_requeued (lost k b ∷ es) = all_requeued es

  unfoldable pub ended : List MessageEvent → ℕ
  ended es = all_finished es + all_lost es + all_requeued es

  pub all_taken-append :
      (es fs : List MessageEvent) → all_taken (es ++ fs) ≡ all_taken es + all_taken fs
  unfolding all_taken
  all_taken-append [] fs = omega arith
  all_taken-append (taken k b ∷ es) fs = rw (all_taken-append es fs) (omega arith)
  all_taken-append (sent c k b ∷ es) fs = all_taken-append es fs
  all_taken-append (finished k b ∷ es) fs = all_taken-append es fs
  all_taken-append (lost k b ∷ es) fs = all_taken-append es fs

  pub ended-append : (es fs : List MessageEvent) → ended (es ++ fs) ≡ ended es + ended fs
  unfolding ended all_finished all_lost all_requeued
  ended-append [] fs = omega arith
  ended-append (taken k b ∷ es) fs = ended-append es fs
  ended-append (sent client k b ∷ es) fs = ended-append es fs
  ended-append (sent nack_call k b ∷ es) fs = let h = ended-append es fs in omega arith
  ended-append (finished k b ∷ es) fs = let h = ended-append es fs in omega arith
  ended-append (lost k b ∷ es) fs = let h = ended-append es fs in omega arith

  -- A move of a process keeps the account of its deliveries.
  pub data Keeps (p : Process) : Option Moved → Type 0 where
    stuck : Keeps p none
    keeps :
        {r : Moved}
        → held p + all_taken r.events ≡ held r.process + ended r.events
        → Keeps p (some r)

  publish_failed-Keeps :
      (p : Process) (c : Caller) (k b : String) (e : BrokerError) (m : Memory)
      → held p ≡ held (sending c k b)
      → Keeps p (some (publish_failed c k b e m))
  unfolding publish_failed held all_taken ended all_finished all_lost all_requeued
  publish_failed-Keeps p client k b e m same = keeps (omega arith)
  publish_failed-Keeps p nack_call k b e m same = keeps (omega arith)

  publish_failed_if :
      (p : Process) (c : Caller) (k b : String) (e : BrokerError) (m : Memory) (d : Bool)
      (r : Option Moved)
      → held p ≡ held (sending c k b)
      → Keeps p r
      → Keeps p (if d then some (publish_failed c k b e m) else r)
  publish_failed_if p c k b e m true r same on = publish_failed-Keeps p c k b e m same
  publish_failed_if p c k b e m false r same on = on

  sent_if :
      (c : Caller) (k b : String) (q : MemQueue) (m : Memory) (d : Bool)
      → Keeps (sending c k b) (if d then some (sent_to c k b q m) else none)
  unfolding sent_to held all_taken ended all_finished all_lost all_requeued
  sent_if client k b q m true = keeps refl
  sent_if nack_call k b q m true = keeps (omega arith)
  sent_if c k b q m false = stuck

  publish_select-Keeps :
      (c : Caller) (k b : String) (m : Memory) (move : Move)
      → Keeps (sending c k b) (publish_select c k b m move)
  unfolding publish_select
  publish_select-Keeps client k b m give_up =
      publish_failed-Keeps (sending client k b) client k b context_done m refl
  publish_select-Keeps nack_call k b m give_up = stuck
  publish_select-Keeps c k b m send =
      sent_if c k b (queue_of k m) m (ltb (length (queue_of k m).ch) capacity)
  publish_select-Keeps c k b m see_closed =
      publish_failed_if (sending c k b) c k b err_closed m (queue_of k m).done none refl stuck
  publish_select-Keeps _ _ _ _ _ = stuck

  received-Keeps :
      (k : String) (m : Memory) (q : MemQueue) (l : List String)
      → Keeps (consuming k) (received k m q l)
  unfolding received held all_taken ended all_finished all_lost all_requeued
  received-Keeps k m q [] = stuck
  received-Keeps k m q (b ∷ rest) = keeps (omega arith)

  idle_if :
      (k : String) (e : Option BrokerError) (m : Memory) (d : Bool)
      → Keeps
          (consuming k)
          (if d then some (record { process = returned e; memory = m; events = [] }) else none)
  unfolding held all_taken ended all_finished all_lost all_requeued
  idle_if k e m true = keeps refl
  idle_if k e m false = stuck

  consume_select-Keeps :
      (k : String) (m : Memory) (move : Move) → Keeps (consuming k) (consume_select k m move)
  unfolding consume_select
  consume_select-Keeps k m receive = received-Keeps k m (queue_of k m) (queue_of k m).ch
  consume_select-Keeps k m give_up = idle_if k (some context_done) m true
  consume_select-Keeps k m see_closed = idle_if k (some err_closed) m (queue_of k m).done
  consume_select-Keeps _ _ _ = stuck

  handler_move-Keeps :
      (k b : String) (m : Memory) (move : Move) → Keeps (handling k b) (handler_move k b m move)
  unfolding handler_move held all_taken ended all_finished all_lost all_requeued
  handler_move-Keeps k b m call_ack = keeps (omega arith)
  handler_move-Keeps k b m (call_nack false) = keeps (omega arith)
  handler_move-Keeps k b m (call_nack true) = keeps (omega arith)
  handler_move-Keeps k b m return_nil = keeps (omega arith)
  handler_move-Keeps k b m return_error = keeps (omega arith)
  handler_move-Keeps _ _ _ _ = stuck

  settled_move-Keeps :
      (k : String) (m : Memory) (move : Move) → Keeps (settled k) (settled_move k m move)
  unfolding settled_move held all_taken ended all_finished all_lost all_requeued
  settled_move-Keeps k m call_ack = keeps refl
  settled_move-Keeps k m (call_nack _) = keeps refl
  settled_move-Keeps k m return_nil = keeps refl
  settled_move-Keeps k m return_error = keeps refl
  settled_move-Keeps _ _ _ = stuck

  silent :
      (p p' : Process) (m : Memory)
      → held p ≡ held p'
      → Keeps p (some (record { process = p'; memory = m; events = [] }))
  unfolding all_taken ended all_finished all_lost all_requeued
  silent p p' m e = keeps (omega arith)

  held_alike :
      (c : Caller) (k b : String)
      → (held (publishing c k b) ≡ held (sending c k b))
        × (held (checked c k b) ≡ held (sending c k b))
  unfolding held
  held_alike client k b = (refl, refl)
  held_alike nack_call k b = (refl, refl)

  pub move_process-Keeps :
      (p : Process) (m : Memory) (move : Move) → Keeps p (move_process p m move)
  unfolding move_process held
  move_process-Keeps (publishing c k b) m advance =
      let (first, second) = held_alike c k b in
      publish_failed_if (publishing c k b) c k b err_closed m m.closed
        (some (record { process = checked c k b; memory = m; events = [] })) first
        (silent (publishing c k b) (checked c k b) m (first ∙ sym second))
  move_process-Keeps (checked c k b) m advance =
      silent (checked c k b) (sending c k b) (get_queue k m) (held_alike c k b).1
  move_process-Keeps (sending c k b) m move = publish_select-Keeps c k b m move
  move_process-Keeps (starting k) m advance = silent (starting k) (consuming k) (get_queue k m) refl
  move_process-Keeps (consuming k) m move = consume_select-Keeps k m move
  move_process-Keeps (handling k b) m move = handler_move-Keeps k b m move
  move_process-Keeps (settled k) m move = settled_move-Keeps k m move
  move_process-Keeps _ _ _ = stuck
