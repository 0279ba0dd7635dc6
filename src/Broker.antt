-- ===== src/Broker.antt =====
-- internal/broker/memory.go: the broker in memory. Each call is a process that moves from one of its
-- atomic sections to the next; a select takes any of its cases that is ready, so that a schedule is a
-- list of moves. A handler settles its delivery before it returns, if it does.

pub mod Fifo
pub mod Schedules
pub mod Deliveries
pub mod Settled
mod Tests
use simulator.Common.{
  ℕ, zero, suc, ◌+◌, ◌-◌, ◌*◌, ◌/◌, ◌%◌, ◌^◌, ◌≤◌, ◌<◌, min, ◌≡◌, refl, sym, ap, subst, ◌∙◌, ◌≢◌,
  ◌↔◌, ◌⊎◌, inl, inr, Bool, true, false, not, ◌&&◌, ◌||◌, Option, none, some, List, [], ◌∷◌, ◌++◌,
  map, Mem, Perm, arith, ℕ_discrete, ◌>>=◌, Returns, returns, ltb, leb, ◌==◌, if◌then◌else◌,
  Bool-cases, Option-cases, length, get_elem?, set, get_or, take, drop, replicate, store,
  length-append, length-set, length-take, length-drop, length-replicate, take-append-drop,
  drop-drop, get_elem?-get_or, get_elem?-lt, get_elem?-append, get_elem?-append_end,
  get_elem?-append_lt, get_or-set, get_or-append, get_or-take,
}
use Prim.Native.String.{String}
use simulator.Common.Maps.{lookup, put, text_key}

pub record MemQueue : Type 0 where
  pub ch : List String
  pub done : Bool

pub record Memory : Type 0 where
  pub queues : List (String × MemQueue)
  pub closed : Bool

abbrev pub new_memory : Memory
new_memory = record { queues = []; closed = false }

abbrev pub capacity : ℕ
capacity = 1024

abbrev pub new_queue : MemQueue
new_queue = record { ch = []; done = false }

pub data BrokerError : Type 0 where
  err_closed context_done : BrokerError

unfoldable pub with_queue : String → MemQueue → Memory → Memory
with_queue name q m = record m { queues = put name q m.queues }

abbrev pub queue_or_new : Option MemQueue → MemQueue
queue_or_new none = new_queue
queue_or_new (some q) = q

-- The queue that getQueue answers, and the broker with it.
unfoldable pub queue_of : String → Memory → MemQueue
queue_of name m = queue_or_new (lookup name m.queues)

unfoldable pub get_queue : String → Memory → Memory
get_queue name m = with_queue name (queue_of name m) m

unfoldable pub close_queues : List (String × MemQueue) → List (String × MemQueue)
close_queues [] = []
close_queues ((name, q) ∷ qs) = (name, record q { done = true }) ∷ close_queues qs

-- Close
unfoldable pub close_broker : Memory → Memory
close_broker m =
    let closing : Memory = record { queues = close_queues m.queues; closed = true } in
    if m.closed then m else closing

-- Who calls Publish: a client, or the Nack of a delivery, whose context is never done.
pub data Caller : Type 0 where
  client nack_call : Caller

pub data Process : Type 0 where
  -- Publish before its check, before getQueue, and at its select
  publishing checked sending : Caller → String → String → Process
  -- Consume before getQueue, and at its select
  starting consuming : String → Process
  -- a handler with a delivery that is not settled, and with one that is
  handling : String → String → Process
  settled : String → Process
  returned : Option BrokerError → Process

-- What a process does next: its only step, or a case of its select, or what its handler does.
pub data Move : Type 0 where
  advance send receive give_up see_closed : Move
  call_ack : Move
  call_nack : Bool → Move
  return_nil return_error : Move

-- What happens to a message: a queue takes it, a consumer receives it, its delivery is settled for
-- good, or it is lost: the Nack that was to requeue it fails, or the handler returns without settling
-- it. A message is its queue and its body.
pub data MessageEvent : Type 0 where
  sent : Caller → String → String → MessageEvent
  taken finished lost : String → String → MessageEvent

pub record Moved : Type 0 where
  pub process : Process
  pub memory : Memory
  pub events : List MessageEvent

-- The end of a Publish: its caller goes on.
unfoldable pub publish_failed : Caller → String → String → BrokerError → Memory → Moved
publish_failed client name body e m = record {
  process = returned (some e);
  memory = m;
  events = [];
}
publish_failed nack_call name body e m = record {
  process = settled name;
  memory = m;
  events = lost name body ∷ [];
}

abbrev pub after_publish : Caller → String → Process
after_publish client name = returned none
after_publish nack_call name = settled name

unfoldable pub sent_to : Caller → String → String → MemQueue → Memory → Moved
sent_to c name body q m = record {
  process = after_publish c name;
  memory = with_queue name (record q { ch = q.ch ++ (body ∷ []) }) m;
  events = sent c name body ∷ [];
}

-- The cases of the select of Publish; `none` is a case that is not ready.
unfoldable pub publish_select : Caller → String → String → Memory → Move → Option Moved
publish_select c name body m send =
    let q = queue_of name m in
    if ltb (length q.ch) capacity then some (sent_to c name body q m) else none
publish_select client name body m give_up = some (publish_failed client name body context_done m)
publish_select c name body m see_closed =
    if (queue_of name m).done then some (publish_failed c name body err_closed m) else none
publish_select _ _ _ _ _ = none

-- The receive of Consume, of what the channel holds.
unfoldable pub received : String → Memory → MemQueue → List String → Option Moved
received name m q [] = none
received name m q (body ∷ rest) = some (record {
  process = handling name body;
  memory = with_queue name (record q { ch = rest }) m;
  events = taken name body ∷ [];
})

unfoldable pub consume_select : String → Memory → Move → Option Moved
consume_select name m receive = received name m (queue_of name m) (queue_of name m).ch
consume_select name m give_up =
    some (record { process = returned (some context_done); memory = m; events = [] })
consume_select name m see_closed =
    if (queue_of name m).done
    then some (record { process = returned (some err_closed); memory = m; events = [] })
    else none
consume_select _ _ _ = none

-- The delivery as its handler uses it: the first call settles it, and the others do nothing.
unfoldable pub handler_move : String → String → Memory → Move → Option Moved
handler_move name body m call_ack =
    some (record { process = settled name; memory = m; events = finished name body ∷ [] })
handler_move name body m (call_nack false) =
    some (record { process = settled name; memory = m; events = finished name body ∷ [] })
handler_move name body m (call_nack true) =
    some (record { process = publishing nack_call name body; memory = m; events = [] })
handler_move name body m return_nil =
    some (record { process = consuming name; memory = m; events = lost name body ∷ [] })
handler_move name body m return_error =
    some (record { process = consuming name; memory = m; events = finished name body ∷ [] })
handler_move _ _ _ _ = none

unfoldable pub settled_move : String → Memory → Move → Option Moved
settled_move name m call_ack = some (record { process = settled name; memory = m; events = [] })
settled_move name m (call_nack _) =
    some (record { process = settled name; memory = m; events = [] })
settled_move name m return_nil = some (record { process = consuming name; memory = m; events = [] })
settled_move name m return_error =
    some (record { process = consuming name; memory = m; events = [] })
settled_move _ _ _ = none

unfoldable pub move_process : Process → Memory → Move → Option Moved
move_process (publishing c name body) m advance =
    let on : Moved = record { process = checked c name body; memory = m; events = [] } in
    if m.closed then some (publish_failed c name body err_closed m) else some on
move_process (checked c name body) m advance =
    some (record { process = sending c name body; memory = get_queue name m; events = [] })
move_process (sending c name body) m move = publish_select c name body m move
move_process (starting name) m advance =
    some (record { process = consuming name; memory = get_queue name m; events = [] })
move_process (consuming name) m move = consume_select name m move
move_process (handling name body) m move = handler_move name body m move
move_process (settled name) m move = settled_move name m move
move_process _ _ _ = none

pub record BrokerState : Type 0 where
  pub memory : Memory
  pub processes : List Process

pub data Step : Type 0 where
  close_step : Step
  publish_call : String → String → Step
  consume_call : String → Step
  process_step : ℕ → Move → Step

-- A process has moved, if its move was ready.
unfoldable pub moved_at : BrokerState → ℕ → Option Moved → BrokerState × List MessageEvent
moved_at s i none = (s, [])
moved_at s i (some r) =
    (record { memory = r.memory; processes = set s.processes i r.process }, r.events)

-- The move of the process at an index, if there is one.
unfoldable pub process_moves :
    BrokerState → ℕ → Move → Option Process → BrokerState × List MessageEvent
process_moves s i move none = (s, [])
process_moves s i move (some p) = moved_at s i (move_process p s.memory move)

unfoldable pub step : BrokerState → Step → BrokerState × List MessageEvent
step s close_step = (record s { memory = close_broker s.memory }, [])
step s (publish_call name body) =
    (record s { processes = publishing client name body ∷ s.processes }, [])
step s (consume_call name) = (record s { processes = starting name ∷ s.processes }, [])
step s (process_step i move) = process_moves s i move (get_elem? s.processes i)

unfoldable pub run : BrokerState → List Step → BrokerState × List MessageEvent
run s [] = (s, [])
run s (x ∷ xs) = let (s', first) = step s x in let (t, rest) = run s' xs in (t, first ++ rest)
