-- ===== src/Broker/Tests.antt =====
-- A producer, and a consumer that requeues once.
use simulator.Common.{ℕ, ◌≡◌, refl, true, List, [], ◌∷◌, arith}
use Prim.Native.String.{String}
use simulator.Broker.{
  new_memory, queue_of, advance, send, receive, call_ack, call_nack, return_nil, BrokerState, Step,
  publish_call, consume_call, process_step, run, close_step, step, process_moves, moved_at,
  move_process, publish_select, sent_to, consume_select, received, handler_move, settled_move,
  publish_failed, close_broker, close_queues, get_queue, with_queue,
}
use simulator.Common.Maps.{lookup, put, delete}
use simulator.Broker.Fifo.{Carries}
use simulator.Broker.Schedules.{run-Carries}
use simulator.Broker.Settled.{IsSettled, run-IsSettled}

abbrev empty_system : BrokerState
empty_system = record { memory = new_memory; processes = [] }

-- Two messages are published; the first is received, requeued, and received again after the second.
abbrev schedule : List Step
schedule =
    publish_call "q" "a"
    ∷ process_step 0 advance
    ∷ process_step 0 advance
    ∷ process_step 0 send
    ∷ publish_call "q" "b"
    ∷ process_step 0 advance
    ∷ process_step 0 advance
    ∷ process_step 0 send
    ∷ consume_call "q"
    ∷ process_step 0 advance
    ∷ process_step 0 receive
    ∷ process_step 0 (call_nack true)
    ∷ process_step 0 advance
    ∷ process_step 0 advance
    ∷ process_step 0 send
    ∷ process_step 0 return_nil
    ∷ process_step 0 receive
    ∷ process_step 0 call_ack
    ∷ close_step
    ∷ []

queue_after : (queue_of "q" (run empty_system schedule).0.memory).ch ≡ "a" ∷ []
unfolding run step process_moves moved_at move_process publish_select sent_to consume_select
    received handler_move settled_move publish_failed close_broker close_queues get_queue with_queue
    queue_of lookup put delete
queue_after = refl

run-Carries_example :
    Carries "q" new_memory (run empty_system schedule).0.memory (run empty_system schedule).1
unfolding queue_of lookup
run-Carries_example = run-Carries "q" empty_system schedule (omega arith)

-- Every message counts one.
abbrev one_each : String → String → ℕ
one_each k b = 1

run-IsSettled_example : IsSettled one_each empty_system (run empty_system schedule)
run-IsSettled_example = run-IsSettled one_each empty_system schedule
