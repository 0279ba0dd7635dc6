-- ===== src/Broker/Fifo.antt =====
-- The order of the messages in the queues of internal/broker/memory.go.
use simulator.Common.{
  ◌≤◌, ◌<◌, ◌≡◌, refl, sym, ap, subst, ◌∙◌, ◌≢◌, inl, inr, true, false, Option, none, some, List,
  [], ◌∷◌, ◌++◌, arith, if◌then◌else◌, Bool-cases, length, length-append,
}
use Prim.Native.String.{String}
use mathlib.Core.List.{append-nil}
use simulator.Common.Maps.{lookup, text_key, key-cases, lookup-put, lookup-put_other}
use simulator.Broker.{
  MemQueue, Memory, capacity, with_queue, queue_or_new, queue_of, get_queue, close_queues,
  close_broker, Caller, MessageEvent, sent, taken, finished, lost, Moved, sent_to, received,
}

-- What a queue holds.
abbrev pub content : String → Memory → List String
content n m = (queue_of n m).ch

-- The bodies that a queue took, in their order, and those that were received from it.
unfoldable pub sent_bodies : String → List MessageEvent → List String
sent_bodies n [] = []
sent_bodies n (sent c k b ∷ es) =
    let rest = sent_bodies n es in if text_key.same n k then b ∷ rest else rest
sent_bodies n (taken k b ∷ es) = sent_bodies n es
sent_bodies n (finished k b ∷ es) = sent_bodies n es
sent_bodies n (lost k b ∷ es) = sent_bodies n es

unfoldable pub taken_bodies : String → List MessageEvent → List String
taken_bodies n [] = []
taken_bodies n (taken k b ∷ es) =
    let rest = taken_bodies n es in if text_key.same n k then b ∷ rest else rest
taken_bodies n (sent c k b ∷ es) = taken_bodies n es
taken_bodies n (finished k b ∷ es) = taken_bodies n es
taken_bodies n (lost k b ∷ es) = taken_bodies n es

pub sent_bodies-append :
    (n : String) (es fs : List MessageEvent)
    → sent_bodies n (es ++ fs) ≡ sent_bodies n es ++ sent_bodies n fs
unfolding sent_bodies
sent_bodies-append n [] fs = refl
sent_bodies-append n (sent c k b ∷ es) fs = ground (arith, sent_bodies-append n es fs)
sent_bodies-append n (taken k b ∷ es) fs = sent_bodies-append n es fs
sent_bodies-append n (finished k b ∷ es) fs = sent_bodies-append n es fs
sent_bodies-append n (lost k b ∷ es) fs = sent_bodies-append n es fs

pub taken_bodies-append :
    (n : String) (es fs : List MessageEvent)
    → taken_bodies n (es ++ fs) ≡ taken_bodies n es ++ taken_bodies n fs
unfolding taken_bodies
taken_bodies-append n [] fs = refl
taken_bodies-append n (taken k b ∷ es) fs = ground (arith, taken_bodies-append n es fs)
taken_bodies-append n (sent c k b ∷ es) fs = taken_bodies-append n es fs
taken_bodies-append n (finished k b ∷ es) fs = taken_bodies-append n es fs
taken_bodies-append n (lost k b ∷ es) fs = taken_bodies-append n es fs

-- What a part of a run does to one queue: it lets the bodies through in their order and keeps within
-- the places of the channel.
pub record Carries (n : String) (m m' : Memory) (es : List MessageEvent) : Type 0 where
  pub order : content n m ++ sent_bodies n es ≡ taken_bodies n es ++ content n m'
  pub bound : length (content n m') ≤ capacity

queue_of-with_queue : (n : String) (q : MemQueue) (m : Memory) → queue_of n (with_queue n q m) ≡ q
unfolding queue_of with_queue
queue_of-with_queue n q m = ap queue_or_new (lookup-put n q m.queues)

queue_of-with_other :
    (n k : String) (q : MemQueue) (m : Memory)
    → n ≢ k
    → queue_of n (with_queue k q m) ≡ queue_of n m
unfolding queue_of with_queue
queue_of-with_other n k q m ne = ap queue_or_new (lookup-put_other n k q m.queues ne)

queue_of-get_queue : (n k : String) (m : Memory) → queue_of n (get_queue k m) ≡ queue_of n m
unfolding get_queue
queue_of-get_queue n k m = elim (key-cases n k) [
  | inl same ↦ rw same (queue_of-with_queue k (queue_of k m) m)
  | inr ne ↦ queue_of-with_other n k (queue_of k m) m ne
]

content-close_queues :
    (n : String) (qs : List (String × MemQueue))
    → (queue_or_new (lookup n (close_queues qs))).ch ≡ (queue_or_new (lookup n qs)).ch
unfolding lookup close_queues
content-close_queues n [] = refl
content-close_queues n ((k, q) ∷ qs) = elim (Bool-cases (text_key.same n k)) [
  | inl e ↦ rw e refl
  | inr e ↦ rw e (content-close_queues n qs)
]

pub content-close_broker : (n : String) (m : Memory) → content n (close_broker m) ≡ content n m
unfolding close_broker queue_of
content-close_broker n m = elim (Bool-cases m.closed) [
  | inl e ↦
      ap
        (λ c. content n (if c then m else record { queues = close_queues m.queues; closed = true }))
        e
  | inr e ↦
      ap
        (λ c. content n (if c then m else record { queues = close_queues m.queues; closed = true }))
        e
      ∙ content-close_queues n m.queues
]

-- A move that is ready satisfies `P`.
pub data Ready (P : Memory → List MessageEvent → Type 0) : Option Moved → Type 0 where
  not_ready : Ready P none
  ready : {r : Moved} → P r.memory r.events → Ready P (some r)

apart : (n k : String) → n ≢ k → text_key.same n k ≡ false
apart n k ne = elim (Bool-cases (text_key.same n k)) [
  | inl e ↦ absurd (ne ((text_key.same_iff n k).0 e))
  | inr e ↦ e
]

shorter : (x : String) (xs : List String) → length (x ∷ xs) ≤ capacity → length xs ≤ capacity
shorter x xs h = omega arith

module _ (n : String) (m : Memory) (within : length (content n m) ≤ capacity) where
  -- A step without events of this queue that leaves what it holds.
  pub quiet :
      (m' : Memory) (es : List MessageEvent)
      → content n m' ≡ content n m
      → sent_bodies n es ≡ []
      → taken_bodies n es ≡ []
      → Carries n m m' es
  quiet m' es same no_sent no_taken = record {
    order =
        ap (◌++◌ (content n m)) no_sent
        ∙ append-nil (content n m)
        ∙ sym same
        ∙ ap (λ l. l ++ content n m') (sym no_taken);
    bound = subst (λ l. length l ≤ capacity) (sym same) within;
  }

  pub same_memory :
      (es : List MessageEvent) → sent_bodies n es ≡ [] → taken_bodies n es ≡ [] → Carries n m m es
  same_memory es no_sent no_taken = quiet m es refl no_sent no_taken

  pub get_queue-Carries : (k : String) → Carries n m (get_queue k m) []
  unfolding sent_bodies taken_bodies
  get_queue-Carries k =
      quiet (get_queue k m) [] (ap (λ q. q.ch) (queue_of-get_queue n k m)) refl refl

  -- What a step on a queue does to that queue, and that it leaves the others.
  on_queue :
      (k : String) (q : MemQueue) (es : List MessageEvent)
      → (n ≡ k
          → (content n m ++ sent_bodies n es ≡ taken_bodies n es ++ q.ch)
            × (length q.ch ≤ capacity))
      → (n ≢ k → (sent_bodies n es ≡ []) × (taken_bodies n es ≡ []))
      → Carries n m (with_queue k q m) es
  on_queue k q es here there = elim (key-cases n k) [
    | inl same ↦
        let holds : content n (with_queue k q m) ≡ q.ch =
          ap (λ x. x.ch)
            (subst (λ i. queue_of i (with_queue k q m) ≡ q) (sym same)
              (queue_of-with_queue k q m)) in
        record {
          order = (here same).0 ∙ ap (λ l. taken_bodies n es ++ l) (sym holds);
          bound = subst (λ l. length l ≤ capacity) (sym holds) (here same).1;
        }
    | inr ne ↦
        quiet (with_queue k q m) es (ap (λ x. x.ch) (queue_of-with_other n k q m ne)) (there ne).0
          (there ne).1
  ]

  pub sent_to-Carries :
      (c : Caller) (k body : String)
      → length (queue_of k m).ch < capacity
      → Carries n m (sent_to c k body (queue_of k m) m).memory (sent c k body ∷ [])
  unfolding sent_to sent_bodies taken_bodies
  sent_to-Carries c k body room =
      on_queue k (record { ch = (queue_of k m).ch ++ (body ∷ []); done = (queue_of k m).done })
        (sent c k body ∷ [])
        (λ same.
          let here : text_key.same n k ≡ true = (text_key.same_iff n k).1 same in
          (
            rw (here, same) refl,
            subst (λ l. l ≤ capacity) (sym (length-append (queue_of k m).ch (body ∷ [])))
                (omega arith),
          ))
        (λ ne. (rw (apart n k ne) refl, refl))

  pub received-Carries :
      (k : String) (l : List String)
      → (queue_of k m).ch ≡ l
      → Ready (Carries n m) (received k m (queue_of k m) l)
  unfolding received sent_bodies taken_bodies
  received-Carries k [] e = not_ready
  received-Carries k (body ∷ rest) e = ready (
      on_queue k (record { ch = rest; done = (queue_of k m).done }) (taken k body ∷ [])
        (λ same.
          let here : text_key.same n k ≡ true = (text_key.same_iff n k).1 same in
          let held : content n m ≡ body ∷ rest = ap (λ i. content i m) same ∙ e in
          (
            rw here (append-nil (content n m) ∙ held),
            shorter body rest (subst (λ x. length x ≤ capacity) held within),
          ))
        (λ ne. (refl, rw (apart n k ne) refl)))
