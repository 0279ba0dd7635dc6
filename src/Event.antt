-- ===== src/Event.antt =====
-- pkg/simulation/event.go: events, their order and the queue.
pub mod Order
pub mod Queue
pub mod Firing
pub mod Snapshot
pub mod Tests
use simulator.Common.{
  ℕ, zero, suc, ◌+◌, ◌-◌, ◌*◌, ◌/◌, ◌%◌, ◌^◌, ◌≤◌, ◌<◌, min, ◌≡◌, refl, sym, ap, subst, ◌∙◌, ◌≢◌,
  ◌↔◌, ◌⊎◌, inl, inr, Bool, true, false, not, ◌&&◌, ◌||◌, Option, none, some, List, [], ◌∷◌, ◌++◌,
  map, Mem, Perm, arith, ℕ_discrete, ◌>>=◌, Returns, returns, ltb, leb, ◌==◌, if◌then◌else◌,
  Bool-cases, Option-cases, length, get_elem?, set, get_or, take, drop, replicate, store,
  length-append, length-set, length-take, length-drop, length-replicate, take-append-drop,
  drop-drop, get_elem?-get_or, get_elem?-lt, get_elem?-append, get_elem?-append_end, get_or-set,
  get_or-append, get_or-take,
}
use simulator.Common.Int.{ℤ, pos, ltb_ℤ, eqb_ℤ}
use simulator.Common.Float.{Float64}
use simulator.Heap
use Prim.Native.String.{String}
use simulator.Entity.{u64}

-- Times and payloads are values of types that the code does not look into.
pub record Event (T P : Type 0) : Type 0 where
  pub id : ℕ
  pub kind : String
  pub time : T
  pub priority : ℤ
  pub seq : ℕ
  pub source : ℕ
  pub target : ℕ
  pub payload : Option P

pub record EventQueue (T P : Type 0) : Type 0 where
  pub h : List (Event T P)
  pub next : ℕ
  pub seq : ℕ

-- Pop answers false on an empty queue.
pub data Popped (T P : Type 0) : Type 0 where
  empty : Popped T P
  popped : Event T P → EventQueue T P → Popped T P

-- `Event{}`
unfoldable pub zero_event : {T P : Type 0} → T → Event T P
zero_event t = record {
  id = 0;
  kind = "";
  time = t;
  priority = pos 0;
  seq = 0;
  source = 0;
  target = 0;
  payload = none;
}

unfoldable pub new_event_queue : {T P : Type 0} → EventQueue T P
new_event_queue = record { h = []; next = 0; seq = 0 }

module _ (f : Float64) {P : Type 0} where
  -- Higher priorities come first.
  unfoldable pub event_less : Event f.Time P → Event f.Time P → Bool
  event_less a b =
      if not (f.eq a.time b.time)
      then f.lt a.time b.time
      else if not (eqb_ℤ a.priority b.priority)
      then ltb_ℤ b.priority a.priority
      else if not (a.seq == b.seq)
      then ltb a.seq b.seq
      else ltb a.id b.id

  -- The event with the identifier and the sequence number that Push gives it.
  unfoldable pub stamp : EventQueue f.Time P → Event f.Time P → Event f.Time P × EventQueue f.Time P
  stamp q e =
      let next = if e.id == 0 then u64 (q.next + 1) else q.next in
      let seq = u64 (q.seq + 1) in
      (
        record e { id = if e.id == 0 then next else e.id; seq = seq },
        record q { next = next; seq = seq },
      )

  unfoldable pub push :
      EventQueue f.Time P → Event f.Time P → Option (Event f.Time P × EventQueue f.Time P)
  push q e =
      let (e', q') = stamp q e in
      Heap.push event_less q'.h e' >>= λ h. some (e', record q' { h = h })

  unfoldable pub push_raw : EventQueue f.Time P → Event f.Time P → Option (EventQueue f.Time P)
  push_raw q e = Heap.push event_less q.h e >>= λ h. some (record q { h = h })

  -- Peek and Pop of an empty queue report that there is nothing.
  unfoldable pub peek : EventQueue f.Time P → Option (Event f.Time P)
  peek q = get_elem? q.h 0

  unfoldable pub pop : EventQueue f.Time P → Option (Popped f.Time P)
  pop q =
      let rest = Heap.pop event_less q.h >>= λ (e, h). some (popped e (record q { h = h })) in
      if length q.h == 0 then some empty else rest

  unfoldable pub len : EventQueue f.Time P → ℕ
  len q = length q.h

  -- `sort.Slice` of a copy.
  unfoldable pub insert : Event f.Time P → List (Event f.Time P) → List (Event f.Time P)
  insert e [] = e ∷ []
  insert e (x ∷ xs) = elim (event_less x e) [ true ↦ x ∷ insert e xs | false ↦ e ∷ x ∷ xs ]

  unfoldable pub sort : List (Event f.Time P) → List (Event f.Time P)
  sort [] = []
  sort (x ∷ xs) = insert x (sort xs)

  unfoldable pub peek_all : EventQueue f.Time P → List (Event f.Time P)
  peek_all q = sort q.h
