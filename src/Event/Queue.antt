-- ===== src/Event/Queue.antt =====
-- The event queue: Push and Pop against the order of the events.
use simulator.Common.{
  ℕ, suc, ◌+◌, ◌^◌, ◌≤◌, ◌<◌, ◌≡◌, refl, ◌≢◌, inl, inr, true, false, Option, some, List, [], ◌∷◌,
  map, Mem, Perm, arith, ◌>>=◌, Returns, returns, ◌==◌, if◌then◌else◌, Bool-cases, length, get_or,
}
use mathlib.Core.Bool.{Bool-set}
use mathlib.Core.List.{
  Nodup, Nodup-cons, Nodup-nil, not-mem-nil, forall_mem-cons, mem-cons_of_mem, mem-map_of_mem,
}
use mathlib.Core.List.Perm
use native.Mathlib.Bridge.{le_prop}
use simulator.Common.Int.{eqb_ℤ}
use simulator.Common.Float.{Float64, IsOrdered}
use simulator.Entity.{u64}
use simulator.Heap.Order.{IsHeap, root_first}
use simulator.Heap.Up.{push_orders, Ordered}
use simulator.Heap.Down
use simulator.Heap.Down.{pop_orders}
use simulator.Event.{
  Event, EventQueue, empty, popped, zero_event, new_event_queue, event_less, stamp, push, pop,
}
use simulator.Event.Order.{event_less-IsOrder, event_less_total}

-- What holds at every position holds of every member.
pub forall_mem_of_positions {κ} :
    {A : Type 0} {Q : A → Type κ} (prop : (x : A) → IsProp (Q x)) (d : A) (xs : List A)
    → ((i : ℕ) → i < length xs → Q (get_or xs i d))
    → (x : A) → Mem x xs
    → Q x
forall_mem_of_positions prop d [] h = λ x m. absurd (not-mem-nil m)
forall_mem_of_positions prop d (y ∷ ys) h =
    (forall_mem-cons prop).1
      (h 0 (omega arith), forall_mem_of_positions prop d ys λ i p. h (suc i) (omega arith))

abbrev pub seqs : {T P : Type 0} → List (Event T P) → List ℕ
seqs = map (λ e. e.seq)

module _ (f : Float64) {P : Type 0} where
  abbrev pub blank : Event f.Time P
  blank = zero_event f.zero_time

  pub record IsQueue (q : EventQueue f.Time P) : Type 0 where
    pub heap : IsHeap (event_less f) blank q.h (length q.h)
    pub distinct : Nodup (seqs q.h)
    pub bounded : (s : ℕ) → Mem s (seqs q.h) → s ≤ q.seq
    pub word : q.seq < 2 ^ 64

  pub new-IsQueue : IsQueue new_event_queue
  unfolding new_event_queue
  new-IsQueue = record {
    heap = λ c p l. absurd (omega arith);
    distinct = Nodup-nil;
    bounded = λ s m. absurd (not-mem-nil m);
    word = omega arith;
  }

  module _ (o : IsOrdered f) where
    -- What Push promises: the event as it was stored, and the queue.
    pub record IsPushed (q : EventQueue f.Time P) (e : Event f.Time P)
        (r : Event f.Time P × EventQueue f.Time P) : Type 0 where
      pub valid : IsQueue r.1
      pub same : Perm r.1.h (r.0 ∷ q.h)
      pub numbered : r.0.seq ≡ q.seq + 1
      pub identified : (e.id ≢ 0 → r.0.id ≡ e.id) × (e.id ≡ 0 → r.0.id ≡ u64 (q.next + 1))
      -- all else is as it was given
      pub stored : r.0 ≡ record e { id = r.0.id; seq = r.0.seq }
      pub counters :
          (r.1.seq ≡ q.seq + 1) × (r.1.next ≡ (if e.id == 0 then u64 (q.next + 1) else q.next))
      -- it fires after all that were scheduled before for its time and priority
      pub fifo :
          (x : Event f.Time P)
          → Mem x q.h
          → f.eq x.time e.time ≡ true
          → eqb_ℤ x.priority e.priority ≡ true
          → event_less f x r.0 ≡ true

    module _ (q : EventQueue f.Time P) (e : Event f.Time P) (v : IsQueue q)
        (room : q.seq + 1 < 2 ^ 64) where
      abbrev stamped : Event f.Time P
      stamped = (stamp f q e).0

      stamped_seq : (stamped.seq ≡ q.seq + 1) × ((stamp f q e).1.seq ≡ q.seq + 1)
      unfolding stamp
      stamped_seq = omega arith

      older : (x : Event f.Time P) → Mem x q.h → x.seq ≤ q.seq
      older x m = v.bounded x.seq (mem-map_of_mem (λ (y : Event f.Time P). y.seq) m)

      stamped_last :
          (x : Event f.Time P)
          → Mem x q.h
          → f.eq x.time e.time ≡ true
          → eqb_ℤ x.priority e.priority ≡ true
          → event_less f x stamped ≡ true
      unfolding stamp event_less
      stamped_last x m t p = ground (arith, older x m)

      grown_IsQueue :
          (h : List (Event f.Time P))
          → Ordered (event_less f) blank (event_less-IsOrder f o) (stamped ∷ q.h) h
          → IsQueue (record (stamp f q e).1 { h = h })
      grown_IsQueue h (ordered, same) =
          let fresh : ¬ Mem stamped.seq (seqs q.h) =
            λ m. absurd (omega (arith, v.bounded stamped.seq m, stamped_seq)) in
          let seqs_same = Perm.map (λ (y : Event f.Time P). y.seq) same in
          record {
            heap = ordered;
            distinct = Perm.nodup (Perm.symm seqs_same) (Nodup-cons.1 (fresh, v.distinct));
            bounded = λ s m. bound s ((Perm.mem_iff seqs_same).0 m);
            word = rw stamped_seq.1 room;
          }
        where
          bound : (s : ℕ) → Mem s (stamped.seq ∷ seqs q.h) → s ≤ (stamp f q e).1.seq
          bound =
              (forall_mem-cons (λ s. le_prop)).1
                (omega (arith, stamped_seq), λ s m. omega (arith, stamped_seq, v.bounded s m))

      -- Push on a valid queue whose sequence counter has room keeps it valid, adds exactly the event as it was given, under the next sequence number and, if it has none, the next identifier, advances the counters, and
      -- puts it behind the events of the same time and priority.
      pub push_correct : Returns (IsPushed q e) (push f q e)
      unfolding push stamp
      push_correct =
          finish (push_orders (event_less f) blank (event_less-IsOrder f o) q.h stamped v.heap)
        where
          finish :
              {t : Option (List (Event f.Time P))}
              → Returns (Ordered (event_less f) blank (event_less-IsOrder f o) (stamped ∷ q.h)) t
              → Returns (IsPushed q e) (t >>= λ h. some (stamped, record (stamp f q e).1 { h = h }))
          finish (returns {a = h} g) = returns (record {
            valid = grown_IsQueue h g;
            same = g.1;
            numbered = stamped_seq.0;
            identified = ground arith;
            stored = refl;
            counters = (stamped_seq.1, refl);
            fifo = stamped_last;
          })

    -- What Pop promises: the first event in order, and the queue of the others.
    pub record IsRemoved (q : EventQueue f.Time P) (e : Event f.Time P) (q' : EventQueue f.Time P)
        : Type 0 where
      pub valid : IsQueue q'
      pub same : Perm (e ∷ q'.h) q.h
      pub first : (x : Event f.Time P) → Mem x q'.h → event_less f e x ≡ true
      pub counters : (q'.next ≡ q.next) × (q'.seq ≡ q.seq)

    -- Pop of a valid queue with events succeeds; it gives the one that comes before all others, and leaves those.
    pub pop_correct :
        (q : EventQueue f.Time P)
        → IsQueue q
        → 0 < length q.h
        → (e : Event f.Time P) × (q' : EventQueue f.Time P) × (pop f q ≡ some (popped e q'))
          × IsRemoved q e q'
    unfolding pop
    pop_correct q v nonempty =
        let some_left : (length q.h == 0) ≡ false = ground arith in
        finish some_left
          (pop_orders (event_less f) blank (event_less-IsOrder f o) q.h nonempty v.heap)
      where
        removed :
            (e : Event f.Time P) (h : List (Event f.Time P))
            → Down.Popped (event_less f) blank (event_less-IsOrder f o) q.h (e, h)
            → IsRemoved q e (record q { h = h })
        removed e h p =
            let seqs_same = Perm.map (λ (y : Event f.Time P). y.seq) p.same in
            let all_distinct = Nodup-cons.0 (Perm.nodup (Perm.symm seqs_same) v.distinct) in
            let not_before : (x : Event f.Time P) → Mem x q.h → event_less f x e ≡ false =
              forall_mem_of_positions (λ x. Bool-set _ _) blank q.h
                λ i l. rw p.was_root (
                  root_first (event_less f) blank (event_less-IsOrder f o) q.h (length q.h) i v.heap
                    l) in
            record {
              valid = record {
                heap = p.heap;
                distinct = all_distinct.1;
                bounded = λ s m. v.bounded s ((Perm.mem_iff seqs_same).0 (mem-cons_of_mem e.seq m));
                word = v.word;
              };
              same = p.same;
              first = λ x m.
                  let behind = not_before x ((Perm.mem_iff p.same).0 (mem-cons_of_mem e m)) in
                  elim (Bool-cases (event_less f e x)) [
                    | inl before ↦ before
                    | inr level ↦
                        let same_seq : e.seq ≡ x.seq = (event_less_total f o e x level behind).0 in
                        absurd (
                          all_distinct.0
                            (rw same_seq (mem-map_of_mem (λ (y : Event f.Time P). y.seq) m)))
                  ];
              counters = (refl, refl);
            }

        finish :
            (length q.h == 0) ≡ false
            → {t : Option (Event f.Time P × List (Event f.Time P))}
            → Returns (Down.Popped (event_less f) blank (event_less-IsOrder f o) q.h) t
            → (e : Event f.Time P) × (q' : EventQueue f.Time P) × ((if length q.h == 0
                  then some empty
                  else (t >>= λ (e, h). some (popped e (record q { h = h }))))
                ≡ some (popped e q'))
              × IsRemoved q e q'
        finish some_left (returns {a = r} p) =
            (r.0, record q { h = r.1 }, rw some_left refl, removed r.0 r.1 p)
