-- ===== src/Event/Firing.antt =====
-- PeekAll shows the events in the order in which Pop gives them out.
use simulator.Common.{
  ◌≡◌, sym, ◌≢◌, ◌⊎◌, inl, inr, true, false, some, List, [], ◌∷◌, Mem, Perm, arith, Bool-cases,
  length,
}
use mathlib.Core.Bool.{Bool-set}
use mathlib.Core.Logic.Or
use mathlib.Core.List.{Nodup, Nodup-cons, not-mem-nil, mem-cons, mem-cons_of_mem, mem-cons_self}
use mathlib.Core.List.Perm
use simulator.Common.Float.{Float64, IsOrdered}
use simulator.Heap.Order.{IsOrder, length-perm}
use simulator.Event.{Event, EventQueue, empty, popped, event_less, pop, insert, sort, peek_all}
use simulator.Event.Order.{event_less-IsOrder, event_less_total}
use simulator.Event.Queue.{IsQueue, pop_correct, seqs}

module _ (f : Float64) {P : Type 0} (o : IsOrdered f) where
  -- Each event comes before all that follow it.
  abbrev pub IsSorted : List (Event f.Time P) → Type 0
  IsSorted [] = Unit {0}
  IsSorted (x ∷ xs) = ((y : Event f.Time P) → Mem y xs → event_less f x y ≡ true) × IsSorted xs

  insert-perm : (e : Event f.Time P) (xs : List (Event f.Time P)) → Perm (insert f e xs) (e ∷ xs)
  unfolding insert
  insert-perm e [] = Perm.refl (e ∷ [])
  insert-perm e (x ∷ xs) =
      elim (event_less f x e)
        as (λ b. Perm (elim b [ true ↦ x ∷ insert f e xs | false ↦ e ∷ x ∷ xs ]) (e ∷ x ∷ xs)) [
          | true ↦ Perm.trans (Perm.cons x (insert-perm e xs)) (Perm.swap e x xs)
          | false ↦ Perm.refl (e ∷ x ∷ xs)
        ]

  strict :
      (x y : Event f.Time P) → x.seq ≢ y.seq → event_less f x y ≡ false → event_less f y x ≡ true
  strict x y ne h = elim (Bool-cases (event_less f y x)) [
    | inl before ↦ before
    | inr level ↦ absurd (ne (event_less_total f o x y h level).0)
  ]

  later :
      (x y z : Event f.Time P)
      → event_less f x y ≡ true
      → event_less f y z ≡ true
      → event_less f x z ≡ true
  later x y z h k = elim (Bool-cases (event_less f x z)) [
    | inl e ↦ e
    | inr n ↦
        let order : IsOrder (event_less f) = event_less-IsOrder f o in
        let level : event_less f y z ≡ false = order.chain z x y n (order.asym x y h) in cc
  ]

  insert-IsSorted :
      (e : Event f.Time P) (xs : List (Event f.Time P))
      → IsSorted xs
      → ¬ Mem e.seq (seqs xs)
      → IsSorted (insert f e xs)
  unfolding insert
  insert-IsSorted e [] s ne = ((λ y m. absurd (not-mem-nil m)), tt)
  insert-IsSorted e (x ∷ xs) (first, s) ne =
      split (insert-IsSorted e xs s (λ m. ne (mem-cons_of_mem x.seq m)))
        (Bool-cases (event_less f x e))
    where
      split :
          IsSorted (insert f e xs)
          → (event_less f x e ≡ true) ⊎ (event_less f x e ≡ false)
          → IsSorted (elim (event_less f x e) [ true ↦ x ∷ insert f e xs | false ↦ e ∷ x ∷ xs ])
      split tail_sorted (inl before) = rw before (
        (λ y m.
            Or.elim (Bool-set _ _) (mem-cons.0 ((Perm.mem_iff (insert-perm e xs)).0 m))
              (λ q. rw q before) (first y)),
        tail_sorted,
      )
      split tail_sorted (inr after) =
          let ahead = strict x e (λ q. ne (rw (← q) mem-cons_self)) after in
          rw after (
            (λ y m.
                Or.elim (Bool-set _ _) (mem-cons.0 m) (λ q. rw q ahead)
                  (λ n. later e x y ahead (first y n))),
            (first, s),
          )

  sort_correct :
      (xs : List (Event f.Time P)) → Nodup (seqs xs) → IsSorted (sort f xs) × Perm (sort f xs) xs
  unfolding sort
  sort_correct [] d = (tt, Perm.nil)
  sort_correct (x ∷ xs) d =
      let split = Nodup-cons.0 d in
      let (s, p) = sort_correct xs split.1 in
      let seqs_same = Perm.map (λ (y : Event f.Time P). y.seq) p in
      (
        insert-IsSorted x (sort f xs) s (λ m. split.0 ((Perm.mem_iff seqs_same).0 m)),
        Perm.trans (insert-perm x (sort f xs)) (Perm.cons x p),
      )

  irreflexive : (x : Event f.Time P) → event_less f x x ≡ true → ⊥
  irreflexive x h = cc ((event_less-IsOrder f o).asym x x h)

  -- Popping until the queue is empty gives these events, in this order.
  abbrev pub Fires : EventQueue f.Time P → List (Event f.Time P) → Type 0
  Fires q [] = pop f q ≡ some empty
  Fires q (e ∷ es) = (q' : EventQueue f.Time P) × (pop f q ≡ some (popped e q')) × Fires q' es

  pop-empty : (q : EventQueue f.Time P) → length q.h ≡ 0 → pop f q ≡ some empty
  unfolding pop
  pop-empty q h = ground arith

  module _ (set : IsSet (Event f.Time P)) where
    same_head :
        (x e : Event f.Time P) (xs rest : List (Event f.Time P))
        → IsSorted (x ∷ xs)
        → ((y : Event f.Time P) → Mem y rest → event_less f e y ≡ true)
        → Perm (e ∷ rest) (x ∷ xs)
        → e ≡ x
    same_head x e xs rest s first p =
        Or.elim (set e x) (mem-cons.0 ((Perm.mem_iff p).0 mem-cons_self)) (λ q. q)
          λ m.
            Or.elim (set e x) (mem-cons.0 ((Perm.mem_iff p).1 mem-cons_self)) sym
              λ n. absurd (irreflexive x (later x e x (s.0 e m) (first x n)))

    sorted-Fires :
        (es : List (Event f.Time P)) (q : EventQueue f.Time P)
        → IsSorted es
        → Perm es q.h
        → IsQueue f q
        → Fires q es
    sorted-Fires [] q s p v = pop-empty q (sym (length-perm p))
    sorted-Fires (x ∷ xs) q s p v =
        let (e, q', eq, r) = pop_correct f o q v (omega (arith, length-perm p)) in
        let same = same_head x e xs q'.h s r.first (Perm.trans r.same (Perm.symm p)) in
        let rest : Perm xs q'.h = Perm.cons_inv (Perm.trans p (Perm.symm (rw same at r.same))) in
        (q', rw same at eq, sorted-Fires xs q' s.1 rest r.valid)

    -- If events form a set, PeekAll of a valid queue lists its events in the order in which Pop gives them out until the
    -- queue is empty, each event once.
    pub peek_all-Fires :
        (q : EventQueue f.Time P)
        → IsQueue f q
        → Fires q (peek_all f q) × IsSorted (peek_all f q) × Perm (peek_all f q) q.h
    unfolding peek_all
    peek_all-Fires q v =
        let (s, p) = sort_correct q.h v.distinct in (sorted-Fires (sort f q.h) q s p v, s, p)

    -- If events form a set, two valid queues of the same events, in whatever order their slices hold them, fire alike: a
    -- restored queue goes on as the one it was taken from.
    pub same_events_fire_alike :
        (q r : EventQueue f.Time P)
        → IsQueue f q
        → IsQueue f r
        → Perm q.h r.h
        → (es : List (Event f.Time P)) × Fires q es × Fires r es
    same_events_fire_alike q r v w p =
        let (s, sorted) = sort_correct q.h v.distinct in
        (
          sort f q.h,
          sorted-Fires (sort f q.h) q s sorted v,
          sorted-Fires (sort f q.h) r s (Perm.trans sorted p) w,
        )
