-- ===== src/Event/Snapshot.antt =====
-- The snapshot of the event queue and its restore. The coding of payloads is a parameter; the
-- struct eventSnapshot has the fields of Event, with the coded payload.
use simulator.Common.{
  ℕ, suc, ◌+◌, ◌-◌, ◌<◌, ◌≡◌, refl, sym, ap, subst, ◌∙◌, inl, inr, Bool, true, false, Option, none,
  some, List, [], ◌∷◌, ◌++◌, arith, ◌>>=◌, ◌==◌, Bool-cases, Option-cases, length, get_or,
  length-append, get_or-append,
}
use simulator.Common.Float.{Float64}
use mathlib.Core.List.{append-nil, append_assoc}
use simulator.Heap
use simulator.Heap.{less_at}
use simulator.Heap.Order.{IsHeap, parent, less_at-eq}
use simulator.Event.{Event, EventQueue, event_less, push_raw}
use simulator.Event.Queue.{IsQueue, blank}

pub record EventQueueState (T D : Type 0) : Type 0 where
  pub events : List (Event T D)
  pub next : ℕ
  pub seq : ℕ

-- A coding of a payload, if there is one.
abbrev pub coded : {P D : Type 0} → (P → Option D) → Option P → Option (Option D)
coded code none = some none
coded code (some p) = code p >>= λ d. some (some d)

abbrev pub with_payload : {T P D : Type 0} → Event T P → Option D → Event T D
with_payload e p = record {
  id = e.id;
  kind = e.kind;
  time = e.time;
  priority = e.priority;
  seq = e.seq;
  source = e.source;
  target = e.target;
  payload = p;
}

module _ {T P D : Type 0} (marshal : P → Option D) where
  unfoldable pub code_events : List (Event T P) → Option (List (Event T D))
  code_events [] = some []
  code_events (e ∷ es) = do
    p ← coded marshal e.payload
    rest ← code_events es
    some (with_payload e p ∷ rest)

  unfoldable pub snapshot_events : EventQueue T P → Option (EventQueueState T D)
  snapshot_events q =
      code_events q.h >>= λ es. some (record { events = es; next = q.next; seq = q.seq })

module _ (f : Float64) {P D : Type 0} (unmarshal : D → Option P) where
  -- The loop of restore: whether it got through, and the queue it left. The outer `none` is a panic.
  unfoldable pub push_coded :
      List (Event f.Time D) → EventQueue f.Time P → Option (Bool × EventQueue f.Time P)
  push_coded [] q = some (true, q)
  push_coded (e ∷ es) q = elim (coded unmarshal e.payload) [
    | none ↦ some (false, q)
    | some p ↦ push_raw f q (with_payload e p) >>= push_coded es
  ]

  unfoldable pub restore_events :
      EventQueueState f.Time D → EventQueue f.Time P → Option (Bool × EventQueue f.Time P)
  restore_events st q = push_coded st.events (record q { h = []; next = st.next; seq = st.seq })

module _ {A : Type 0} (less : A → A → Bool) (d : A) where
  -- An entry that does not come before its parent stays where it is.
  up_settled :
      (fuel j : ℕ) (a : List A)
      → j < length a
      → (0 < j → less (get_or a j d) (get_or a (parent j) d) ≡ false)
      → Heap.up_loop less (suc fuel) a j ≡ some a
  unfolding Heap.up_loop less_at
  up_settled fuel j a p settled = elim (Bool-cases (parent j == j)) [
    | inl e ↦ ground arith
    | inr e ↦
        let moves : parent j == j ≡ false = e in
        let positive : 0 < j = ground arith in
        rw (e, less_at-eq less d a j (parent j) p (omega arith), settled positive) refl
  ]

  push_settled :
      (a : List A) (x : A)
      → (0 < length a → less x (get_or a (parent (length a)) d) ≡ false)
      → Heap.push less a x ≡ some (a ++ x ∷ [])
  unfolding Heap.push Heap.up
  push_settled a x settled =
      let size : length (a ++ x ∷ []) ≡ length a + 1 = length-append a (x ∷ []) in
      let last : length (a ++ x ∷ []) - 1 ≡ length a = omega (arith, size) in
      let at_last : get_or (a ++ x ∷ []) (length a) d ≡ x =
        ground (arith, get_or-append a (x ∷ []) (length a) d) in
      ap (λ j. Heap.up_loop less (j + 1) (a ++ x ∷ []) j) last
      ∙ ap (λ fuel. Heap.up_loop less fuel (a ++ x ∷ []) (length a)) (omega arith)
      ∙ up_settled (length a) (length a) (a ++ x ∷ []) (omega (arith, size)) (λ pos.
        let above : get_or (a ++ x ∷ []) (parent (length a)) d ≡ get_or a (parent (length a)) d =
          ground (arith, get_or-append a (x ∷ []) (parent (length a)) d) in
        rw (at_last, above) (settled pos))

  -- In a heap, an entry does not come before its parent among the entries in front of it.
  heap_settled :
      (a b : List A) (x : A)
      → IsHeap less d (a ++ x ∷ b) (length (a ++ x ∷ b))
      → 0 < length a
      → less x (get_or a (parent (length a)) d) ≡ false
  heap_settled a b x heap pos =
      let inside : length a < length (a ++ x ∷ b) = omega (arith, length-append a (x ∷ b)) in
      let here : get_or (a ++ x ∷ b) (length a) d ≡ x =
        ground (arith, get_or-append a (x ∷ b) (length a) d) in
      let above : get_or (a ++ x ∷ b) (parent (length a)) d ≡ get_or a (parent (length a)) d =
        ground (arith, get_or-append a (x ∷ b) (parent (length a)) d) in
      subst (λ y. less y (get_or a (parent (length a)) d) ≡ false) here
        (subst (λ y. less (get_or (a ++ x ∷ b) (length a) d) y ≡ false) above
          (heap (length a) pos inside))

module _ {P D : Type 0} (marshal : P → Option D) (unmarshal : D → Option P)
    (decodes : (p : P) (d : D) → marshal p ≡ some d → unmarshal d ≡ some p) where
  coded-back : (p : Option P) (c : Option D) → coded marshal p ≡ some c → coded unmarshal c ≡ some p
  coded-back none none e = refl
  coded-back none (some d) e = absurd (ground arith)
  coded-back (some x) c e = elim (Option-cases (marshal x)) [
    | inl h ↦ absurd (ground arith)
    | inr (d, h) ↦ let c_is : c ≡ some d = ground arith in rw (c_is, decodes x d h) refl
  ]

  module _ (f : Float64) where
    push_coded-appends :
        (b : List (Event f.Time P)) (es : List (Event f.Time D)) (q : EventQueue f.Time P)
        → IsHeap (event_less f) (blank f) (q.h ++ b) (length (q.h ++ b))
        → code_events marshal b ≡ some es
        → push_coded f unmarshal es q ≡ some (true, record q { h = q.h ++ b })
    unfolding code_events push_coded push_raw
    push_coded-appends [] es q heap e =
        let es_is : es ≡ [] = ground arith in rw (es_is, append-nil q.h) refl
    push_coded-appends (x ∷ b) es q heap e = elim (Option-cases (coded marshal x.payload)) [
      | inl h ↦ absurd (ground arith)
      | inr (c, h) ↦ elim (Option-cases (code_events marshal b)) [
        | inl k ↦ absurd (ground arith)
        | inr (rest, k) ↦
            let es_is : es ≡ with_payload x c ∷ rest = ground arith in
            let grown : List (Event f.Time P) = q.h ++ x ∷ [] in
            let joined : grown ++ b ≡ q.h ++ x ∷ b = append_assoc q.h (x ∷ []) b in
            let later =
              push_coded-appends b rest (record q { h = grown })
                (subst (λ l. IsHeap (event_less f) (blank f) l (length l)) (sym joined) heap) k in
            let pushed : Heap.push (event_less f) q.h x ≡ some grown =
              push_settled (event_less f) (blank f) q.h x
                (heap_settled (event_less f) (blank f) q.h b x heap) in
            rw (es_is, coded-back x.payload c h, pushed, later, joined) refl
      ]
    ]

    -- A snapshot of a valid queue, restored into any queue, gives that queue back with its heap,
    -- where the coding of a payload can be decoded to the payload.
    pub restore_events-snapshot :
        (q other : EventQueue f.Time P) (st : EventQueueState f.Time D)
        → IsQueue f q
        → snapshot_events marshal q ≡ some st
        → restore_events f unmarshal st other ≡ some (true, q)
    unfolding snapshot_events restore_events
    restore_events-snapshot q other st v e = elim (Option-cases (code_events marshal q.h)) [
      | inl k ↦ absurd (ground arith)
      | inr (es, k) ↦
          let st_is : st ≡ record { events = es; next = q.next; seq = q.seq } = ground arith in
          ap (λ s. restore_events f unmarshal s other) st_is
          ∙ push_coded-appends q.h es (record { h = []; next = q.next; seq = q.seq }) v.heap k
    ]
