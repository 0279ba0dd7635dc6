-- ===== src/Heap/Up.antt =====
-- up: an entry that may come before its parent rises to its place.
use simulator.Common.{
  ℕ, zero, suc, ◌+◌, ◌-◌, ◌<◌, ◌≡◌, ◌≢◌, inl, inr, Bool, true, false, Option, List, [], ◌∷◌, ◌++◌,
  Perm, arith, ℕ_discrete, Returns, returns, ◌==◌, if◌then◌else◌, Bool-cases, length, get_or,
  length-append, get_or-append,
}
use mathlib.Core.List.Perm
use simulator.Heap.{up_loop, up, push}
use simulator.Heap.Order.{
  IsOrder, IsHeap, parent, exchanged, less_at-eq, swap-eq, length-exchanged, exchanged_at,
  exchanged-perm, append_one-perm,
}

module _ {A : Type 0} (less : A → A → Bool) (d : A) (o : IsOrder less) where
  -- All is in order but the edge above `j`; what stands below `j` does not come before what
  -- stands above it.
  record Rising (a : List A) (j : ℕ) : Type 0 where
    inside : j < length a
    edges :
        (c : ℕ) → 0 < c → c < length a → c ≢ j → less (get_or a c d) (get_or a (parent c) d) ≡ false
    across :
        (c : ℕ)
        → 0 < c
        → c < length a
        → parent c ≡ j
        → 0 < j
        → less (get_or a c d) (get_or a (parent j) d) ≡ false

  -- The same entries, in heap order.
  abbrev pub Ordered : List A → List A → Type 0
  Ordered a b = IsHeap less d b (length b) × Perm b a

  Ordered-exchanged :
      (a : List A) (i j : ℕ) {r : Option (List A)}
      → i < length a
      → j < length a
      → Returns (Ordered (exchanged d a i j)) r
      → Returns (Ordered a) r
  Ordered-exchanged a i j hi hj (returns {a = b} (h, p)) =
      returns (h, Perm.trans p (exchanged-perm less d a i j hi hj))

  module _ (a : List A) (j : ℕ) (r : Rising a j) (pos : 0 < j)
      (before : less (get_or a j d) (get_or a (parent j) d) ≡ true) where
    abbrev risen : List A
    risen = exchanged d a (parent j) j

    at :
        (c : ℕ)
        → get_or risen c d ≡ (
            if j == c
            then get_or a (parent j) d
            else if parent j == c
            then get_or a j d
            else get_or a c d)
    at = exchanged_at less d a (parent j) j (omega (arith, r.inside)) r.inside

    size : length risen ≡ length a
    size = length-exchanged less d a (parent j) j (omega (arith, r.inside)) r.inside

    at_hole : get_or risen j d ≡ get_or a (parent j) d
    at_hole = ground (arith, at j)

    at_parent : get_or risen (parent j) d ≡ get_or a j d
    at_parent = ground (arith, at (parent j))

    at_other : (c : ℕ) → c ≢ j → c ≢ parent j → get_or risen c d ≡ get_or a c d
    at_other c ne ne' = ground (arith, at c)

    not_after : less (get_or a (parent j) d) (get_or a j d) ≡ false
    not_after = o.asym (get_or a j d) (get_or a (parent j) d) before

    risen_edges :
        (c : ℕ)
        → 0 < c
        → c < length a
        → c ≢ parent j
        → less (get_or risen c d) (get_or risen (parent c) d) ≡ false
    risen_edges c p l ne = elim (ℕ_discrete c j) [
      | yes e ↦ rw (e, at_hole, at_parent) not_after
      | no other ↦ rw (at_other c other ne) (elim (ℕ_discrete (parent c) j) [
        | yes below ↦ rw (below, at_hole) (r.across c p l below pos)
        | no aside ↦ elim (ℕ_discrete (parent c) (parent j)) [
          | yes sibling ↦
              rw (sibling, at_parent)
                (o.chain (get_or a j d) (get_or a (parent j) d) (get_or a c d) not_after
                  (rw sibling at (r.edges c p l other)))
          | no far ↦ rw (at_other (parent c) aside far) (r.edges c p l other)
        ]
      ])
    ]

    risen_across :
        (c : ℕ)
        → 0 < c
        → c < length a
        → parent c ≡ parent j
        → 0 < parent j
        → less (get_or risen c d) (get_or risen (parent (parent j)) d) ≡ false
    risen_across c p l e q =
        let up_edge = r.edges (parent j) q (omega (arith, r.inside)) (omega arith) in
        rw (at_other (parent (parent j)) (omega arith) (omega arith)) (elim (ℕ_discrete c j) [
          | yes same ↦ rw (same, at_hole) up_edge
          | no other ↦ rw (at_other c other (omega arith)) (
              o.chain (get_or a (parent (parent j)) d) (get_or a (parent j) d) (get_or a c d)
                up_edge (rw e at (r.edges c p l other)))
        ])

    risen-Rising : Rising risen (parent j)
    risen-Rising = record {
      inside = omega (arith, size, r.inside);
      edges = λ c p l ne. risen_edges c p (omega (arith, size)) ne;
      across = λ c p l e q. risen_across c p (omega (arith, size)) e q;
    }

  up_loop_orders :
      (fuel : ℕ) (a : List A) (j : ℕ)
      → j < fuel
      → Rising a j
      → Returns (Ordered a) (up_loop less fuel a j)
  unfolding up_loop
  up_loop_orders zero a j f r = absurd (omega arith)
  up_loop_orders (suc fuel) a j f r = elim (Bool-cases (parent j == j)) [
    | inl root ↦ rw root (returns ((λ c p l. r.edges c p l (ground arith)), Perm.refl a))
    | inr inner ↦
        let pos : 0 < j = ground arith in
        let hp : parent j < length a = omega (arith, r.inside) in
        elim (Bool-cases (less (get_or a j d) (get_or a (parent j) d))) [
          | inl before ↦
              rw
                (
                  inner,
                  less_at-eq less d a j (parent j) r.inside hp,
                  before,
                  swap-eq less d a (parent j) j hp r.inside,
                )
                (Ordered-exchanged a (parent j) j hp r.inside (
                  up_loop_orders fuel (exchanged d a (parent j) j) (parent j) (omega arith)
                    (risen-Rising a j r pos before)))
          | inr in_place ↦
              rw (inner, less_at-eq less d a j (parent j) r.inside hp, in_place)
                (returns (
                  (λ c p l. elim (ℕ_discrete c j) [
                    | yes e ↦ rw e in_place
                    | no ne ↦ r.edges c p l ne
                  ]),
                  Perm.refl a,
                ))
        ]
  ]

  -- Push keeps the heap order and adds exactly the new entry.
  pub push_orders :
      (a : List A) (x : A) → IsHeap less d a (length a) → Returns (Ordered (x ∷ a)) (push less a x)
  unfolding push up
  push_orders a x h =
      let size : length (a ++ x ∷ []) ≡ length a + 1 = length-append a (x ∷ []) in
      let last : length (a ++ x ∷ []) - 1 ≡ length a = omega (arith, size) in
      let old = λ (c : ℕ). get_or-append a (x ∷ []) c d in
      let rising : Rising (a ++ x ∷ []) (length a) = record {
        inside = omega (arith, size);
        edges = λ c p l ne. ground (arith, size, h c, old c, old (parent c));
        across = λ c p l e q. absurd (omega (arith, size));
      } in
      rw last (finish (up_loop_orders (length a + 1) (a ++ x ∷ []) (length a) (omega arith) rising))
    where
      finish :
          {r : Option (List A)} → Returns (Ordered (a ++ x ∷ [])) r → Returns (Ordered (x ∷ a)) r
      finish (returns (g, p)) = returns (g, Perm.trans p (append_one-perm a x))
