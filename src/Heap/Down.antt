-- ===== src/Heap/Down.antt =====
-- down, over the first `n` entries: an entry that may come after a child sinks to its place.
use simulator.Common.{
  ℕ, zero, suc, ◌+◌, ◌-◌, ◌*◌, ◌≤◌, ◌<◌, ◌≡◌, refl, ap, ◌∙◌, ◌≢◌, inl, inr, Bool, true, false,
  Option, some, List, [], ◌∷◌, ◌++◌, Perm, arith, ℕ_discrete, ◌>>=◌, Returns, returns, ltb, leb,
  ◌==◌, if◌then◌else◌, Bool-cases, length, get_elem?, get_or, take, length-take, get_elem?-get_or,
  get_or-take,
}
use mathlib.Core.List.Perm
use simulator.Heap.{less_at, swap, first_child, down_loop, down, pop}
use simulator.Heap.Order.{
  IsOrder, IsHeap, parent, exchanged, less_at-eq, swap-eq, length-exchanged, exchanged_at,
  exchanged-perm, length-perm, append_one-perm, irrefl,
}

module _ {A : Type 0} (less : A → A → Bool) (d : A) (o : IsOrder less) (n : ℕ) where
  -- All is in order but the edges below `i`.
  record Sinking (a : List A) (i : ℕ) : Type 0 where
    room : n ≤ length a
    edges :
        (c : ℕ) → 0 < c → c < n → parent c ≢ i → less (get_or a c d) (get_or a (parent c) d) ≡ false
    across :
        (c : ℕ)
        → 0 < c
        → c < n
        → parent c ≡ i
        → 0 < i
        → less (get_or a c d) (get_or a (parent i) d) ≡ false

  -- The first `n` entries in heap order, all entries the same, those from `n` on in place.
  record Sunk (a b : List A) : Type 0 where
    pub heap : IsHeap less d b n
    pub same : Perm b a
    pub beyond : (k : ℕ) → n ≤ k → get_or b k d ≡ get_or a k d

  -- A child of `i` that no other child of `i` comes before.
  record IsFirst (a : List A) (i j : ℕ) : Type 0 where
    child : parent j ≡ i
    inside : j < n
    above : i < j
    least : (c : ℕ) → 0 < c → c < n → parent c ≡ i → less (get_or a c d) (get_or a j d) ≡ false

  first_child-IsFirst :
      (a : List A) (i : ℕ)
      → n ≤ length a
      → 2 * i + 1 < n
      → Returns (IsFirst a i) (first_child less a i n)
  unfolding first_child
  first_child-IsFirst a i room h =
      let left = 2 * i + 1 in
      let right = 2 * i + 1 + 1 in
      let only_two : (c : ℕ) → 0 < c → parent c ≡ i → c ≢ left → c ≡ right =
        λ c p e ne. omega arith in
      let self : less (get_or a left d) (get_or a left d) ≡ false =
        irrefl less d o (get_or a left d) in
      let self' : less (get_or a right d) (get_or a right d) ≡ false =
        irrefl less d o (get_or a right d) in
      elim (Bool-cases (ltb right n)) [
        | inr single ↦ rw single (
            returns (record {
              child = omega arith;
              inside = h;
              above = omega arith;
              least = λ c p l e. let same : c ≡ left = ground arith in rw same self;
            }))
        | inl both ↦
            let hr : right < n = ground arith in
            let read = less_at-eq less d a right left (omega arith) (omega arith) in
            elim (Bool-cases (less (get_or a right d) (get_or a left d))) [
              | inl first ↦
                  rw (both, read, first)
                    (returns (record {
                      child = omega arith;
                      inside = hr;
                      above = omega arith;
                      least = λ c p l e. elim (ℕ_discrete c left) [
                        | yes same ↦ rw same (o.asym (get_or a right d) (get_or a left d) first)
                        | no ne ↦ rw (only_two c p e ne) self'
                      ];
                    }))
              | inr second ↦
                  rw (both, read, second)
                    (returns (record {
                      child = omega arith;
                      inside = h;
                      above = omega arith;
                      least = λ c p l e. elim (ℕ_discrete c left) [
                        | yes same ↦ rw same self
                        | no ne ↦ rw (only_two c p e ne) second
                      ];
                    }))
            ]
      ]

  module _ (a : List A) (i j : ℕ) (s : Sinking a i) (f : IsFirst a i j)
      (before : less (get_or a j d) (get_or a i d) ≡ true) where
    abbrev sunk : List A
    sunk = exchanged d a i j

    hi : i < length a
    hi = omega (arith, s.room, f.inside, f.above)

    hj : j < length a
    hj = omega (arith, s.room, f.inside)

    at_child : get_or sunk j d ≡ get_or a i d
    at_child = ground (arith, exchanged_at less d a i j hi hj j)

    at_hole : get_or sunk i d ≡ get_or a j d
    at_hole = ground (arith, f.above, exchanged_at less d a i j hi hj i)

    at_other : (c : ℕ) → c ≢ i → c ≢ j → get_or sunk c d ≡ get_or a c d
    at_other c ne ne' = ground (arith, exchanged_at less d a i j hi hj c)

    sunk_edges :
        (c : ℕ)
        → 0 < c
        → c < n
        → parent c ≢ j
        → less (get_or sunk c d) (get_or sunk (parent c) d) ≡ false
    sunk_edges c p l ne = elim (ℕ_discrete c j) [
      | yes e ↦ rw (e, f.child, at_child, at_hole) (o.asym (get_or a j d) (get_or a i d) before)
      | no other ↦ elim (ℕ_discrete c i) [
        | yes e ↦
            let pos : 0 < i = omega arith in
            rw (e, at_hole, at_other (parent i) (omega arith) (omega (arith, f.above)))
              (s.across j (omega (arith, f.above)) f.inside f.child pos)
        | no other' ↦ rw (at_other c other' other) (elim (ℕ_discrete (parent c) i) [
          | yes sibling ↦ rw (sibling, at_hole) (f.least c p l sibling)
          | no far ↦ rw (at_other (parent c) far ne) (s.edges c p l far)
        ])
      ]
    ]

    sunk_across :
        (c : ℕ)
        → 0 < c
        → c < n
        → parent c ≡ j
        → 0 < j
        → less (get_or sunk c d) (get_or sunk (parent j) d) ≡ false
    sunk_across c p l e q =
        let far : c ≢ i = omega (arith, f.above) in
        let far' : c ≢ j = omega arith in
        rw (f.child, at_hole, at_other c far far')
          (rw e at (s.edges c p l (omega (arith, f.above))))

    sunk-Sinking : Sinking sunk j
    sunk-Sinking = record {
      room = omega (arith, s.room, length-exchanged less d a i j hi hj);
      edges = sunk_edges;
      across = sunk_across;
    }

    Sunk-exchanged : {r : Option (List A)} → Returns (Sunk sunk) r → Returns (Sunk a) r
    Sunk-exchanged (returns g) = returns (record {
      heap = g.heap;
      same = Perm.trans g.same (exchanged-perm less d a i j hi hj);
      beyond = λ k h.
          g.beyond k h ∙ at_other k (omega (arith, f.inside, f.above)) (omega (arith, f.inside));
    })

  stays : (a : List A) → IsHeap less d a n → Sunk a a
  stays a h = record { heap = h; same = Perm.refl a; beyond = λ k l. refl }

  down_loop_orders :
      (fuel : ℕ) (a : List A) (i : ℕ)
      → n < fuel + i
      → i ≤ n
      → Sinking a i
      → Returns (Sunk a) (down_loop less fuel a i n)
  unfolding down_loop
  down_loop_orders zero a i h le s = absurd (omega arith)
  down_loop_orders (suc fuel) a i h le s = elim (Bool-cases (leb n (2 * i + 1))) [
    | inl leaf ↦
        let no_child : (c : ℕ) → 0 < c → c < n → parent c ≢ i = λ c p l e. absurd (ground arith) in
        rw leaf (returns (stays a λ c p l. s.edges c p l (no_child c p l)))
    | inr inner ↦
        rw inner (choose (down_loop_orders fuel) (first_child-IsFirst a i s.room (ground arith)))
  ]
    where
      last_edges :
          (j : ℕ) → IsFirst a i j → less (get_or a j d) (get_or a i d) ≡ false → IsHeap less d a n
      last_edges j f in_place c p l = elim (ℕ_discrete (parent c) i) [
        | no far ↦ s.edges c p l far
        | yes e ↦
            rw e (o.chain (get_or a i d) (get_or a j d) (get_or a c d) in_place (f.least c p l e))
      ]

      choose :
          ((b : List A) (j : ℕ)
            → n < fuel + j
            → j ≤ n
            → Sinking b j
            → Returns (Sunk b) (down_loop less fuel b j n))
          → {t : Option ℕ} → Returns (IsFirst a i) t
          → Returns (Sunk a) (
              t >>= λ j. less_at less a j i >>= λ below.
              if below then (swap less a i j >>= λ b. down_loop less fuel b j n) else some a)
      choose rest (returns {a = j} f) =
          let hi : i < length a = omega (arith, s.room, f.inside, f.above) in
          let hj : j < length a = omega (arith, s.room, f.inside) in
          elim (Bool-cases (less (get_or a j d) (get_or a i d))) [
            | inl before ↦
                rw (less_at-eq less d a j i hj hi, before, swap-eq less d a i j hi hj)
                  (Sunk-exchanged a i j s f before (
                    rest (exchanged d a i j) j (omega (arith, f.above)) (omega (arith, f.inside))
                      (sunk-Sinking a i j s f before)))
            | inr in_place ↦
                rw (less_at-eq less d a j i hj hi, in_place)
                  (returns (stays a (last_edges j f in_place)))
          ]

module _ {A : Type 0} (less : A → A → Bool) (d : A) (o : IsOrder less) where
  -- What Pop gives of a heap: its first entry, and a heap of the others.
  pub record Popped (a : List A) (r : A × List A) : Type 0 where
    pub heap : IsHeap less d r.1 (length r.1)
    pub same : Perm (r.0 ∷ r.1) a
    pub was_root : r.0 ≡ get_or a 0 d

  module _ (a : List A) (n : ℕ) (size : length a ≡ suc n) (h : IsHeap less d a (suc n)) where
    abbrev cut : List A
    cut = exchanged d a 0 n

    cut_at :
        (c : ℕ)
        → get_or cut c d
          ≡ (if n == c then get_or a 0 d else if 0 == c then get_or a n d else get_or a c d)
    cut_at = exchanged_at less d a 0 n (omega arith) (omega arith)

    size_cut : length cut ≡ suc n
    size_cut = length-exchanged less d a 0 n (omega arith) (omega arith) ∙ size

    cut-Sinking : Sinking less d o n cut 0
    cut-Sinking = record {
      room = omega (arith, size_cut);
      edges = λ c p l ne. ground (arith, h c, cut_at c, cut_at (parent c));
      across = λ c p l e q. absurd (omega arith);
    }

    take_last : (b : List A) → length b ≡ suc n → take n b ++ get_or b n d ∷ [] ≡ b
    take_last b e = all_but_last n b e
      where
        all_but_last : (k : ℕ) (b : List A) → length b ≡ suc k → take k b ++ get_or b k d ∷ [] ≡ b
        all_but_last zero (x ∷ []) e = refl
        all_but_last (suc k) (x ∷ b) e = ap (◌∷◌ x) (all_but_last k b (omega arith))
        all_but_last k b e = absurd (omega arith)

    cut_down : (b : List A) → Sunk less d o n cut b → Popped a (get_or b n d, take n b)
    cut_down b s =
        let size_b : length b ≡ suc n = length-perm s.same ∙ size_cut in
        let size_rest : length (take n b) ≡ n = omega (arith, length-take n b) in
        let whole = take_last b size_b in
        let last_of_cut : get_or cut n d ≡ get_or a 0 d = ground (arith, cut_at n) in
        record {
          heap = λ c p l.
              rw
                (
                  get_or-take n b c d (omega (arith, size_rest)),
                  get_or-take n b (parent c) d (omega (arith, size_rest)),
                )
                (s.heap c p (omega (arith, size_rest)));
          same = Perm.trans (Perm.symm (append_one-perm (take n b) (get_or b n d))) (
              rw whole
                (Perm.trans s.same (exchanged-perm less d a 0 n (omega arith) (omega arith))));
          was_root = s.beyond n (omega arith) ∙ last_of_cut;
        }

  -- Pop of a heap that is not empty gives its root, and keeps the heap order of the others.
  pub pop_orders :
      (a : List A) → 0 < length a → IsHeap less d a (length a) → Returns (Popped a) (pop less a)
  unfolding pop down
  pop_orders a nonempty h =
      let n : ℕ = length a - 1 in
      let size : length a ≡ suc n = omega arith in
      let h' : IsHeap less d a (suc n) = rw size at h in
      rw (swap-eq less d a 0 n nonempty (omega arith)) (
        finish n size h' (
          down_loop_orders less d o n (n + 1) (exchanged d a 0 n) 0 (omega arith) (omega arith)
            (cut-Sinking a n size h')))
    where
      finish :
          (n : ℕ) (size : length a ≡ suc n) (h' : IsHeap less d a (suc n)) {t : Option (List A)}
          → Returns (Sunk less d o n (exchanged d a 0 n)) t
          → Returns (Popped a) (t >>= λ c. get_elem? c n >>= λ x. some (x, take n c))
      finish n size h' (returns {a = b} s) =
          let size_b : length b ≡ suc n = length-perm s.same ∙ size_cut a n size h' in
          rw (get_elem?-get_or b n d (omega arith)) (returns (cut_down a n size h' b s))
