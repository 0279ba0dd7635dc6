-- ===== src/Heap/Order.antt =====
-- The heap order, for a comparison that is a strict weak order.
use simulator.Common.{
  ℕ, zero, suc, ◌-◌, ◌/◌, ◌<◌, ◌≡◌, refl, ap, ◌∙◌, inl, inr, Bool, true, false, some, List, [], ◌∷◌,
  ◌++◌, Perm, arith, ltb, ◌==◌, if◌then◌else◌, Bool-cases, length, set, get_or, length-set,
  get_elem?-get_or, get_or-set,
}
use native.Mathlib.Nat.{ℕ_set}
use mathlib.Core.Logic.{∥∥₁_elim}
use mathlib.Core.List.{Permᴰ, perm_middle, append-nil}
use mathlib.Core.List.Perm
use simulator.Heap.{less_at, swap}

pub record IsOrder {A : Type 0} (less : A → A → Bool) : Type 0 where
  pub asym : (x y : A) → less x y ≡ true → less y x ≡ false
  -- not coming first is transitive
  pub chain : (x y z : A) → less y x ≡ false → less z y ≡ false → less z x ≡ false

abbrev pub parent : ℕ → ℕ
parent c = (c - 1) / 2

module _ {A : Type 0} (less : A → A → Bool) (d : A) where
  -- No entry below `n` comes before its parent.
  abbrev pub IsHeap : List A → ℕ → Type 0
  IsHeap a n = (c : ℕ) → 0 < c → c < n → less (get_or a c d) (get_or a (parent c) d) ≡ false

  root_first_below :
      (k : ℕ) (o : IsOrder less) (a : List A) (n i : ℕ)
      → IsHeap a n
      → i < k
      → i < n
      → less (get_or a 0 d) (get_or a 0 d) ≡ false
      → less (get_or a i d) (get_or a 0 d) ≡ false
  root_first_below zero o a n i h f p s = absurd (omega arith)
  root_first_below (suc k) o a n zero h f p s = s
  root_first_below (suc k) o a n (suc i) h f p s =
      o.chain (get_or a 0 d) (get_or a (parent (suc i)) d) (get_or a (suc i) d)
        (root_first_below k o a n (parent (suc i)) h (omega arith) (omega arith) s)
        (h (suc i) (omega arith) p)

  pub irrefl : (o : IsOrder less) (x : A) → less x x ≡ false
  irrefl o x = elim (Bool-cases (less x x)) [ inl e ↦ o.asym x x e | inr e ↦ e ]

  -- Nothing comes before the root of a heap.
  pub root_first :
      (o : IsOrder less) (a : List A) (n i : ℕ)
      → IsHeap a n
      → i < n
      → less (get_or a i d) (get_or a 0 d) ≡ false
  root_first o a n i h p =
      root_first_below (suc i) o a n i h (omega arith) p (irrefl o (get_or a 0 d))

module _ {A : Type 0} where
  length_perm : {a b : List A} → Permᴰ a b → length a ≡ length b
  length_perm Permᴰ.nil = refl
  length_perm (Permᴰ.cons _ p) = ap suc (length_perm p)
  length_perm (Permᴰ.swap _ _) = refl
  length_perm (Permᴰ.trans p q) = length_perm p ∙ length_perm q

  pub length-perm : {a b : List A} → Perm a b → length a ≡ length b
  length-perm p = ∥∥₁_elim p (ℕ_set _ _) length_perm

  pub append_one-perm : (a : List A) (x : A) → Perm (a ++ x ∷ []) (x ∷ a)
  append_one-perm a x = rw (append-nil a) at (perm_middle {a = x} a [])

  -- A write exchanges the old entry for the new one.
  write-perm :
      (a : List A) (i : ℕ) (v d : A) → i < length a → Perm (get_or a i d ∷ set a i v) (v ∷ a)
  write-perm [] i v d h = absurd (omega arith)
  write-perm (x ∷ a) zero v d h = Perm.swap v x a
  write-perm (x ∷ a) (suc i) v d h =
      let inner = Perm.cons x (write-perm a i v d (omega arith)) in
      Perm.trans (Perm.swap x (get_or a i d) (set a i v)) (Perm.trans inner (Perm.swap v x a))

  -- The list after an exchange of two entries.
  abbrev pub exchanged : A → List A → ℕ → ℕ → List A
  exchanged d a i j = set (set a i (get_or a j d)) j (get_or a i d)

module _ {A : Type 0} (less : A → A → Bool) (d : A) (a : List A) (i j : ℕ) (hi : i < length a)
    (hj : j < length a) where
  pub less_at-eq : less_at less a i j ≡ some (less (get_or a i d) (get_or a j d))
  unfolding less_at
  less_at-eq = rw (get_elem?-get_or a i d hi, get_elem?-get_or a j d hj) refl

  pub swap-eq : swap less a i j ≡ some (exchanged d a i j)
  unfolding swap
  swap-eq =
      let room : ltb i (length a) ≡ true = ground arith in
      let room' : ltb j (length (set a i (get_or a j d))) ≡ true =
        ground (arith, length-set a i (get_or a j d)) in
      rw (get_elem?-get_or a i d hi, get_elem?-get_or a j d hj, room, room') refl

  pub length-exchanged : length (exchanged d a i j) ≡ length a
  length-exchanged =
      length-set (set a i (get_or a j d)) j (get_or a i d) ∙ length-set a i (get_or a j d)

  pub exchanged_at :
      (c : ℕ)
      → get_or (exchanged d a i j) c d
        ≡ (if j == c then get_or a i d else if i == c then get_or a j d else get_or a c d)
  exchanged_at c =
      rw
        (
          get_or-set (set a i (get_or a j d)) j c (get_or a i d) d (rw length-set hj),
          get_or-set a i c (get_or a j d) d hi,
        )
        refl

  pub exchanged-perm : Perm (exchanged d a i j) a
  exchanged-perm =
      let b = set a i (get_or a j d) in
      let kept : get_or b j d ≡ get_or a j d = ground (arith, get_or-set a i j (get_or a j d) d) in
      let second = rw kept at (write-perm b j (get_or a i d) d (rw length-set hj)) in
      Perm.cons_inv (Perm.trans second (write-perm a i (get_or a j d) d hi))
