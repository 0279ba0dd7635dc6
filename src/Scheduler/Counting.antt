-- ===== src/Scheduler/Counting.antt =====
-- dependencyLevels: no system stands twice on a level.
use simulator.Common.{
  ℕ, suc, ◌+◌, ◌-◌, ◌≤◌, ◌<◌, ◌≡◌, refl, sym, subst, inl, inr, true, List, [], ◌∷◌, ◌++◌, arith,
  Returns, returns, ltb, ◌==◌, if◌then◌else◌, Bool-cases, length, set, get_or, length-set,
  get_elem?-get_or, get_or-set,
}
use simulator.Scheduler.{group_levels}
use simulator.Scheduler.Grouping.{AllBounded}

-- How often a system stands in a list.
unfoldable pub count : ℕ → List ℕ → ℕ
count x [] = 0
count x (y ∷ ys) = let rest = count x ys in if x == y then suc rest else rest

count-append : (x y : ℕ) (ys : List ℕ) → count x (ys ++ y ∷ []) ≡ count x ys + count x (y ∷ [])
unfolding count
count-append x y [] = omega arith
count-append x y (z ∷ ys) = ground (arith, count-append x y ys)

-- The systems from `i` on are on no level yet, and no other is there twice.
abbrev pub Counted : ℕ → List (List ℕ) → Type 0
Counted i out =
    (x a : ℕ) → (count x (get_or out a []) ≤ 1) × (i ≤ x → count x (get_or out a []) ≡ 0)

append-Counted :
    (out : List (List ℕ)) (i k : ℕ)
    → k < length out
    → Counted i out
    → Counted (i + 1) (set out k (get_or out k [] ++ i ∷ []))
unfolding count
append-Counted out i k h c x a = elim (Bool-cases (k == a)) [
  | inl same ↦
      let e : k ≡ a = ground arith in
      let (few, fresh) = c x a in
      let there : get_or (set out k (get_or out k [] ++ i ∷ [])) a [] ≡ get_or out a [] ++ i ∷ [] =
        rw (get_or-set out k a (get_or out k [] ++ i ∷ []) [] h, same, e) refl in
      rw (there, count-append x i (get_or out a [])) (ground arith, ground arith)
  | inr other ↦
      let (few, fresh) = c x a in
      rw (get_or-set out k a (get_or out k [] ++ i ∷ []) [] h, other)
        (few, λ le. fresh (omega arith))
]

pub group_levels_counts :
    (i : ℕ) (levels : List ℕ) (out : List (List ℕ))
    → AllBounded (length out) levels
    → Counted i out
    → Returns (Counted (i + length levels)) (group_levels i levels out)
unfolding group_levels
group_levels_counts i [] out b c =
    let none_left : i + 0 ≡ i = omega arith in
    returns (subst (λ k. Counted k out) (sym none_left) c)
group_levels_counts i (l ∷ levels) out (pos, le, b) c =
    let k = l - 1 in
    let grown = set out k (get_or out k [] ++ i ∷ []) in
    let same : length grown ≡ length out = length-set out k _ in
    let inside : ltb k (length out) ≡ true = ground arith in
    let next : i + 1 + length levels ≡ i + length (l ∷ levels) = omega arith in
    rw (get_elem?-get_or out k [] (omega arith), inside, ← next)
      (group_levels_counts (i + 1) levels grown (rw same b)
        (append-Counted out i k (omega arith) c))
