-- ===== src/Scheduler/Grouping.antt =====
-- dependencyLevels: the systems of one level, gathered in their declared order.
use simulator.Common.{
  ℕ, zero, suc, ◌+◌, ◌-◌, ◌≤◌, ◌<◌, ◌≡◌, inl, inr, Bool, true, false, ◌&&◌, ◌||◌, Option, some,
  List, [], ◌∷◌, ◌++◌, arith, Returns, returns, ltb, ◌==◌, Bool-cases, length, get_elem?, set,
  get_or, length-set, get_elem?-get_or, get_or-set,
}
use simulator.Scheduler.{contains, group_levels}

-- Index `x` is among those from `i` on, and its level is `suc a`.
pub placed : ℕ → List ℕ → ℕ → ℕ → Bool
placed i [] x a = false
placed i (l ∷ levels) x a = (x == i && l == suc a) || placed (i + 1) levels x a

pub placed→level :
    (i : ℕ) (levels : List ℕ) (x a : ℕ)
    → placed i levels x a ≡ true
    → (i ≤ x) × (get_elem? levels (x - i) ≡ some (suc a))
unfolding placed
placed→level i [] x a h = cc
placed→level i (l ∷ levels) x a h = elim (Bool-cases (x == i && l == suc a)) [
  | inl here ↦ at_head (x - i) (ground arith) (ground arith) (ground arith)
  | inr there ↦
      let (le, e) = placed→level (i + 1) levels x a (ground arith) in
      let step : x - i ≡ suc (x - (i + 1)) = omega arith in (omega arith, rw step e)
]
  where
    at_head :
        (k : ℕ) → i ≤ x → k ≡ 0 → l ≡ suc a → (i ≤ x) × (get_elem? (l ∷ levels) k ≡ some (suc a))
    at_head k le e f = (le, rw (e, f))

pub level→placed :
    (i : ℕ) (levels : List ℕ) (k a : ℕ)
    → get_elem? levels k ≡ some (suc a)
    → placed i levels (i + k) a ≡ true
unfolding placed
level→placed i [] k a h = cc
level→placed i (l ∷ levels) zero a h = ground arith
level→placed i (l ∷ levels) (suc k) a h =
    let e : i + 1 + k ≡ i + suc k = omega arith in
    let ih : placed (i + 1) levels (i + suc k) a ≡ true =
      rw (← e) (level→placed (i + 1) levels k a h) in
    ground arith

contains-append : (x y : ℕ) (ys : List ℕ) → contains x (ys ++ y ∷ []) ≡ (contains x ys || x == y)
unfolding contains
contains-append x y [] = ground arith
contains-append x y (z ∷ ys) = ground (arith, contains-append x y ys)

-- Every level has its place in a slice of length `m`.
abbrev pub AllBounded : ℕ → List ℕ → Type 0
AllBounded m [] = Unit {0}
AllBounded m (l ∷ levels) = (0 < l) × (l ≤ m) × AllBounded m levels

abbrev pub Gathered : ℕ → List ℕ → List (List ℕ) → List (List ℕ) → Type 0
Gathered i levels out out' =
    (x a : ℕ)
    → contains x (get_or out' a []) ≡ (contains x (get_or out a []) || placed i levels x a)

append_at :
    (out : List (List ℕ)) (i k a x : ℕ)
    → k < length out
    → contains x (get_or (set out k (get_or out k [] ++ i ∷ [])) a [])
      ≡ (contains x (get_or out a []) || (x == i && k == a))
append_at out i k a x h = elim (Bool-cases (k == a)) [
  | inl same ↦
      let e : k ≡ a = ground arith in
      rw
        (
          get_or-set out k a (get_or out k [] ++ i ∷ []) [] h,
          same,
          contains-append x i (get_or out k []),
          e,
        )
        (ground arith)
  | inr other ↦ rw (get_or-set out k a (get_or out k [] ++ i ∷ []) [] h, other) (ground arith)
]

-- The appends succeed, and put every index into the level that it was given.
pub group_levels_gathers :
    (i : ℕ) (levels : List ℕ) (out : List (List ℕ))
    → AllBounded (length out) levels
    → Returns (Gathered i levels out) (group_levels i levels out)
unfolding group_levels placed
group_levels_gathers i [] out b = returns (λ x a. ground arith)
group_levels_gathers i (l ∷ levels) out (pos, le, b) =
    let k = l - 1 in
    let grown = set out k (get_or out k [] ++ i ∷ []) in
    let same : length grown ≡ length out = length-set out k _ in
    let inside : ltb k (length out) ≡ true = ground arith in
    rw (get_elem?-get_or out k [] (omega arith), inside)
      (extend (group_levels_gathers (i + 1) levels grown (rw same b)))
  where
    extend :
        {r : Option (List (List ℕ))}
        → Returns (Gathered (i + 1) levels (set out (l - 1) (get_or out (l - 1) [] ++ i ∷ []))) r
        → Returns
            (λ out'.
              (x a : ℕ)
              → contains x (get_or out' a []) ≡ (
                  contains x (get_or out a [])
                  || ((x == i && l == suc a) || placed (i + 1) levels x a)))
            r
    extend (returns g) =
        returns (λ x a. ground (arith, g x a, append_at out i (l - 1) a x (omega arith)))
