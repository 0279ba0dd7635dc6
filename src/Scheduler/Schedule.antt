-- ===== src/Scheduler/Schedule.antt =====
-- dependencyLevels as a whole: what the scheduler relies on.
use simulator.Common.{
  ℕ, zero, suc, ◌+◌, ◌-◌, ◌≤◌, ◌<◌, ◌≡◌, refl, inl, inr, true, false, Option, some, List, [], ◌∷◌,
  ◌++◌, arith, Returns, returns, ltb, ◌==◌, if◌then◌else◌, Bool-cases, length, get_elem?, get_or,
  replicate, length-replicate, get_elem?-get_or, get_elem?-lt,
}
use simulator.Scheduler.{
  System, contains, conflicts, level_above, assign_levels, max_level, dependency_levels,
}
use simulator.Scheduler.Counting.{count, Counted, group_levels_counts}
use simulator.Scheduler.Levels.{assign_levels-lt, length-assign_levels}
use simulator.Scheduler.Grouping.{
  placed→level, level→placed, AllBounded, Gathered, group_levels_gathers,
}

max_level-ge : (m : ℕ) (levels : List ℕ) → m ≤ max_level m levels
unfolding max_level
max_level-ge m [] = omega arith
max_level-ge m (l ∷ levels) = ground (arith, max_level-ge (if ltb m l then l else m) levels)

max_level_bounds :
    (before : List (System × ℕ)) (rest : List System) (m b : ℕ)
    → max_level m (assign_levels before rest) ≤ b
    → AllBounded b (assign_levels before rest)
unfolding assign_levels max_level
max_level_bounds before [] m b h = tt
max_level_bounds before (s ∷ rest) m b h =
    let l : ℕ = level_above s before 0 + 1 in
    let top : ℕ = if ltb m l then l else m in
    (
      omega arith,
      ground (arith, max_level-ge top (assign_levels (before ++ (s, l) ∷ []) rest)),
      max_level_bounds (before ++ (s, l) ∷ []) rest top b h,
    )

levels_pos :
    (before : List (System × ℕ)) (rest : List System) (i : ℕ)
    → i < length rest
    → 0 < get_or (assign_levels before rest) i 0
unfolding assign_levels
levels_pos before [] i h = absurd (omega arith)
levels_pos before (s ∷ rest) zero h = omega arith
levels_pos before (s ∷ rest) (suc i) h =
    levels_pos (before ++ (s, level_above s before 0 + 1) ∷ []) rest i (omega arith)

contains-replicate : (m x a : ℕ) → contains x (get_or (replicate m []) a []) ≡ false
unfolding contains
contains-replicate zero x a = refl
contains-replicate (suc m) x zero = refl
contains-replicate (suc m) x (suc a) = contains-replicate m x a

-- The level of a system, as an index into the result.
abbrev IsLevelOf : List System → ℕ → ℕ → Type 0
IsLevelOf systems i a = get_elem? (assign_levels [] systems) i ≡ some (suc a)

abbrev Levelled : List System → List (List ℕ) → Type 0
Levelled systems out =
    (i a : ℕ)
    → ((contains i (get_or out a []) ≡ true) → IsLevelOf systems i a)
      × (IsLevelOf systems i a → contains i (get_or out a []) ≡ true)

-- No level names a system twice.
abbrev Single : List (List ℕ) → Type 0
Single out = (i a : ℕ) → count i (get_or out a []) ≤ 1

empty-Counted : (m : ℕ) → Counted 0 (replicate m [])
unfolding count
empty-Counted m x a = rw (empty_level m a) (omega arith, λ _. refl)
  where
    empty_level : (m a : ℕ) → get_or {A = List ℕ} (replicate m []) a [] ≡ []
    empty_level zero a = refl
    empty_level (suc m) zero = refl
    empty_level (suc m) (suc a) = empty_level m a

Returns-both :
    {P Q : List (List ℕ) → Type 0} {r : Option (List (List ℕ))}
    → Returns P r
    → Returns Q r
    → Returns (λ out. P out × Q out) r
Returns-both (returns p) (returns q) = returns (p, q)

Gathered→Levelled :
    (systems : List System) (m : ℕ) (out : List (List ℕ))
    → Gathered 0 (assign_levels [] systems) (replicate m []) out
    → Levelled systems out
Gathered→Levelled systems m out g i a =
    let blank = contains-replicate m i a in
    (
      (λ h.
          let from_zero : i - 0 ≡ i = omega arith in
          rw from_zero at
            ((placed→level 0 (assign_levels [] systems) i a (ground (arith, g i a, blank))).1)),
      (λ h. ground (arith, g i a, level→placed 0 (assign_levels [] systems) i a h)),
    )

Returns-Levelled :
    (systems : List System) (m : ℕ) {r : Option (List (List ℕ))}
    → Returns (Gathered 0 (assign_levels [] systems) (replicate m [])) r
    → Returns (Levelled systems) r
Returns-Levelled systems m (returns {a = out} g) = returns (Gathered→Levelled systems m out g)

no_systems : (systems : List System) → max_level 0 (assign_levels [] systems) ≡ 0 → systems ≡ []
unfolding assign_levels max_level
no_systems [] h = refl
no_systems (s ∷ rest) h =
    let l : ℕ = level_above s [] 0 + 1 in
    absurd (ground (arith, max_level-ge l (assign_levels ((s, l) ∷ []) rest), h))

dependency_levels-Levelled :
    (systems : List System) → Returns (Levelled systems) (dependency_levels systems)
unfolding dependency_levels contains assign_levels
dependency_levels-Levelled systems =
    elim (Bool-cases (max_level 0 (assign_levels [] systems) == 0)) [
      | inl none_left ↦ rw none_left (returns (empty_case (no_systems systems (ground arith))))
      | inr some_left ↦
          let m = max_level 0 (assign_levels [] systems) in
          rw some_left (
            Returns-Levelled systems m (
              group_levels_gathers 0 (assign_levels [] systems) (replicate m []) (
                rw (length-replicate {A = List ℕ} m [])
                  (max_level_bounds [] systems 0 m (omega arith)))))
    ]
  where
    empty_case : systems ≡ [] → Levelled systems []
    empty_case e i a = rw e ((λ h. cc), (λ h. cc))

dependency_levels-Single : (systems : List System) → Returns Single (dependency_levels systems)
unfolding dependency_levels count
dependency_levels-Single systems = elim (Bool-cases (max_level 0 (assign_levels [] systems) == 0)) [
  | inl none_left ↦ rw none_left (returns (λ i a. omega arith))
  | inr some_left ↦
      let m = max_level 0 (assign_levels [] systems) in
      rw some_left (
        few (
          group_levels_counts 0 (assign_levels [] systems) (replicate m [])
            (rw (length-replicate {A = List ℕ} m [])
              (max_level_bounds [] systems 0 m (omega arith)))
            (empty-Counted m)))
]
  where
    few : {n : ℕ} {r : Option (List (List ℕ))} → Returns (Counted n) r → Returns Single r
    few (returns c) = returns (λ i a. (c i a).0)

-- What the levels guarantee to `run`.
pub record IsSchedule (systems : List System) (out : List (List ℕ)) : Type 0 where
  pub known : (i a : ℕ) → contains i (get_or out a []) ≡ true → i < length systems
  pub complete : (i : ℕ) → i < length systems → (a : ℕ) × (contains i (get_or out a []) ≡ true)
  pub once :
      (i a b : ℕ)
      → contains i (get_or out a []) ≡ true
      → contains i (get_or out b []) ≡ true
      → a ≡ b
  pub single : (i a : ℕ) → count i (get_or out a []) ≤ 1
  pub serialized :
      (i j a b : ℕ) (s t : System)
      → get_elem? systems i ≡ some s
      → get_elem? systems j ≡ some t
      → j < i
      → conflicts s t ≡ true
      → contains i (get_or out a []) ≡ true
      → contains j (get_or out b []) ≡ true
      → b < a

Levelled→IsSchedule :
    (systems : List System) (out : List (List ℕ))
    → Levelled systems out
    → Single out
    → IsSchedule systems out
Levelled→IsSchedule systems out lv few = record {
  single = few;
  known = λ i a h. omega (
    arith,
    get_elem?-lt (assign_levels [] systems) i ((lv i a).0 h),
    length-assign_levels [] systems,
  );
  complete = λ i h.
      let size = length-assign_levels [] systems in
      let e = get_elem?-get_or (assign_levels [] systems) i 0 (omega (arith, size)) in
      let pos = levels_pos [] systems i h in
      let k = get_or (assign_levels [] systems) i 0 - 1 in
      let e' : get_elem? (assign_levels [] systems) i ≡ some (suc k) = ground (arith, e) in
      (k, (lv i k).1 e');
  once = λ i a b h k. ground (arith, (lv i a).0 h, (lv i b).0 k);
  serialized = λ i j a b s t es et lt c h k.
      let below = assign_levels-lt [] systems s t i j es et lt c in
      let li = level_or (assign_levels [] systems) i ((lv i a).0 h) in
      let lj = level_or (assign_levels [] systems) j ((lv j b).0 k) in omega (arith, below, li, lj);
}
  where
    level_or :
        (levels : List ℕ) (i : ℕ) {l : ℕ} → get_elem? levels i ≡ some l → get_or levels i 0 ≡ l
    level_or levels i e = ground (arith, get_elem?-get_or levels i 0 (get_elem?-lt levels i e))

-- The computed levels name every system exactly once, and nothing else; a system stands on a
-- strictly higher level than each earlier system in the declared order that it conflicts with.
pub dependency_levels_correct :
    (systems : List System) → Returns (IsSchedule systems) (dependency_levels systems)
dependency_levels_correct systems =
    lift (Returns-both (dependency_levels-Levelled systems) (dependency_levels-Single systems))
  where
    lift :
        {r : Option (List (List ℕ))}
        → Returns (λ out. Levelled systems out × Single out) r
        → Returns (IsSchedule systems) r
    lift (returns {a = out} (lv, few)) = returns (Levelled→IsSchedule systems out lv few)
