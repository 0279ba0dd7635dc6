-- ===== src/Scheduler.antt =====
-- pkg/simulation/scheduler.go and system.go: systems, their conflicts and their levels.
mod Tests
pub mod Levels
pub mod Grouping
pub mod Counting
pub mod Schedule
pub mod Partition
use simulator.Common.{
  ℕ, zero, suc, ◌+◌, ◌-◌, ◌/◌, ◌*◌, Bool, false, true, ◌||◌, ◌&&◌, List, [], ◌∷◌, ◌++◌, Option,
  none, some, ◌>>=◌, ltb, leb, ◌==◌, if◌then◌else◌, length, get_elem?, store, replicate, take, drop,
}

-- What a `System` declares; a `SerialSystem` is one whose Serial() holds.
pub record System : Type 0 where
  pub reads : List ℕ
  pub writes : List ℕ
  pub serial : Bool

unfoldable pub contains : ℕ → List ℕ → Bool
contains x [] = false
contains x (y ∷ ys) = x == y || contains x ys

unfoldable pub intersects_write : List ℕ → List ℕ → Bool
intersects_write [] other = false
intersects_write (w ∷ writes) other = contains w other || intersects_write writes other

unfoldable pub conflicts : System → System → Bool
conflicts a b =
    intersects_write a.writes b.reads
    || (intersects_write a.writes b.writes || intersects_write b.writes a.reads)

-- The inner loop over the systems before `s`, each with its level.
unfoldable pub level_above : System → List (System × ℕ) → ℕ → ℕ
level_above s [] lvl = lvl
level_above s ((t, l) ∷ before) lvl =
    level_above s before (if conflicts s t && ltb lvl l then l else lvl)

-- The slice `levels`, which the outer loop fills from left to right.
unfoldable pub assign_levels : List (System × ℕ) → List System → List ℕ
assign_levels before [] = []
assign_levels before (s ∷ rest) =
    let l = level_above s before 0 + 1 in l ∷ assign_levels (before ++ (s, l) ∷ []) rest

unfoldable pub max_level : ℕ → List ℕ → ℕ
max_level m [] = m
max_level m (l ∷ levels) = max_level (if ltb m l then l else m) levels

-- `out[levels[i]-1] = append(out[levels[i]-1], i)`, from index `i` on.
unfoldable pub group_levels : ℕ → List ℕ → List (List ℕ) → Option (List (List ℕ))
group_levels i [] out = some out
group_levels i (l ∷ levels) out = do
  level ← get_elem? out (l - 1)
  grown ← store out (l - 1) (level ++ i ∷ [])
  group_levels (i + 1) levels grown

unfoldable pub dependency_levels : List System → Option (List (List ℕ))
dependency_levels systems =
    let levels = assign_levels [] systems in
    let m = max_level 0 levels in if m == 0 then some [] else group_levels 0 levels (replicate m [])

-- The shards from number `i` on, `left` of them: `entities[i*chunk : min(i*chunk+chunk, n)]`.
unfoldable pub shards_from : List ℕ → ℕ → ℕ → ℕ → List (List ℕ)
shards_from entities chunk i zero = []
shards_from entities chunk i (suc left) =
    (if leb n start then [] else take (end - start) (drop start entities))
    ∷ shards_from entities chunk (i + 1) left
  where
    n : ℕ
    n = length entities

    start : ℕ
    start = i * chunk

    end : ℕ
    end = if ltb n (start + chunk) then n else start + chunk

-- A division by zero panics: `none`.
unfoldable pub partition : List ℕ → ℕ → Option (List (List ℕ))
partition entities workers =
    let n = length entities in
    let w = if ltb n workers then n else workers in
    let chunk = (n + w - 1) / w in
    if leb workers 1
    then some (entities ∷ [])
    else if w == 0
    then none
    else some (shards_from entities chunk 0 w)
