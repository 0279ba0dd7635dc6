-- ===== src/Scheduler/Levels.antt =====
-- dependencyLevels: conflicting systems are serialized in their declared order.
use simulator.Common.{
  ℕ, zero, suc, ◌+◌, ◌≤◌, ◌<◌, ◌≡◌, refl, ap, true, ◌&&◌, List, [], ◌∷◌, ◌++◌, some, arith, ltb,
  if◌then◌else◌, length, get_elem?, get_or, get_elem?-append, get_elem?-append_end,
}
use simulator.Scheduler.{System, conflicts, level_above, assign_levels}

level_above-ge :
    (s : System) (before : List (System × ℕ)) (lvl : ℕ) → lvl ≤ level_above s before lvl
unfolding level_above
level_above-ge s [] lvl = omega arith
level_above-ge s ((t, l) ∷ before) lvl =
    ground (arith, level_above-ge s before (if conflicts s t && ltb lvl l then l else lvl))

level_above-conflict :
    (s t : System) (l : ℕ) (before : List (System × ℕ)) (lvl k : ℕ)
    → get_elem? before k ≡ some (t, l)
    → conflicts s t ≡ true
    → l ≤ level_above s before lvl
unfolding level_above
level_above-conflict s t l [] lvl k e c = ground arith
level_above-conflict s t l ((u, m) ∷ before) lvl zero e c =
    ground (arith, level_above-ge s before (if conflicts s u && ltb lvl m then m else lvl))
level_above-conflict s t l ((u, m) ∷ before) lvl (suc k) e c =
    level_above-conflict s t l before _ k e c

assign_levels-before :
    (before : List (System × ℕ)) (rest : List System) (s t : System) (l i k : ℕ)
    → get_elem? rest i ≡ some s
    → get_elem? before k ≡ some (t, l)
    → conflicts s t ≡ true
    → l < get_or (assign_levels before rest) i 0
unfolding assign_levels
assign_levels-before before [] s t l i k e f c = ground arith
assign_levels-before before (u ∷ rest) s t l zero k e f c =
    let e' : u ≡ s = ground arith in
    let c' : conflicts u t ≡ true = rw e' c in
    omega (arith, level_above-conflict u t l before 0 k f c')
assign_levels-before before (u ∷ rest) s t l (suc i) k e f c =
    assign_levels-before (before ++ (u, level_above u before 0 + 1) ∷ []) rest s t l i k e
      (get_elem?-append before _ k f) c

-- An earlier system that conflicts has a lower level.
pub assign_levels-lt :
    (before : List (System × ℕ)) (rest : List System) (s t : System) (i j : ℕ)
    → get_elem? rest i ≡ some s
    → get_elem? rest j ≡ some t
    → j < i
    → conflicts s t ≡ true
    → get_or (assign_levels before rest) j 0 < get_or (assign_levels before rest) i 0
unfolding assign_levels
assign_levels-lt before [] s t i j e f h c = ground arith
assign_levels-lt before (u ∷ rest) s t zero j e f h c = absurd (omega arith)
assign_levels-lt before (u ∷ rest) s t (suc i) zero e f h c =
    let f' : u ≡ t = ground arith in
    let c' : conflicts s u ≡ true = rw f' c in
    assign_levels-before (before ++ (u, level_above u before 0 + 1) ∷ []) rest s u _ i
      (length before) e (get_elem?-append_end before [] _) c'
assign_levels-lt before (u ∷ rest) s t (suc i) (suc j) e f h c =
    assign_levels-lt (before ++ (u, level_above u before 0 + 1) ∷ []) rest s t i j e f (omega arith)
      c

pub length-assign_levels :
    (before : List (System × ℕ)) (rest : List System)
    → length (assign_levels before rest) ≡ length rest
unfolding assign_levels
length-assign_levels before [] = refl
length-assign_levels before (s ∷ rest) =
    ap suc (length-assign_levels (before ++ (s, level_above s before 0 + 1) ∷ []) rest)
