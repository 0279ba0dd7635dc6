-- ===== src/Runtime/Tests.antt =====
-- The theorems about the lifecycle at concrete simulations: the world counts its steps down.
use simulator.Common.{ℕ, zero, suc, ◌≡◌, refl, none, some, [], arith, ◌>>=◌}
use simulator.Runtime.{
  State, completed, Outcome, more, nothing_left, Simulation, returned, new_simulation, begin, run_n,
  run_loop, run_limited, advance, at_head, at_check, at_step, complete, finalize,
}
use simulator.Runtime.Lifecycle.{here, next, acts, begins, IsConsistent, Reach-IsConsistent}
use simulator.Runtime.Bounded.{run_n_exact}

abbrev count_down : ℕ → ℕ × Outcome ℕ
count_down zero = (0, nothing_left)
count_down (suc k) = (k, more)

abbrev fresh : Simulation ℕ ℕ
fresh = record { state = State.idle; err = none; steps = 0; world = 5; cancel = none; loops = [] }

three_steps :
    (run_n count_down 3 fresh >>= λ (r, s). let x : ℕ × ℕ = (s.steps, s.world) in some x)
    ≡ some (3, 2)
unfolding run_n run_limited begin run_loop advance at_head at_check at_step complete finalize
three_steps = refl

Reach-IsConsistent_example : IsConsistent (begin (new_simulation {W = ℕ} {E = ℕ} 5)).1
Reach-IsConsistent_example = Reach-IsConsistent count_down none 5 (next here (acts begins))

run_n_exact_example :
    (t : Simulation ℕ ℕ) × (run_n count_down 3 fresh ≡ some (returned none, t))
    × (t.state ≡ completed)
    × (t.err ≡ none)
    × (t.steps ≡ 3)
    × (t.world ≡ 2)
run_n_exact_example = run_n_exact count_down 3 fresh refl (omega arith) (refl, (refl, (refl, tt)))
