-- ===== src/Rng/Tests.antt =====
-- Streams and draws at concrete seeds.
use simulator.Common.{◌/◌, ◌^◌, ◌<◌, ◌≡◌, refl, some, arith}
use simulator.Rng.{new_rng, mix_round, mix64, uint64, threshold, mul_hi, uint64n}
use simulator.Rng.Uniform.{count_below, accepts, accepts_uniform}
use simulator.Rng.Draws.{after, word, is_redrawn, uint64n_correct}

-- The first word of seed 0, the published test vector of splitmix64.
first_word : (uint64 (new_rng 0)).0 ≡ 0xe220a8397b1dcdaf
unfolding uint64 new_rng mix64 mix_round
first_word = refl

accepts_uniform_example : count_below (accepts 6 5) (2 ^ 64) ≡ 2 ^ 64 / 6
accepts_uniform_example = accepts_uniform 6 5 (omega arith) (omega arith) (omega arith)

uint64n_correct_example :
    (uint64n 0 (new_rng 0) 10 ≡ some (mul_hi (word 0 (new_rng 0)) 10, after 1 (new_rng 0)))
    × (mul_hi (word 0 (new_rng 0)) 10 < 10)
unfolding is_redrawn after uint64 mix64 mix_round threshold new_rng
uint64n_correct_example =
    uint64n_correct 10 0 (new_rng 0) (omega arith) (λ j l. absurd (omega arith)) refl
