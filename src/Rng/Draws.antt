-- ===== src/Rng/Draws.antt =====
-- Uint64n takes the first word of the stream that is not drawn again.
use simulator.Common.{
  ℕ, zero, suc, ◌+◌, ◌-◌, ◌*◌, ◌^◌, ◌<◌, ◌≡◌, refl, ◌⊎◌, inl, inr, Bool, true, false, Option, some,
  arith, ltb, ◌==◌, Bool-cases,
}
use native.Mathlib.Nat.{mod-lt}
use simulator.Entity.{u64}
use simulator.Rng.{Rng, uint64, threshold, mul_hi, mul_lo, redraw, uint64n}
use simulator.Rng.Streams.{mix64-lt}

-- The stream after some draws, and the word that comes next.
unfoldable pub after : ℕ → Rng → Rng
after zero r = r
after (suc k) r = after k (uint64 r).1

abbrev pub word : ℕ → Rng → ℕ
word k r = (uint64 (after k r)).0

unfoldable pub is_redrawn : ℕ → ℕ → Bool
is_redrawn n x = ltb (mul_lo x n) (threshold n)

module _ (n : ℕ) where
  threshold-lt : 0 < n → threshold n < n
  unfolding threshold
  threshold-lt h = mod-lt (u64 (2 ^ 64 - n)) h

  redraw_first :
      (k : ℕ) (r : Rng)
      → ((j : ℕ) → j < k → is_redrawn n (word j r) ≡ true)
      → is_redrawn n (word k r) ≡ false
      → redraw k n (word 0 r) (uint64 r).1 ≡ some (mul_hi (word k r) n, after (suc k) r)
  unfolding redraw is_redrawn after
  redraw_first zero r rejected good = rw good refl
  redraw_first (suc k) r rejected good =
      rw (rejected 0 (omega arith))
        (redraw_first k (uint64 r).1 (λ j l. rejected (suc j) (omega arith)) good)

  -- A word that need not be compared with the threshold is not drawn again.
  early : (x : ℕ) → 0 < n → ltb (mul_lo x n) n ≡ false → is_redrawn n x ≡ false
  unfolding is_redrawn
  early x h e = ground (arith, threshold-lt h)

  word-lt : (k : ℕ) (r : Rng) → word k r < 2 ^ 64
  unfolding uint64
  word-lt k r = mix64-lt (u64 ((after k r).state + 0x9E3779B97F4A7C15))

  -- For a bound above zero, if a word of the stream is the first that is not drawn again, that many
  -- rounds of the loop are enough: Uint64n answers the value of that word, which is below the bound,
  -- and leaves the stream behind it.
  pub uint64n_correct :
      (k : ℕ) (r : Rng)
      → 0 < n
      → ((j : ℕ) → j < k → is_redrawn n (word j r) ≡ true)
      → is_redrawn n (word k r) ≡ false
      → (uint64n k r n ≡ some (mul_hi (word k r) n, after (suc k) r)) × (mul_hi (word k r) n < n)
  unfolding uint64n after uint64
  uint64n_correct k r pos rejected good = (drawn (Bool-cases (ltb (mul_lo (word 0 r) n) n)), below)
    where
      nonzero : (n == 0) ≡ false
      nonzero = ground arith

      below : mul_hi (word k r) n < n
      below = let most : word k r * n < 2 ^ 64 * n = grind (arith, word-lt k r) in omega arith

      at_once :
          (k : ℕ)
          → is_redrawn n (word 0 r) ≡ false
          → ((j : ℕ) → j < k → is_redrawn n (word j r) ≡ true)
          → ◌≡◌ {A = Option (ℕ × Rng)}
              (some (mul_hi (word 0 r) n, (uint64 r).1))
              (some (mul_hi (word k r) n, after (suc k) r))
      at_once zero e rejected = refl
      at_once (suc k) e rejected = cc (e, rejected 0 (omega arith))

      drawn :
          (ltb (mul_lo (word 0 r) n) n ≡ true) ⊎ (ltb (mul_lo (word 0 r) n) n ≡ false)
          → uint64n k r n ≡ some (mul_hi (word k r) n, after (suc k) r)
      drawn (inl close) = rw (nonzero, close) (redraw_first k r rejected good)
      drawn (inr clear) = rw (nonzero, clear) (at_once k (early (word 0 r) pos clear) rejected)
