-- ===== src/Rng/Uniform.antt =====
-- The draws that Uint64n accepts: each value has as many of them as any other.
use simulator.Common.{
  ℕ, zero, suc, ◌+◌, ◌-◌, ◌*◌, ◌/◌, ◌%◌, ◌^◌, ◌≤◌, ◌<◌, min, ◌≡◌, refl, sym, ap, ◌∙◌, ◌↔◌, Bool,
  not, ◌&&◌, arith, ltb, leb, ◌==◌, if◌then◌else◌,
}
use native.Mathlib.Nat.{mod-eq-sub-mod, div-add-mod, mul_comm, le-div_iff_mul-le, add-mul-div_left}
use simulator.Entity.{u64}
use simulator.Rng.{threshold, mul_hi, mul_lo}

-- How many numbers below `m` pass a test.
pub count_below : (ℕ → Bool) → ℕ → ℕ
count_below p zero = 0
count_below p (suc m) = count_below p m + (if p m then 1 else 0)

-- The word `x` is not drawn again, and stands for the value `v`.
pub accepts : ℕ → ℕ → ℕ → Bool
accepts n v x = not (ltb (mul_lo x n) (threshold n)) && mul_hi x n == v

abbrev between : ℕ → ℕ → ℕ → Bool
between lo hi x = leb lo x && ltb x hi

count-same :
    (p q : ℕ → Bool) (m : ℕ) → ((x : ℕ) → x < m → p x ≡ q x) → count_below p m ≡ count_below q m
unfolding count_below
count-same p q zero h = refl
count-same p q (suc m) h =
    ground (arith, count-same p q m (λ x l. h x (omega arith)), h m (omega arith))

count-between : (lo k m : ℕ) → count_below (between lo (lo + k)) m ≡ min m (lo + k) - min m lo
unfolding count_below
count-between lo k zero = omega arith
count-between lo k (suc m) = ground (arith, count-between lo k m)

-- The smallest multiple of `n` that reaches `a`.
abbrev ceiling : ℕ → ℕ → ℕ
ceiling a n = (a + (n - 1)) / n

below-ceiling : (a n x : ℕ) → 0 < n → (x < ceiling a n) ↔ (x * n < a)
below-ceiling a n x h =
    let (to, from) = le-div_iff_mul-le {k = n} {x = suc x} {y = a + (n - 1)} h in
    let next : suc x * n ≡ x * n + n = grind arith in
    (λ l. omega (arith, to l, next), λ l. from (omega (arith, next)))

ceiling-shift : (a n q : ℕ) → 0 < n → ceiling (a + q * n) n ≡ ceiling a n + q
ceiling-shift a n q h =
    let swap : a + q * n + (n - 1) ≡ a + (n - 1) + n * q = grind arith in
    ap (λ k. k / n) swap ∙ add-mul-div_left (a + (n - 1)) q h

threshold-eq : (n : ℕ) → 0 < n → n ≤ 2 ^ 64 → threshold n ≡ 2 ^ 64 % n
unfolding threshold
threshold-eq n h l =
    let word : u64 (2 ^ 64 - n) ≡ 2 ^ 64 - n = omega arith in
    ap (λ k. k % n) word ∙ sym (mod-eq-sub-mod {n = 2 ^ 64} {m = n} l)

module _ (n v : ℕ) (pos : 0 < n) (small : n ≤ 2 ^ 64) (within : v < n) where
  abbrev share : ℕ
  share = 2 ^ 64 / n

  -- The products `x * n` of the accepted words reach from here on over `share` multiples of `n`.
  abbrev start : ℕ
  start = v * 2 ^ 64 + 2 ^ 64 % n

  words : share * n + 2 ^ 64 % n ≡ 2 ^ 64
  words =
      let parts : n * (2 ^ 64 / n) + 2 ^ 64 % n ≡ 2 ^ 64 = div-add-mod (2 ^ 64) n in
      let swap : share * n ≡ n * (2 ^ 64 / n) = mul_comm share n in omega (arith, parts, swap)

  accepts_by_product :
      (x : ℕ) → accepts n v x ≡ (leb start (x * n) && ltb (x * n) (start + share * n))
  unfolding accepts
  accepts_by_product x = ground (arith, threshold-eq n pos small, words)

  accepts-between : (x : ℕ) → accepts n v x ≡ between (ceiling start n) (ceiling start n + share) x
  accepts-between x =
      let lower = below-ceiling start n x pos in
      let upper = below-ceiling (start + share * n) n x pos in
      let shift = ceiling-shift start n share pos in
      ground (arith, accepts_by_product x, lower, upper, shift)

  last_word : ceiling start n + share ≤ 2 ^ 64
  last_word =
      let upper = below-ceiling (start + share * n) n (2 ^ 64) pos in
      let shift = ceiling-shift start n share pos in
      let most : v * 2 ^ 64 + 2 ^ 64 ≤ 2 ^ 64 * n = omega arith in
      ground (arith, upper, shift, words, most)

  -- The draws of Uint64n are uniform: for a bound of at most 2 ^ 64 and each value below it, exactly
  -- 2 ^ 64 / n of the 64-bit words are accepted and give that value.
  pub accepts_uniform : count_below (accepts n v) (2 ^ 64) ≡ 2 ^ 64 / n
  accepts_uniform =
      count-same (accepts n v) (between (ceiling start n) (ceiling start n + share)) (2 ^ 64)
        (λ x l. accepts-between x)
      ∙ (count-between (ceiling start n) share (2 ^ 64) ∙ omega (arith, last_word))
