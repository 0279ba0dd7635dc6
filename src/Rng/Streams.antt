-- ===== src/Rng/Streams.antt =====
-- splitmix64 loses nothing: different states give different words, and different stream
-- identifiers give different streams.
use simulator.Common.{ℕ, zero, suc, ◌+◌, ◌*◌, ◌/◌, ◌%◌, ◌^◌, ◌≤◌, ◌<◌, ◌≡◌, sym, ap, ◌∙◌, arith}
use Prim.Native.Nat.{bit_xor}
use native.Mathlib.Nat.{
  pow-suc, div-div-eq-div-mul, div-le_self, pow-succ', div-add-mod, add-mul-mod_self_left,
  mod-eq_of_lt,
}
use simulator.Entity.{u64}
use simulator.Rng.{new_rng, golden, mix_round, mix64, derive_u64}
use simulator.Rng.Words.{bit_xor-lt, bit_xor-half, bit_xor_comm, xor_cancel}

bit_xor-shifted : (k a b : ℕ) → bit_xor a b / 2 ^ k ≡ bit_xor (a / 2 ^ k) (b / 2 ^ k)
bit_xor-shifted zero a b =
    let one : (n : ℕ) → n / 2 ^ 0 ≡ n = λ n. omega arith in
    one (bit_xor a b) ∙ sym (ap (λ n. bit_xor n (b / 2 ^ 0)) (one a) ∙ ap (bit_xor a) (one b))
bit_xor-shifted (suc k) a b =
    let more : (n : ℕ) → n / 2 ^ suc k ≡ n / 2 ^ k / 2 =
      λ n. ap (λ d. n / d) (pow-suc 2 k) ∙ sym (div-div-eq-div-mul n (2 ^ k) 2) in
    more (bit_xor a b)
    ∙ (ap (λ n. n / 2) (bit_xor-shifted k a b)
        ∙ (bit_xor-half (a / 2 ^ k) (b / 2 ^ k)
            ∙ sym (
                ap (λ n. bit_xor n (b / 2 ^ suc k)) (more a)
                ∙ ap (bit_xor (a / 2 ^ k / 2)) (more b))))

-- `z ^ (z >> k)`
abbrev xor_shift : ℕ → ℕ → ℕ
xor_shift k z = bit_xor z (z / 2 ^ k)

shift-small : (k n x : ℕ) → x ≤ suc n → x / 2 ^ suc k ≤ n
shift-small k n x h =
    let less : x / 2 / 2 ^ k ≤ x / 2 = div-le_self (x / 2) (2 ^ k) in
    let swap : x / 2 ^ suc k ≡ x / 2 / 2 ^ k =
      ap (λ d. x / d) (pow-succ' 2 k) ∙ sym (div-div-eq-div-mul x 2 (2 ^ k)) in
    omega (arith, less, swap)

xor_shift_below : (n k x y : ℕ) → x ≤ n → y ≤ n → xor_shift (suc k) x ≡ xor_shift (suc k) y → x ≡ y
xor_shift_below zero k x y p q e = omega arith
xor_shift_below (suc n) k x y p q e =
    let shifted : xor_shift (suc k) (x / 2 ^ suc k) ≡ xor_shift (suc k) (y / 2 ^ suc k) =
      sym (bit_xor-shifted (suc k) x (x / 2 ^ suc k))
      ∙ (ap (λ w. w / 2 ^ suc k) e ∙ bit_xor-shifted (suc k) y (y / 2 ^ suc k)) in
    let same : x / 2 ^ suc k ≡ y / 2 ^ suc k =
      xor_shift_below n k (x / 2 ^ suc k) (y / 2 ^ suc k) (shift-small k n x p)
        (shift-small k n y q) shifted in
    xor_cancel x y (y / 2 ^ suc k) (ap (bit_xor x) (sym same) ∙ e)

xor_shift_injective : (k x y : ℕ) → xor_shift (suc k) x ≡ xor_shift (suc k) y → x ≡ y
xor_shift_injective k x y e = xor_shift_below (x + y) k x y (omega arith) (omega arith) e

-- A product by a number with an inverse modulo 2 ^ 64 can be undone.
recover : (c d e x : ℕ) → c * d ≡ 1 + e * 2 ^ 64 → x < 2 ^ 64 → u64 (x * c) * d % 2 ^ 64 ≡ x
recover c d e x inv p =
    let r : ℕ = x * c % 2 ^ 64 in
    let a : ℕ = x * c / 2 ^ 64 in
    let parts : (2 ^ 64 * a + r) * d ≡ x * c * d = ap (λ t. t * d) (div-add-mod (x * c) (2 ^ 64)) in
    let unit : x * (c * d) ≡ x * (1 + e * 2 ^ 64) = ap (λ t. x * t) inv in
    let sums : r * d + 2 ^ 64 * (a * d) ≡ x + 2 ^ 64 * (x * e) = omega (arith, parts, unit) in
    sym (add-mul-mod_self_left (r * d) (2 ^ 64) (a * d))
    ∙ (ap (λ t. t % 2 ^ 64) sums ∙ (add-mul-mod_self_left x (2 ^ 64) (x * e) ∙ mod-eq_of_lt p))

unscale :
    (c d e x y : ℕ)
    → c * d ≡ 1 + e * 2 ^ 64
    → x < 2 ^ 64
    → y < 2 ^ 64
    → u64 (x * c) ≡ u64 (y * c)
    → x ≡ y
unscale c d e x y inv p q h =
    sym (recover c d e x inv p) ∙ (ap (λ t. t * d % 2 ^ 64) h ∙ recover c d e y inv q)

xor_shift-lt : (k z : ℕ) → z < 2 ^ 64 → xor_shift k z < 2 ^ 64
xor_shift-lt k z h = bit_xor-lt 64 z (z / 2 ^ k) h (omega (arith, div-le_self z (2 ^ k)))

-- Each round of the finalizer can be undone.
round_injective :
    (k c d e x y : ℕ)
    → c * d ≡ 1 + e * 2 ^ 64
    → x < 2 ^ 64
    → y < 2 ^ 64
    → mix_round (suc k) c x ≡ mix_round (suc k) c y
    → x ≡ y
unfolding mix_round
round_injective k c d e x y inv p q h = xor_shift_injective k x y (
    unscale c d e (xor_shift (suc k) x) (xor_shift (suc k) y) inv (xor_shift-lt (suc k) x p)
      (xor_shift-lt (suc k) y q) h)

mix_round-lt : (k c z : ℕ) → mix_round k c z < 2 ^ 64
unfolding mix_round
mix_round-lt k c z = omega arith

pub mix64-lt : (z : ℕ) → mix64 z < 2 ^ 64
unfolding mix64
mix64-lt z =
    xor_shift-lt 31 (mix_round 27 0x94D049BB133111EB (mix_round 30 0xBF58476D1CE4E5B9 z))
      (mix_round-lt 27 0x94D049BB133111EB (mix_round 30 0xBF58476D1CE4E5B9 z))

-- mix64 is injective on 64-bit words.
mix64_injective : (x y : ℕ) → x < 2 ^ 64 → y < 2 ^ 64 → mix64 x ≡ mix64 y → x ≡ y
unfolding mix64
mix64_injective x y p q h =
    let first = mix_round 30 0xBF58476D1CE4E5B9 in
    let second = mix_round 27 0x94D049BB133111EB in
    let rounds : second (first x) ≡ second (first y) =
      xor_shift_injective 30 (second (first x)) (second (first y)) h in
    round_injective 29 0xBF58476D1CE4E5B9 0x96de1b173f119089 0x70c3bca78f27f46c x y (omega arith) p
      q
      (round_injective 26 0x94D049BB133111EB 0x319642b2d24d8ec3 0x1cd336eda85f1453 (first x)
        (first y) (omega arith) (mix_round-lt 30 0xBF58476D1CE4E5B9 x)
        (mix_round-lt 30 0xBF58476D1CE4E5B9 y) rounds)

-- From one seed, different 64-bit stream identifiers derive streams with different states.
derive_u64_injective :
    (seed s t : ℕ) → s < 2 ^ 64 → t < 2 ^ 64 → derive_u64 seed s ≡ derive_u64 seed t → s ≡ t
unfolding derive_u64 new_rng
derive_u64_injective seed s t p q h =
    let states : bit_xor (mix64 seed) (mix64 (u64 (s + golden)))
        ≡ bit_xor (mix64 seed) (mix64 (u64 (t + golden))) =
      ap (λ r. r.state) h in
    let mixed : mix64 (u64 (s + golden)) ≡ mix64 (u64 (t + golden)) =
      xor_cancel (mix64 (u64 (s + golden))) (mix64 (u64 (t + golden))) (mix64 seed) (
        bit_xor_comm (mix64 (u64 (s + golden))) (mix64 seed)
        ∙ (states ∙ bit_xor_comm (mix64 seed) (mix64 (u64 (t + golden))))) in
    omega (
      arith,
      mix64_injective (u64 (s + golden)) (u64 (t + golden)) (omega arith) (omega arith) mixed,
    )
