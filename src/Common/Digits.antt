-- ===== src/Common/Digits.antt =====
-- Single bits of a word: what `|`, `&` and `&^` with `1 << k` do.
use Prim.Native.Nat.{
  ℕ, zero, suc, ◌+◌, ◌-◌, ◌*◌, ◌/◌, ◌%◌, ◌^◌, ◌≤◌, ◌<◌, min, max, bit_or, bit_and, digits,
  bit_and-bitwise,
}
use mathlib.Core.Path.{◌≡◌, refl, ap, ◌∙◌}
use native.Mathlib.Nat.{pow-suc}
use native.Mathlib.Omega.{arith}
use simulator.Common.Tests.{◌==◌, if◌then◌else◌}
use simulator.Common.Bits.{bit_or_lowest}

-- The bit of a number at a position, 0 or 1.
unfoldable pub digit : ℕ → ℕ → ℕ
digit zero x = x % 2
digit (suc k) x = digit k (x / 2)

-- `x &^ y` clears in `x` the bits of `y`.
unfoldable pub and_not : ℕ → ℕ → ℕ
and_not x y = x - bit_and x y

and_digits : ℕ → ℕ → ℕ → ℕ
and_digits n a b = digits (λ b. zero) min n a b

and_digits_enough : (n m a b : ℕ) → a ≤ n → a ≤ m → and_digits n a b ≡ and_digits m a b
unfolding and_digits
and_digits_enough zero zero a b p q = refl
and_digits_enough zero (suc m) zero b p q = refl
and_digits_enough zero (suc m) (suc a) b p q = absurd (omega arith)
and_digits_enough (suc n) zero zero b p q = refl
and_digits_enough (suc n) zero (suc a) b p q = absurd (omega arith)
and_digits_enough (suc n) (suc m) zero b p q = refl
and_digits_enough (suc n) (suc m) (suc a) b p q =
    omega (arith, and_digits_enough n m (suc a / 2) (b / 2) (omega arith) (omega arith))

zero-bit_and : (b : ℕ) → bit_and 0 b ≡ 0
zero-bit_and b = bit_and-bitwise 0 b

bit_and_lowest : (a b : ℕ) → bit_and a b ≡ bit_and (a / 2) (b / 2) * 2 + min (a % 2) (b % 2)
unfolding and_digits
bit_and_lowest zero b = omega (arith, zero-bit_and b, zero-bit_and (b / 2))
bit_and_lowest (suc a) b = omega (
  arith,
  bit_and-bitwise (suc a) b,
  bit_and-bitwise (suc a / 2) (b / 2),
  and_digits_enough a (suc a / 2) (suc a / 2) (b / 2) (omega arith) (omega arith),
)

bit_and-zero_below : (n a : ℕ) → a ≤ n → bit_and a 0 ≡ 0
bit_and-zero_below n zero h = zero-bit_and 0
bit_and-zero_below zero (suc a) h = absurd (omega arith)
bit_and-zero_below (suc n) (suc a) h =
    omega (arith, bit_and_lowest (suc a) 0, bit_and-zero_below n (suc a / 2) (omega arith))

half_power : (k : ℕ) → 2 ^ suc k / 2 ≡ 2 ^ k
half_power k = omega (arith, pow-suc 2 k)

even_power : (k : ℕ) → 2 ^ suc k % 2 ≡ 0
even_power k = omega (arith, pow-suc 2 k)

pub digit_small : (k x : ℕ) → digit k x < 2
unfolding digit
digit_small zero x = omega arith
digit_small (suc k) x = digit_small k (x / 2)

-- `x & 1<<k` is the bit at its place.
pub bit_and-power : (k x : ℕ) → bit_and x (2 ^ k) ≡ digit k x * 2 ^ k
unfolding digit
bit_and-power zero x =
    let e : bit_and (x / 2) (1 / 2) ≡ 0 = bit_and-zero_below (x / 2) (x / 2) (omega arith) in
    omega (arith, bit_and_lowest x 1, e)
bit_and-power (suc k) x =
    let e : bit_and (x / 2) (2 ^ suc k / 2) ≡ digit k (x / 2) * 2 ^ k =
      ap (bit_and (x / 2)) (half_power k) ∙ bit_and-power k (x / 2) in
    let p : digit k (x / 2) * 2 ^ suc k ≡ digit k (x / 2) * 2 ^ k * 2 =
      rw (pow-suc 2 k) (omega arith) in
    omega (arith, bit_and_lowest x (2 ^ suc k), e, p, even_power k)

pub digit-bit_or : (k x y : ℕ) → digit k (bit_or x y) ≡ max (digit k x) (digit k y)
unfolding digit
digit-bit_or zero x y = omega (arith, bit_or_lowest x y)
digit-bit_or (suc k) x y =
    let e : bit_or x y / 2 ≡ bit_or (x / 2) (y / 2) = omega (arith, bit_or_lowest x y) in
    ap (digit k) e ∙ digit-bit_or k (x / 2) (y / 2)

digit-zero : (k : ℕ) → digit k 0 ≡ 0
unfolding digit
digit-zero zero = refl
digit-zero (suc k) = digit-zero k

pub digit-power : (k j : ℕ) → digit k (2 ^ j) ≡ (if k == j then 1 else 0)
unfolding digit
digit-power zero zero = refl
digit-power zero (suc j) = even_power j ∙ ground arith
digit-power (suc k) zero = digit-zero k ∙ ground arith
digit-power (suc k) (suc j) = ap (digit k) (half_power j) ∙ (digit-power k j ∙ ground arith)

digit_below : (k x : ℕ) → digit k x * 2 ^ k ≤ x
unfolding digit
digit_below zero x = omega arith
digit_below (suc k) x =
    let p : digit k (x / 2) * 2 ^ suc k ≡ digit k (x / 2) * 2 ^ k * 2 =
      rw (pow-suc 2 k) (omega arith) in
    omega (arith, p, digit_below k (x / 2))

cleared : (j k x : ℕ) → digit k (x - digit j x * 2 ^ j) ≡ (if k == j then 0 else digit k x)
unfolding digit
cleared zero zero x = omega arith
cleared zero (suc k) x =
    let e : (x - x % 2 * 1) / 2 ≡ x / 2 = omega arith in ap (digit k) e ∙ ground arith
cleared (suc j) zero x =
    let p : digit j (x / 2) * 2 ^ suc j ≡ digit j (x / 2) * 2 ^ j * 2 =
      rw (pow-suc 2 j) (omega arith) in
    let same : (x - digit j (x / 2) * 2 ^ suc j) % 2 ≡ x % 2 =
      omega (arith, p, digit_below j (x / 2)) in
    same ∙ ground arith
cleared (suc j) (suc k) x =
    let p : digit j (x / 2) * 2 ^ suc j ≡ digit j (x / 2) * 2 ^ j * 2 =
      rw (pow-suc 2 j) (omega arith) in
    let e : (x - digit j (x / 2) * 2 ^ suc j) / 2 ≡ x / 2 - digit j (x / 2) * 2 ^ j =
      omega (arith, p, digit_below j (x / 2)) in
    ap (digit k) e ∙ (cleared j k (x / 2) ∙ ground arith)

pub digit-and_not : (j k x : ℕ) → digit k (and_not x (2 ^ j)) ≡ (if k == j then 0 else digit k x)
unfolding and_not
digit-and_not j k x = ap (λ y. digit k (x - y)) (bit_and-power j x) ∙ cleared j k x
