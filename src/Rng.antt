-- ===== src/Rng.antt =====
-- pkg/rng/rng.go and pkg/simulation/random.go: splitmix64 streams and their bounded draws.
pub mod Uniform
pub mod Words
pub mod Streams
pub mod Draws
mod Tests
use simulator.Common.{
  ℕ, zero, suc, ◌+◌, ◌-◌, ◌*◌, ◌/◌, ◌%◌, ◌^◌, ◌≤◌, ◌<◌, min, ◌≡◌, refl, sym, ap, subst, ◌∙◌, ◌≢◌,
  ◌↔◌, ◌⊎◌, inl, inr, Bool, true, false, not, ◌&&◌, ◌||◌, Option, none, some, List, [], ◌∷◌, ◌++◌,
  map, Mem, Perm, arith, ℕ_discrete, ◌>>=◌, Returns, returns, ltb, leb, ◌==◌, if◌then◌else◌,
  Bool-cases, Option-cases, length, get_elem?, set, get_or, take, drop, replicate, store,
  length-append, length-set, length-take, length-drop, length-replicate, take-append-drop,
  drop-drop, get_elem?-get_or, get_elem?-lt, get_elem?-append, get_elem?-append_end,
  get_elem?-append_lt, get_or-set, get_or-append, get_or-take,
}
use Prim.Native.Nat.{bit_xor}
use simulator.Entity.{u64}

pub record Rng : Type 0 where
  pub state : ℕ

unfoldable pub new_rng : ℕ → Rng
new_rng seed = record { state = seed }

abbrev pub golden : ℕ
golden = 0x9E3779B97F4A7C15

-- `(z ^ (z >> k)) * c` on 64 bits.
unfoldable pub mix_round : ℕ → ℕ → ℕ → ℕ
mix_round k c z = u64 (bit_xor z (z / 2 ^ k) * c)

unfoldable pub mix64 : ℕ → ℕ
mix64 z =
    let a = mix_round 30 0xBF58476D1CE4E5B9 z in
    let b = mix_round 27 0x94D049BB133111EB a in bit_xor b (b / 2 ^ 31)

-- Uint64, which has the lines of mix64.
unfoldable pub uint64 : Rng → ℕ × Rng
uint64 r = let state = u64 (r.state + golden) in (mix64 state, record { state = state })

-- The high and the low word of `bits.Mul64`.
abbrev pub mul_hi : ℕ → ℕ → ℕ
mul_hi x n = x * n / 2 ^ 64

abbrev pub mul_lo : ℕ → ℕ → ℕ
mul_lo x n = x * n % 2 ^ 64

-- `-n % n`
unfoldable pub threshold : ℕ → ℕ
threshold n = u64 (2 ^ 64 - n) % n

-- The loop that draws again while the low word is below the threshold, on fuel.
unfoldable pub redraw : ℕ → ℕ → ℕ → Rng → Option (ℕ × Rng)
redraw zero n x r = if ltb (mul_lo x n) (threshold n) then none else some (mul_hi x n, r)
redraw (suc fuel) n x r =
    let (y, r') = uint64 r in
    let again = redraw fuel n y r' in
    if ltb (mul_lo x n) (threshold n) then again else some (mul_hi x n, r)

-- Uint64n; zero is a panic, and so is fuel that runs out.
unfoldable pub uint64n : ℕ → Rng → ℕ → Option (ℕ × Rng)
uint64n fuel r n =
    let (x, r') = uint64 r in
    let drawn = redraw fuel n x r' in
    if n == 0 then none else if ltb (mul_lo x n) n then drawn else some (mul_hi x n, r')

-- Split and DeriveU64; Derive, which hashes its keys by a library function, takes the hash.
unfoldable pub split : Rng → Rng × Rng
split r = let (x, r') = uint64 r in (new_rng x, r')

unfoldable pub derive_u64 : ℕ → ℕ → Rng
derive_u64 seed stream = new_rng (bit_xor (mix64 seed) (mix64 (u64 (stream + golden))))
