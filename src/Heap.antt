-- ===== src/Heap.antt =====
-- container/heap of the Go standard library, as pkg/simulation/event.go uses it: Push and Pop over
-- a slice and its Less. An index out of range panics.
pub mod Order
pub mod Up
pub mod Down
use simulator.Common.{
  ℕ, zero, suc, ◌+◌, ◌-◌, ◌*◌, ◌/◌, ◌%◌, ◌^◌, ◌≤◌, ◌<◌, min, ◌≡◌, refl, sym, ap, subst, ◌∙◌, ◌≢◌,
  ◌↔◌, ◌⊎◌, inl, inr, Bool, true, false, not, ◌&&◌, ◌||◌, Option, none, some, List, [], ◌∷◌, ◌++◌,
  map, Mem, Perm, arith, ℕ_discrete, ◌>>=◌, Returns, returns, ltb, leb, ◌==◌, if◌then◌else◌,
  Bool-cases, Option-cases, length, get_elem?, set, get_or, take, drop, replicate, store,
  length-append, length-set, length-take, length-drop, length-replicate, take-append-drop,
  drop-drop, get_elem?-get_or, get_elem?-lt, get_elem?-append, get_elem?-append_end, get_or-set,
  get_or-append, get_or-take,
}

module _ {A : Type 0} (less : A → A → Bool) where
  -- `h.Less(i, j)`
  unfoldable pub less_at : List A → ℕ → ℕ → Option Bool
  less_at a i j = get_elem? a i >>= λ x. get_elem? a j >>= λ y. some (less x y)

  -- `h[i], h[j] = h[j], h[i]`
  unfoldable pub swap : List A → ℕ → ℕ → Option (List A)
  swap a i j = do x ← get_elem? a i; y ← get_elem? a j; b ← store a i y; store b j x

  -- Go's `(j - 1) / 2` is 0 at 0, as it is here.
  unfoldable pub up_loop : ℕ → List A → ℕ → Option (List A)
  up_loop zero a j = none
  up_loop (suc fuel) a j =
      let i = (j - 1) / 2 in
      let rise = swap a i j >>= λ b. up_loop fuel b i in
      let test = less_at a j i >>= λ below. if below then rise else some a in
      if i == j then some a else test

  unfoldable pub up : List A → ℕ → Option (List A)
  up a j = up_loop (j + 1) a j

  -- The child of `i` that comes first; `&&` compares only if the right child exists.
  unfoldable pub first_child : List A → ℕ → ℕ → Option ℕ
  first_child a i n =
      let j1 = 2 * i + 1 in
      let j2 = j1 + 1 in
      let both = less_at a j2 j1 >>= λ right. some (if right then j2 else j1) in
      if ltb j2 n then both else some j1

  unfoldable pub down_loop : ℕ → List A → ℕ → ℕ → Option (List A)
  down_loop zero a i n = none
  down_loop (suc fuel) a i n =
      let sink : ℕ → Option (List A) = λ j. swap a i j >>= λ b. down_loop fuel b j n in
      let step : Option (List A) = do
        j ← first_child a i n
        below ← less_at a j i
        if below then sink j else some a
      in if leb n (2 * i + 1) then some a else step

  unfoldable pub down : List A → ℕ → ℕ → Option (List A)
  down a i n = down_loop (n + 1) a i n

  unfoldable pub push : List A → A → Option (List A)
  push a x = let grown = a ++ x ∷ [] in up grown (length grown - 1)

  -- `h.Pop()` cuts the last entry off.
  unfoldable pub pop : List A → Option (A × List A)
  pop a = do
    let n = length a - 1
    b ← swap a 0 n
    c ← down b 0 n
    x ← get_elem? c n
    some (x, take n c)
