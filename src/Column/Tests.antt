-- ===== src/Column/Tests.antt =====
-- The theorems about columns at a concrete column.
use simulator.Common.{
  ℕ, zero, suc, ◌+◌, ◌^◌, ◌<◌, ◌≡◌, refl, none, some, [], ◌∷◌, arith, Returns, get_or,
}
use simulator.Entity.{index}
use simulator.Column.{Column, get, set_value}
use simulator.Column.View.{IsColumn, view, get-view, IsWritten, set_value_correct}

-- The value 7 for the entity with index 0 and generation 1.
abbrev one_value : Column ℕ
one_value = record { sparse = 1 ∷ []; dense = 1 ∷ []; values = 7 ∷ []; bump = none }

only_zero : (i : ℕ) → 0 < get_or {A = ℕ} (1 ∷ []) i 0 → i ≡ 0
only_zero zero h = refl
only_zero (suc i) h = absurd (omega arith)

one_value-IsColumn : IsColumn one_value
one_value-IsColumn = record {
  paired = refl;
  fits = omega arith;
  listed = λ p h. let e : p ≡ 0 = omega arith in rw e refl;
  pointed = λ i h. let e : i ≡ 0 = only_zero i h in rw e (omega arith, refl);
}

get-view_example : get one_value 2 ≡ some (view one_value (index 2))
get-view_example = get-view one_value one_value-IsColumn 2

set_value_correct_example :
    Returns (IsWritten one_value (2 ^ 32 + 1) 9 3) (set_value one_value (2 ^ 32 + 1) 9 3)
set_value_correct_example =
    set_value_correct one_value one_value-IsColumn (2 ^ 32 + 1) 9 3 (omega arith)

-- A second value, for the entity with index 1.
abbrev two_values : Column ℕ
two_values = record {
  sparse = 1 ∷ 2 ∷ [];
  dense = 1 ∷ 4294967297 ∷ [];
  values = 7 ∷ 8 ∷ [];
  bump = none;
}
