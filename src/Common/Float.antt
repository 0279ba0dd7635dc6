-- ===== src/Common/Float.antt =====
-- float64 values, without the NaNs: what the code computes with simulation times.
use mathlib.Core.Path.{◌≡◌}
use mathlib.Core.Logic.{◌↔◌}
use mathlib.Core.Bool.{Bool, true, false}

pub record Float64 : Type 1 where
  pub Time : Type 0
  pub zero_time : Time
  pub lt : Time → Time → Bool
  pub eq : Time → Time → Bool
  pub add : Time → Time → Time

-- The order of IEEE 754 on values that are not NaN: total, with -0 equal to 0.
pub record IsOrdered (f : Float64) : Type 0 where
  pub lt_asym : (x y : f.Time) → f.lt x y ≡ true → f.lt y x ≡ false
  pub lt_chain : (x y z : f.Time) → f.lt y x ≡ false → f.lt z y ≡ false → f.lt z x ≡ false
  pub eq_iff : (x y : f.Time) → (f.eq x y ≡ true) ↔ ((f.lt x y ≡ false) × (f.lt y x ≡ false))
