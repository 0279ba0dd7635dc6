-- ===== src/Column/Removed.antt =====
-- Column.Remove: the last member fills the place that becomes free.
use simulator.Common.{
  ℕ, ◌+◌, ◌-◌, ◌<◌, ◌≡◌, Bool, true, false, none, ◌==◌, if◌then◌else◌, length, set, get_or, take,
}
use simulator.Entity.{index, call}
use simulator.Column.{Column, has}
use simulator.Column.View.{IsColumn, view}
use simulator.Column.Removal.{pos, last, moved}

-- What Remove promises: whether there was a member, the column, and the revision.
pub record IsRemoved {T : Type 0} (c : Column T) (e revision : ℕ) (r : Bool × Column T × ℕ)
    : Type 0 where
  pub answered : r.0 ≡ has c e
  pub valid : IsColumn r.1
  pub erased : (i : ℕ) → view r.1 i ≡ (if index e == i then none else view c i)
  pub size : length r.1.values ≡ (if has c e then length c.values - 1 else length c.values)
  pub revised : r.2 ≡ (if has c e then call c.bump revision else revision)
  pub same_bump : r.1.bump ≡ c.bump
  pub unchanged : has c e ≡ false → r.1 ≡ c
  -- the last member takes the place that becomes free
  pub members :
      has c e ≡ true
      → (k : ℕ) → k < length c.values - 1
      → get_or r.1.dense k 0 ≡ (
          if k == get_or c.sparse (index e) 0 - 1
          then get_or c.dense (length c.values - 1) 0
          else get_or c.dense k 0)

module _ {T : Type 0} (c : Column T) (v : IsColumn c) (idx : ℕ)
    (there : 0 < get_or c.sparse idx 0) where
  abbrev p : ℕ
  p = pos c v idx there

  abbrev l : ℕ
  l = last c v idx there

  -- The member is the last one.
  abbrev cut : Column T
  cut = record c { values = take l c.values; dense = take l c.dense; sparse = set c.sparse idx 0 }

  -- The last member takes the place.
  abbrev filler : T → Column T
  filler x = record c {
    values = take l (set c.values p x);
    dense = take l (set c.dense p (moved c v idx there));
    sparse = set (set c.sparse (index (moved c v idx there)) (p + 1)) idx 0;
  }

  abbrev moving : T → Column T
  moving x = record c {
    values = set c.values p x;
    dense = set c.dense p (moved c v idx there);
    sparse = set c.sparse (index (moved c v idx there)) (p + 1);
  }
