-- ===== src/Registry/Tests.antt =====
-- Versions, and a registry with three versions of a model.
use simulator.Common.{ℕ, ◌≡◌, refl, false, Option, some, List, [], ◌∷◌, arith}
use Prim.Native.Nat.{Ordering}
use Prim.Native.String.{String}
use simulator.Common.Maps.{lookup, put, delete}
use simulator.Registry.{
  ModelInfo, Entry, is_digit, split_dots, cut_suffix, read_digits, number_of, component_int,
  compare_from, larger, compare_version, entry_key, is_less, new_registry, becomes_latest,
  register_info, get_latest, get_version,
}
use simulator.Registry.Latest.{register_all, get_latest_correct}

-- Numbers and not texts are compared; a missing component is zero.
ten_above_nine :
    (compare_version "1.10.0" "1.9.0" ≡ Ordering.gt) × (compare_version "1.0" "1.0.0" ≡ Ordering.eq)
unfolding compare_version split_dots compare_from component_int number_of cut_suffix read_digits
    is_digit larger
ten_above_nine = (refl, refl)

-- A pre-release with a dot in its suffix is above its release.
candidate_above_release : compare_version "1.0.0-rc.1" "1.0.0" ≡ Ordering.gt
unfolding compare_version split_dots compare_from component_int number_of cut_suffix read_digits
    is_digit larger
candidate_above_release = refl

abbrev counter_info : String → ModelInfo
counter_info v = record {
  id = "counter";
  name = "Counter";
  version = v;
  description = "";
  mode = "tick";
}

abbrev regs : List (ModelInfo × Option ℕ)
regs = (counter_info "1.9.0", some 1) ∷ (counter_info "1.10.0", some 2) ∷ []

abbrev older : Entry ℕ
older = record { info = counter_info "1.9.0"; factory = some 1 }

get_latest_correct_example :
    (top : Entry ℕ) × (get_latest (register_all regs) "counter" ≡ some top)
    × (top.info.id ≡ "counter")
    × (is_less (compare_version top.info.version "1.9.0") ≡ false)
unfolding register_all get_version register_info new_registry lookup put delete entry_key
    becomes_latest compare_version split_dots compare_from component_int number_of cut_suffix
    read_digits is_digit larger
get_latest_correct_example =
    get_latest_correct regs "counter" "1.9.0" older (omega arith) (omega arith) refl
