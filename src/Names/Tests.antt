-- ===== src/Names/Tests.antt =====
-- The registry of names with two names in it.
use simulator.Common.{ℕ, ◌≡◌, refl, arith}
use Prim.Native.String.{String}
use simulator.Names.{
  TagRegistry, new_tag_registry, register, name_of, restore_names, snapshot_names,
}
use simulator.Common.Maps.{lookup, put, delete, text_key}
use simulator.Names.Table.{IsTable, IsRegistered, register_correct, restore_names_correct}

abbrev two_names : TagRegistry
two_names = (register (register new_tag_registry "movable").1 "blocked").1

second_id : (register two_names "blocked").0 ≡ 1
unfolding register new_tag_registry lookup put delete
second_id = refl

new-IsTable : IsTable new_tag_registry
unfolding new_tag_registry lookup
new-IsTable = record {
  found = λ n i h. ground arith;
  listed = λ n i h. ground arith;
  small = omega arith;
}

first_name : IsRegistered new_tag_registry "movable" (register new_tag_registry "movable")
unfolding new_tag_registry
first_name = register_correct new_tag_registry "movable" new-IsTable (omega arith)

register_correct_example :
    IsRegistered new_tag_registry "blocked" (register new_tag_registry "blocked")
unfolding new_tag_registry
register_correct_example = register_correct new_tag_registry "blocked" new-IsTable (omega arith)

abbrev one_name : TagRegistry
one_name = (register new_tag_registry "movable").1

restore_names_correct_example :
    ((n : String)
      → (register (restore_names (snapshot_names one_name)) n).0 ≡ (register one_name n).0)
    × ((i : ℕ) → name_of (restore_names (snapshot_names one_name)) i ≡ name_of one_name i)
restore_names_correct_example = restore_names_correct one_name first_name.valid
