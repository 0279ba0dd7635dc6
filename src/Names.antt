-- ===== src/Names.antt =====
-- pkg/simulation/tags.go (TagRegistry) and component.go (the names of a ComponentStore): names
-- with the identifiers that registration assigned to them.
pub mod Table
mod Tests
use simulator.Common.{
  ℕ, zero, suc, ◌+◌, ◌-◌, ◌*◌, ◌/◌, ◌%◌, ◌^◌, ◌≤◌, ◌<◌, min, ◌≡◌, refl, sym, ap, subst, ◌∙◌, ◌≢◌,
  ◌↔◌, ◌⊎◌, inl, inr, Bool, true, false, not, ◌&&◌, ◌||◌, Option, none, some, List, [], ◌∷◌, ◌++◌,
  map, Mem, Perm, arith, ℕ_discrete, ◌>>=◌, Returns, returns, ltb, leb, ◌==◌, if◌then◌else◌,
  Bool-cases, Option-cases, length, get_elem?, set, get_or, take, drop, replicate, store,
  length-append, length-set, length-take, length-drop, length-replicate, take-append-drop,
  drop-drop, get_elem?-get_or, get_elem?-lt, get_elem?-append, get_elem?-append_end, get_or-set,
  get_or-append, get_or-take,
}
use Prim.Native.String.{String}
use simulator.Common.Maps.{lookup, put, text_key}
use simulator.Entity.{u32}

pub record TagRegistry : Type 0 where
  pub names : List String
  pub by_name : List (String × ℕ)

unfoldable pub new_tag_registry : TagRegistry
new_tag_registry = record { names = []; by_name = [] }

unfoldable pub register : TagRegistry → String → ℕ × TagRegistry
register t name =
    let id = u32 (length t.names) in
    elim (lookup name t.by_name) [
      | some old ↦ (old, t)
      | none ↦ (id, record t { names = t.names ++ name ∷ []; by_name = put name id t.by_name })
    ]

-- `t.names[tag]` is read in range only.
unfoldable pub name_of : TagRegistry → ℕ → String
name_of t tag = get_or t.names tag ""

unfoldable pub snapshot_names : TagRegistry → List String
snapshot_names t = t.names

-- The loop of restore, from index `i` on.
unfoldable pub index_names : ℕ → List String → List (String × ℕ) → List (String × ℕ)
index_names i [] m = m
index_names i (n ∷ names) m = index_names (i + 1) names (put n (u32 i) m)

unfoldable pub restore_names : List String → TagRegistry
restore_names names = record { names = names; by_name = index_names 0 names [] }
