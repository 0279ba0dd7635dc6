-- ===== src/Migrations.antt =====
-- internal/database/migrate.go: loading and applying migrations. The database is a parameter; the
-- embedded files are a list of names with their contents, or the failure to read them.
pub mod Files
pub mod Applied
mod Tests
use simulator.Common.{
  ℕ, zero, suc, ◌+◌, ◌-◌, ◌*◌, ◌/◌, ◌%◌, ◌^◌, ◌≤◌, ◌<◌, min, ◌≡◌, refl, sym, ap, subst, ◌∙◌, ◌≢◌,
  ◌↔◌, ◌⊎◌, inl, inr, Bool, true, false, not, ◌&&◌, ◌||◌, Option, none, some, List, [], ◌∷◌, ◌++◌,
  map, Mem, Perm, arith, ℕ_discrete, ◌>>=◌, Returns, returns, ltb, leb, ◌==◌, if◌then◌else◌,
  Bool-cases, Option-cases, length, get_elem?, set, get_or, take, drop, replicate, store,
  length-append, length-set, length-take, length-drop, length-replicate, take-append-drop,
  drop-drop, get_elem?-get_or, get_elem?-lt, get_elem?-append, get_elem?-append_end,
  get_elem?-append_lt, get_or-set, get_or-append, get_or-take,
}
use Prim.Native.String.{String}
use simulator.Common.Int.{ℤ, pos_part, eqb_ℤ}

pub record Migration : Type 0 where
  pub version : ℤ
  pub name : String
  pub up : String
  pub down : String

-- The calls of the connection pool. A transaction works on the state that its calls give; a state
-- that is not committed is given up.
pub record Database (S E : Type 0) : Type 0 where
  pub create_table : S → E ⊎ S
  -- the recorded versions, and the same in descending order
  pub versions : S → E ⊎ List ℤ
  pub versions_down : S → E ⊎ List ℤ
  pub begin_tx : S → E ⊎ S
  pub exec : String → S → E ⊎ S
  pub insert_version : ℤ → String → S → E ⊎ S
  pub delete_version : ℤ → S → E ⊎ S
  pub commit : S → E ⊎ S

-- A version among others, as `applied` holds them.
unfoldable pub is_applied : ℤ → List ℤ → Bool
is_applied v [] = false
is_applied v (w ∷ vs) = eqb_ℤ v w || is_applied v vs

unfoldable pub with_version : ℤ → List Migration → List Migration
with_version v [] = []
with_version v (m ∷ ms) =
    let rest = with_version v ms in if eqb_ℤ m.version v then m ∷ rest else rest

-- The migrations that Rollback undoes, for the versions it goes through.
unfoldable pub undone : List Migration → List ℤ → List Migration
undone ms [] = []
undone ms (v ∷ vs) = with_version v ms ++ undone ms vs

module _ {S E : Type 0} where
  abbrev pub and_then : E ⊎ S → (S → E ⊎ S) → E ⊎ S
  and_then (inl e) next = inl e
  and_then (inr s) next = next s

  -- The deferred rollback: an error leaves the database as it was.
  abbrev pub ended : S → E ⊎ S → Option E × S
  ended s (inl e) = (some e, s)
  ended s (inr t) = (none, t)

  -- An error ends a loop with the state it left.
  abbrev pub or_stop : Option E × S → (S → Option E × S) → Option E × S
  or_stop (some e, s) next = (some e, s)
  or_stop (none, s) next = next s

  module _ (db : Database S E) where
    unfoldable pub change : Migration → Bool → S → E ⊎ S
    change m true s = and_then (db.exec m.up s) (db.insert_version m.version m.name)
    change m false s = and_then (db.exec m.down s) (db.delete_version m.version)

    unfoldable pub apply_one : Migration → Bool → S → Option E × S
    apply_one m up s = ended s (and_then (db.begin_tx s) (λ t. and_then (change m up t) db.commit))

    -- The loop of Migrate over the migrations.
    unfoldable pub apply_pending : List ℤ → List Migration → S → Option E × S
    apply_pending applied [] s = (none, s)
    apply_pending applied (m ∷ ms) s = elim (is_applied m.version applied) [
      | true ↦ apply_pending applied ms s
      | false ↦ or_stop (apply_one m true s) (apply_pending applied ms)
    ]

    -- Migrate from the answers of the database on.
    unfoldable pub after_versions : List Migration → S → E ⊎ List ℤ → Option E × S
    after_versions ms s (inl e) = (some e, s)
    after_versions ms s (inr applied) = apply_pending applied ms s

    unfoldable pub after_table : List Migration → S → E ⊎ S → Option E × S
    after_table ms s (inl e) = (some e, s)
    after_table ms s (inr t) = after_versions ms t (db.versions t)

    -- Migrate, of the migrations that were loaded.
    unfoldable pub migrate : List Migration → S → Option E × S
    migrate ms s = after_table ms s (db.create_table s)

    -- The loop of Rollback over the migrations to undo.
    unfoldable pub undo_all : List Migration → S → Option E × S
    undo_all [] s = (none, s)
    undo_all (m ∷ ms) s = or_stop (apply_one m false s) (undo_all ms)

    unfoldable pub rollback_to : List Migration → ℤ → S → E ⊎ List ℤ → Option E × S
    rollback_to ms steps s (inl e) = (some e, s)
    rollback_to ms steps s (inr vs) = undo_all (undone ms (take (pos_part steps) vs)) s

    -- Rollback, of the migrations that were loaded.
    unfoldable pub rollback : List Migration → ℤ → S → Option E × S
    rollback ms steps s = rollback_to ms steps s (db.versions_down s)
