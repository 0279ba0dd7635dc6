-- ===== src/Store.antt =====
-- pkg/simulation/component.go, the ComponentStore: names, and a column for each identifier. The Go
-- type of a column is a number, `kind`; its values are of one type that covers all of them.
use simulator.Common.{
  ℕ, ◌+◌, ◌⊎◌, inl, inr, Option, none, some, List, [], ◌∷◌, ◌>>=◌, ◌==◌, if◌then◌else◌, get_or,
}
use Prim.Native.String.{String}
use simulator.Common.Maps.{lookup, put, number_key, text_key}
use simulator.Names
use simulator.Names.{TagRegistry}
use simulator.Column.{
  Column, new_column, entity_ids, snapshot_json, Restored, done, undecodable, mismatch,
  restore_json,
}

pub record Bound (V : Type 0) : Type 0 where
  pub kind : ℕ
  pub column : Column V

pub record ComponentStore (V : Type 0) : Type 0 where
  pub names : List String
  pub by_name : List (String × ℕ)
  pub cols : List (ℕ × Bound V)
  pub bump : Option (ℕ → ℕ)

pub record ComponentSnapshot (D : Type 0) : Type 0 where
  pub name : String
  pub entities : List ℕ
  pub values : D

-- Why Restore fails: an unknown name, a name without a column, or a column that refuses.
pub data RestoreError (V : Type 0) : Type 0 where
  unknown_component : String → RestoreError V
  not_restorable : String → RestoreError V
  column_refuses : String → Restored V → RestoreError V

module _ {V : Type 0} where
  unfoldable pub new_component_store : ComponentStore V
  new_component_store = record { names = []; by_name = []; cols = []; bump = none }

  -- Register has the code of the tag registry.
  unfoldable pub register_component : ComponentStore V → String → ℕ × ComponentStore V
  register_component s name =
      let (id, t) = Names.register (record { names = s.names; by_name = s.by_name }) name in
      (id, record s { names = t.names; by_name = t.by_name })

  unfoldable pub component_name : ComponentStore V → ℕ → String
  component_name s id = get_or s.names id ""

  -- A column of another type is a panic; so is the nil column where none was asked for.
  unfoldable pub column_of : ComponentStore V → ℕ → ℕ → Option (Column V × ComponentStore V)
  column_of s id kind = elim (lookup id s.cols) [
    | some b ↦ if b.kind == kind then some (b.column, s) else none
    | none ↦
        let c = new_column s.bump in
        some (c, record s { cols = put id (record { kind = kind; column = c }) s.cols })
  ]

  -- RegisterComponent.
  unfoldable pub bind_component :
      ComponentStore V → String → ℕ → Option (ℕ × Column V × ComponentStore V)
  bind_component s name kind =
      let (id, t) = register_component s name in column_of t id kind >>= λ (c, u). some (id, c, u)

  unfoldable pub component_entities : ComponentStore V → ℕ → List ℕ
  component_entities s id = elim (lookup id s.cols) [ none ↦ [] | some b ↦ entity_ids b.column ]

  module _ {D : Type 0} (encode : List V → Option D) (decode : D → Option (List V)) where
    -- The loop of Snapshot over the identifiers from `id` on; `none` is an encoder's error.
    unfoldable pub snapshot_from :
        List (ℕ × Bound V) → ℕ → List String → Option (List (ComponentSnapshot D))
    snapshot_from cols id [] = some []
    snapshot_from cols id (name ∷ names) = do
      rest ← snapshot_from cols (id + 1) names
      elim (lookup id cols) [
        | none ↦ some rest
        | some b ↦ do
          (es, vs) ← snapshot_json encode decode b.column
          some (record { name = name; entities = es; values = vs } ∷ rest)
      ]

    unfoldable pub snapshot_components : ComponentStore V → Option (List (ComponentSnapshot D))
    snapshot_components s = snapshot_from s.cols 0 s.names

    -- The column of a name, with its identifier.
    unfoldable pub restorable : ComponentStore V → String → RestoreError V ⊎ (ℕ × Bound V)
    restorable s name = elim (lookup name s.by_name) [
      | none ↦ inl (unknown_component name)
      | some id ↦ elim (lookup id s.cols) [
        | none ↦ inl (not_restorable name)
        | some b ↦ inr (id, b)
      ]
    ]

    -- One round of Restore; the outer `none` is a panic.
    unfoldable pub restore_component :
        ComponentStore V → ComponentSnapshot D → Option (Option (RestoreError V) × ComponentStore V)
    restore_component s snap = elim (restorable s snap.name) [
      | inl e ↦ some (some e, s)
      | inr (id, b) ↦ restore_json encode decode b.column snap.entities snap.values >>= λ r.
          some (elim r [
            | done c ↦ (none, record s { cols = put id (record b { column = c }) s.cols })
            | undecodable ↦ (some (column_refuses snap.name undecodable), s)
            | mismatch n m ↦ (some (column_refuses snap.name (mismatch n m)), s)
          ])
    ]

    unfoldable pub restore_components :
        ComponentStore V
        → List (ComponentSnapshot D)
        → Option (Option (RestoreError V) × ComponentStore V)
    restore_components s [] = some (none, s)
    restore_components s (snap ∷ snaps) = restore_component s snap >>= λ (e, t). elim e [
      | some err ↦ some (some err, t)
      | none ↦ restore_components t snaps
    ]
