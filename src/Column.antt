-- ===== src/Column.antt =====
-- pkg/simulation/component.go, Column: the values of one component type, as parallel slices with a
-- sparse index. The lock and the lock-free accessors of shards read and write alike.
mod Tests
pub mod View
pub mod Removal
pub mod Removed
use simulator.Common.{
  ℕ, zero, suc, ◌+◌, ◌-◌, ◌*◌, ◌/◌, ◌%◌, ◌^◌, ◌≤◌, ◌<◌, min, ◌≡◌, refl, sym, ap, subst, ◌∙◌, ◌≢◌,
  ◌↔◌, ◌⊎◌, inl, inr, Bool, true, false, not, ◌&&◌, ◌||◌, Option, none, some, List, [], ◌∷◌, ◌++◌,
  map, Mem, Perm, arith, ℕ_discrete, ◌>>=◌, Returns, returns, ltb, leb, ◌==◌, if◌then◌else◌,
  Bool-cases, Option-cases, length, get_elem?, set, get_or, take, drop, replicate, store,
  length-append, length-set, length-take, length-drop, length-replicate, take-append-drop,
  drop-drop, get_elem?-get_or, get_elem?-lt, get_elem?-append, get_elem?-append_end, get_or-set,
  get_or-append, get_or-take,
}
use simulator.Entity.{u32, index, call, position}

pub record Column (T : Type 0) : Type 0 where
  pub sparse : List ℕ
  pub dense : List ℕ
  pub values : List T
  pub bump : Option (ℕ → ℕ)

unfoldable pub new_column : {T : Type 0} → Option (ℕ → ℕ) → Column T
new_column bump = record { sparse = []; dense = []; values = []; bump = bump }

-- growInt32: the slice, followed by zeros up to `idx`.
unfoldable pub grow_int32 : List ℕ → ℕ → List ℕ
grow_int32 s idx =
    let target = idx + 1 in
    if leb target (length s) then s else s ++ replicate (target - length s) 0

module _ {T : Type 0} where
  -- `int(idx) < len(c.sparse) && c.sparse[idx] != 0`
  unfoldable pub present : Column T → ℕ → Bool
  present c idx = ltb idx (length c.sparse) && not (get_or c.sparse idx 0 == 0)

  -- `c.data[c.sparse[idx]-1]`
  unfoldable pub value_at : Column T → ℕ → Option T
  value_at c idx = get_elem? c.sparse idx >>= position >>= get_elem? c.values

  -- `c.data[c.sparse[idx]-1] = v`
  unfoldable pub overwrite : Column T → ℕ → T → Option (Column T)
  overwrite c idx v = do
    s ← get_elem? c.sparse idx
    pos ← position s
    values ← store c.values pos v
    some (record c { values = values })

  -- Set: the column and the structural revision, which only a new member changes.
  unfoldable pub set_value : Column T → ℕ → T → ℕ → Option (Column T × ℕ)
  set_value c e v revision =
      let idx = index e in
      let sparse = grow_int32 c.sparse idx in
      let grown = record c { sparse = sparse } in
      let add : Option (Column T × ℕ) = do
        marked ← store sparse idx (u32 (length c.values + 1))
        some (
          record c { sparse = marked; dense = c.dense ++ e ∷ []; values = c.values ++ v ∷ [] },
          call c.bump revision,
        )
      in get_elem? sparse idx >>= λ s.
      if s == 0 then add else (overwrite grown idx v >>= λ c'. some (c', revision))

  -- Get and GetShard.
  unfoldable pub get : Column T → ℕ → Option (Option T)
  get c e =
      let found = value_at c (index e) >>= λ v. some (some v) in
      if present c (index e) then found else some none

  -- MustGet panics on an absent component.
  unfoldable pub must_get : Column T → ℕ → Option T
  must_get c e = get c e >>= λ v. v

  unfoldable pub has : Column T → ℕ → Bool
  has c e = present c (index e)

  -- SetShard panics on an absent component.
  unfoldable pub set_shard : Column T → ℕ → T → Option (Column T)
  set_shard c e v =
      let write = overwrite c (index e) v in if present c (index e) then write else none

  -- The last member moves to the place that becomes free.
  unfoldable pub move_last : ℕ → Column T → Option (Column T)
  move_last pos c =
      let last = length c.values - 1 in
      let moving : Option (Column T) = do
        moved ← get_elem? c.dense last
        v ← get_elem? c.values last
        values ← store c.values pos v
        dense ← store c.dense pos moved
        sparse ← store c.sparse (index moved) (u32 (pos + 1))
        some (record c { values = values; dense = dense; sparse = sparse })
      in if pos + 1 == length c.values then some c else moving

  unfoldable pub remove : Column T → ℕ → ℕ → Option (Bool × Column T × ℕ)
  remove c e revision =
      let idx = index e in
      let last = length c.values - 1 in
      let removal : Option (Bool × Column T × ℕ) = do
        s ← get_elem? c.sparse idx
        pos ← position s
        filled ← move_last pos c
        sparse ← store filled.sparse idx 0
        some (
          true,
          record filled {
            values = take last filled.values;
            dense = take last filled.dense;
            sparse = sparse;
          },
          call c.bump revision,
        )
      in if present c idx then removal else some (false, c, revision)

  unfoldable pub len : Column T → ℕ
  len c = length c.values

  unfoldable pub entity_ids : Column T → List ℕ
  entity_ids c = c.dense

-- The largest index among the entities, or 0.
unfoldable pub max_index : ℕ → List ℕ → ℕ
max_index m [] = m
max_index m (e ∷ es) = max_index (if ltb m (index e) then index e else m) es

unfoldable pub index_entities : List ℕ → ℕ → List ℕ → Option (List ℕ)
index_entities [] pos sparse = some sparse
index_entities (e ∷ es) pos sparse =
    store sparse (index e) (u32 (pos + 1)) >>= index_entities es (pos + 1)

-- What restoreJSON answers: it is done, or the values did not decode or do not fit the entities.
pub data Restored (T : Type 0) : Type 0 where
  done : Column T → Restored T
  undecodable : Restored T
  mismatch : ℕ → ℕ → Restored T

module _ {T D : Type 0} (encode : List T → Option D) (decode : D → Option (List T)) where
  -- snapshotJSON, with the JSON encoder as a parameter.
  unfoldable pub snapshot_json : Column T → Option (List ℕ × D)
  snapshot_json c = encode c.values >>= λ encoded. some (c.dense, encoded)

  -- restoreJSON; the outer `none` is a panic.
  unfoldable pub restore_json : Column T → List ℕ → D → Option (Restored T)
  restore_json c entities encoded = elim (decode encoded) [
    | none ↦ some undecodable
    | some vs ↦
        let rebuilt : Option (Restored T) = do
          sparse ← index_entities entities 0 (replicate (max_index 0 entities + 1) 0)
          some (done (record c { dense = entities; values = vs; sparse = sparse }))
        in if length vs == length entities
          then rebuilt
          else some (mismatch (length entities) (length vs))
  ]
