-- ===== src/Entity.antt =====
-- pkg/simulation/entity.go: entity identifiers and their allocation.
-- Identifiers, indices and generations are the numbers that the Go words hold; sums are taken
-- modulo the width. A position in `dense` is an int32: one of 2 ^ 31 or more reads as negative.
mod Tests
pub mod Invariant
pub mod TakeIndex
pub mod Create
pub mod Destroy
pub mod Destroyed
pub mod Generations
pub mod Snapshot
use simulator.Common.{
  ℕ, zero, suc, ◌+◌, ◌-◌, ◌*◌, ◌/◌, ◌%◌, ◌^◌, ◌≤◌, ◌<◌, min, ◌≡◌, refl, sym, ap, subst, ◌∙◌, ◌≢◌,
  ◌↔◌, ◌⊎◌, inl, inr, Bool, true, false, not, ◌&&◌, ◌||◌, Option, none, some, List, [], ◌∷◌, ◌++◌,
  map, Mem, Perm, arith, ℕ_discrete, ◌>>=◌, Returns, returns, ltb, leb, ◌==◌, if◌then◌else◌,
  Bool-cases, Option-cases, length, get_elem?, set, get_or, take, drop, replicate, store,
  length-append, length-set, length-take, length-drop, length-replicate, take-append-drop,
  drop-drop, get_elem?-get_or, get_elem?-lt, get_elem?-append, get_elem?-append_end, get_or-set,
  get_or-append, get_or-take,
}
use Prim.Native.Nat.{bit_or}

abbrev pub u32 : ℕ → ℕ
u32 n = n % 2 ^ 32

abbrev pub u64 : ℕ → ℕ
u64 n = n % 2 ^ 64

abbrev pub index : ℕ → ℕ
index e = u32 (e / 2 ^ 32)

abbrev pub version : ℕ → ℕ
version e = u32 e

-- `EntityID(uint64(index)<<32 | uint64(version))`
unfoldable pub entity_id : ℕ → ℕ → ℕ
entity_id idx ver = bit_or (u64 (idx * 2 ^ 32)) ver

-- The optional callback, on the structural revision of the world that owns the manager.
abbrev pub call : Option (ℕ → ℕ) → ℕ → ℕ
call none revision = revision
call (some bump) revision = bump revision

pub record EntityManager : Type 0 where
  pub versions : List ℕ
  pub sparse : List ℕ
  pub dense : List ℕ
  pub free : List ℕ
  pub next : ℕ
  pub count : ℕ
  pub bump : Option (ℕ → ℕ)

unfoldable pub new_entity_manager : EntityManager
new_entity_manager = record {
  versions = 0 ∷ [];
  sparse = 0 ∷ [];
  dense = [];
  free = [];
  next = 0;
  count = 0;
  bump = none;
}

-- `for int(index) >= len(m.versions)`: one more entry in both slices.
unfoldable pub grow : ℕ → ℕ → List ℕ → List ℕ → List ℕ × List ℕ
grow zero idx versions sparse = (versions, sparse)
grow (suc fuel) idx versions sparse =
    let rest = grow fuel idx (versions ++ 0 ∷ []) (sparse ++ 0 ∷ []) in
    if leb (length versions) idx then rest else (versions, sparse)

-- The first part of Create: a recycled index, or the next one.
unfoldable pub take_index : EntityManager → Option (ℕ × EntityManager)
take_index m =
    let n = length m.free in
    let recycled =
      get_elem? m.free (n - 1) >>= λ idx. some (idx, record m { free = take (n - 1) m.free }) in
    let (versions, sparse) = grow (m.next + 1) m.next m.versions m.sparse in
    if ltb 0 n
    then recycled
    else some (m.next, record m { versions = versions; sparse = sparse; next = u32 (m.next + 1) })

-- The second part of Create: the new generation of the index goes to the end of `dense`.
unfoldable pub place : ℕ → EntityManager → ℕ → Option (ℕ × EntityManager × ℕ)
place idx m revision = do
  old ← get_elem? m.versions idx
  versions ← store m.versions idx (u32 (old + 1))
  ver ← get_elem? versions idx
  let id = entity_id idx ver
  sparse ← store m.sparse idx (u32 (length m.dense + 1))
  some (
    id,
    record m {
      versions = versions;
      sparse = sparse;
      dense = m.dense ++ id ∷ [];
      count = m.count + 1;
    },
    call m.bump revision,
  )

unfoldable pub create : EntityManager → ℕ → Option (ℕ × EntityManager × ℕ)
create m revision = take_index m >>= λ (idx, m'). place idx m' revision

-- aliveLocked; `&&` reads `sparse` only if the generations agree.
unfoldable pub alive_locked : EntityManager → ℕ → Option Bool
alive_locked m id =
    let idx = index id in
    let found = get_elem? m.sparse idx >>= λ s. some (not (s == 0)) in
    if leb (length m.versions) idx
    then some false
    else get_elem? m.versions idx >>= λ ver. if ver == version id then found else some false

unfoldable pub alive : EntityManager → ℕ → Option Bool
alive m id = alive_locked m id

-- `int(sparse[idx]) - 1`, as a position to write at: a negative one panics.
unfoldable pub position : ℕ → Option ℕ
position s = if ltb 0 s && ltb s (2 ^ 31) then some (s - 1) else none

-- The last live entity moves to the place that becomes free. The test is `pos != last`, with
-- `last` one below the length.
unfoldable pub fill_hole : ℕ → EntityManager → Option EntityManager
fill_hole pos m =
    let last = length m.dense - 1 in
    let moving : Option EntityManager = do
      moved ← get_elem? m.dense last
      dense ← store m.dense pos moved
      sparse ← store m.sparse (index moved) (u32 (pos + 1))
      some (record m { dense = dense; sparse = sparse })
    in if pos + 1 == length m.dense then some m else moving

unfoldable pub remove_live : EntityManager → ℕ → ℕ → Option (EntityManager × ℕ)
remove_live m id revision = do
  let idx = index id
  let last = length m.dense - 1
  s ← get_elem? m.sparse idx
  pos ← position s
  filled ← fill_hole pos m
  sparse ← store filled.sparse idx 0
  some (
    record filled {
      dense = take last filled.dense;
      sparse = sparse;
      free = m.free ++ idx ∷ [];
      count = m.count - 1;
    },
    call m.bump revision,
  )

unfoldable pub destroy : EntityManager → ℕ → ℕ → Option (Bool × EntityManager × ℕ)
destroy m id revision = alive_locked m id >>= λ live.
    if live
    then (remove_live m id revision >>= λ (m', revision'). some (true, m', revision'))
    else some (false, m, revision)

unfoldable pub ids : EntityManager → List ℕ
ids m = m.dense

unfoldable pub len : EntityManager → ℕ
len m = m.count

pub record EntityManagerState : Type 0 where
  pub dense : List ℕ
  pub next : ℕ
  pub free : List ℕ
  pub versions : List ℕ

unfoldable pub snapshot : EntityManager → EntityManagerState
snapshot m = record { dense = m.dense; next = m.next; free = m.free; versions = m.versions }

-- `m.sparse[e.Index()] = int32(pos + 1)`, from position `pos` on.
unfoldable pub index_dense : List ℕ → ℕ → List ℕ → Option (List ℕ)
index_dense [] pos sparse = some sparse
index_dense (e ∷ dense) pos sparse =
    store sparse (index e) (u32 (pos + 1)) >>= index_dense dense (pos + 1)

unfoldable pub restore : EntityManager → EntityManagerState → Option EntityManager
restore m s = do
  sparse ← index_dense s.dense 0 (replicate (length s.versions) 0)
  some (record m {
    dense = s.dense;
    next = s.next;
    free = s.free;
    versions = s.versions;
    sparse = sparse;
    count = length s.dense;
  })
