-- ===== src/Entity/Create.antt =====
-- Create: a fresh entity at the end of the list of live ones.
use simulator.Common.{
  ℕ, ◌+◌, ◌-◌, ◌^◌, ◌≤◌, ◌<◌, ◌≡◌, refl, sym, ap, ◌∙◌, ◌≢◌, inl, inr, true, false, Option, some,
  List, [], ◌∷◌, ◌++◌, arith, ℕ_discrete, ◌>>=◌, Returns, returns, ltb, ◌==◌, if◌then◌else◌,
  Bool-cases, length, set, get_or, length-append, length-set, get_elem?-get_or, get_or-set,
  get_or-append,
}
use simulator.Entity.{
  EntityManager, u32, index, version, entity_id, call, place, create, alive_locked,
}
use simulator.Entity.Invariant.{IsValid, IsLive, entity_id_fields, sparse-of_live, alive_locked_iff}
use simulator.Entity.TakeIndex.{Taken, take_index-Taken}

module _ (m : EntityManager) (v : IsValid m) (idx : ℕ) (slot : idx < m.next)
    (blank : get_or m.sparse idx 0 ≡ 0) where
  abbrev new_version : ℕ
  new_version = u32 (get_or m.versions idx 0 + 1)

  abbrev new_id : ℕ
  new_id = entity_id idx new_version

  abbrev new_dense : List ℕ
  new_dense = m.dense ++ new_id ∷ []

  abbrev placed : EntityManager
  placed = record m {
    versions = set m.versions idx new_version;
    sparse = set m.sparse idx (length m.dense + 1);
    dense = new_dense;
    count = m.count + 1;
  }

  new_id_fields : (index new_id ≡ idx) × (version new_id ≡ new_version) × (new_id < 2 ^ 64)
  new_id_fields = entity_id_fields idx new_version (omega (arith, v.narrow)) (omega arith)

  versions_at :
      (i : ℕ)
      → get_or placed.versions i 0 ≡ (if idx == i then new_version else get_or m.versions i 0)
  versions_at i = get_or-set m.versions idx i new_version 0 (omega (arith, v.room))

  sparse_at :
      (i : ℕ)
      → get_or placed.sparse i 0 ≡ (if idx == i then length m.dense + 1 else get_or m.sparse i 0)
  sparse_at i = get_or-set m.sparse idx i (length m.dense + 1) 0 (omega (arith, v.room, v.sizes))

  old_dense : (p : ℕ) → p < length m.dense → get_or new_dense p 0 ≡ get_or m.dense p 0
  old_dense p h = ground (arith, get_or-append m.dense (new_id ∷ []) p 0)

  last_dense : get_or new_dense (length m.dense) 0 ≡ new_id
  last_dense =
      let at : length m.dense - length m.dense ≡ 0 = omega arith in
      let past : ltb (length m.dense) (length m.dense) ≡ false = ground arith in
      rw (get_or-append m.dense (new_id ∷ []) (length m.dense) 0, past, at)

  size_dense : length new_dense ≡ length m.dense + 1
  size_dense = length-append m.dense (new_id ∷ [])

  -- What `listed` says of one position, as a predicate of the entity there.
  abbrev ListedAt : EntityManager → ℕ → ℕ → Type 0
  ListedAt k p id =
      (id < 2 ^ 64)
      × (index id < k.next)
      × (get_or k.sparse (index id) 0 ≡ p + 1)
      × (get_or k.versions (index id) 0 ≡ version id)

  listed_old : (p : ℕ) → p < length m.dense → ListedAt placed p (get_or m.dense p 0)
  listed_old p h =
      let i = index (get_or m.dense p 0) in
      let l = v.listed p h in
      let other : (idx == i) ≡ false = ground (arith, l.2, blank) in
      ground (arith, other, l, versions_at i, sparse_at i)

  listed_new : ListedAt placed (length m.dense) new_id
  listed_new =
      let (i, gen, word) = new_id_fields in
      let hit : (idx == idx) ≡ true = ground arith in
      (
        word,
        omega (arith, i),
        rw (i, sparse_at idx, hit) refl,
        rw (i, versions_at idx, hit) (sym gen),
      )

  placed_listed : (p : ℕ) → p < length new_dense → ListedAt placed p (get_or new_dense p 0)
  placed_listed p h = elim (ℕ_discrete p (length m.dense)) [
    | yes e ↦ rw (e, last_dense) listed_new
    | no ne ↦
        let below : p < length m.dense = omega (arith, size_dense) in
        rw (old_dense p below) (listed_old p below)
  ]

  placed_pointed :
      (i : ℕ)
      → 0 < get_or placed.sparse i 0
      → (get_or placed.sparse i 0 ≤ length new_dense)
        × (index (get_or new_dense (get_or placed.sparse i 0 - 1) 0) ≡ i)
  placed_pointed i h = elim (Bool-cases (idx == i)) [
    | inl hit ↦
        let here : length m.dense + 1 - 1 ≡ length m.dense = omega arith in
        let e : idx ≡ i = ground arith in
        rw (sparse_at i, hit, here, last_dense) (omega (arith, size_dense), new_id_fields.0 ∙ e)
    | inr miss ↦
        let keep : get_or placed.sparse i 0 ≡ get_or m.sparse i 0 = rw (sparse_at i, miss) refl in
        let (le, at) = v.pointed i (omega (arith, keep)) in
        let old = old_dense (get_or m.sparse i 0 - 1) (omega (arith, keep)) in
        rw (keep, old) (omega (arith, size_dense), at)
  ]

  place-IsValid :
      ((k : ℕ) → k < length m.free → get_or m.free k 0 ≢ idx)
      → length m.dense + 1 < 2 ^ 31
      → IsValid placed
  place-IsValid gone few = record {
    sizes = omega (
      arith,
      length-set m.sparse idx (length m.dense + 1),
      length-set m.versions idx new_version,
      v.sizes,
    );
    room = omega (arith, length-set m.versions idx new_version, v.room);
    narrow = v.narrow;
    fits = omega (arith, size_dense);
    counted = omega (arith, size_dense, v.counted);
    listed = placed_listed;
    pointed = placed_pointed;
    recycled = λ k h.
        let r = v.recycled k h in
        let other : (idx == get_or m.free k 0) ≡ false = ground (arith, gone k h) in
        (r.0, rw (sparse_at (get_or m.free k 0), other) r.1);
    distinct = v.distinct;
    words = λ i. ground (arith, versions_at i, v.words i);
  }

  place-eq :
      (revision : ℕ)
      → length m.dense + 1 < 2 ^ 31
      → place idx m revision ≡ some (new_id, placed, call m.bump revision)
  unfolding place
  place-eq revision few =
      let read = get_elem?-get_or m.versions idx 0 (omega (arith, v.room)) in
      let inside : ltb idx (length m.versions) ≡ true = ground (arith, v.room) in
      let inside' : ltb idx (length m.sparse) ≡ true = ground (arith, v.room, v.sizes) in
      let size = length-set m.versions idx new_version in
      let again =
        get_elem?-get_or (set m.versions idx new_version) idx 0 (omega (arith, size, v.room)) in
      let hit : (idx == idx) ≡ true = ground arith in
      let word : u32 (length m.dense + 1) ≡ length m.dense + 1 = omega arith in
      rw (read, inside, again, versions_at idx, hit, inside', word) refl

-- What Create promises: the result is the new identifier, the manager and the revision.
pub record Created (m : EntityManager) (revision : ℕ) (r : ℕ × EntityManager × ℕ) : Type 0 where
  pub valid : IsValid r.1
  pub fresh : ¬ IsLive m r.0
  pub appended : r.1.dense ≡ m.dense ++ r.0 ∷ []
  pub counted : r.1.count ≡ m.count + 1
  pub now_alive : alive_locked r.1 r.0 ≡ some true
  pub generation : version r.0 ≡ u32 (get_or m.versions (index r.0) 0 + 1)
  pub other_versions : (i : ℕ) → i ≢ index r.0 → get_or r.1.versions i 0 ≡ get_or m.versions i 0
  pub new_version_stored : get_or r.1.versions (index r.0) 0 ≡ version r.0
  pub next_le : r.1.next ≤ m.next + 1
  pub revised : r.2 ≡ call m.bump revision
  pub same_bump : r.1.bump ≡ m.bump

module _ (m : EntityManager) (v : IsValid m) (revision : ℕ)
    (few : length m.dense + 1 < 2 ^ 31) where
  place-Taken :
      (r : ℕ × EntityManager) → Taken m r → Returns (Created m revision) (place r.0 r.1 revision)
  place-Taken (idx, m1) t =
      let few1 : length m1.dense + 1 < 2 ^ 31 = rw t.same_dense few in
      let made = placed m1 t.valid idx t.slot t.blank in
      let id = new_id m1 t.valid idx t.slot t.blank in
      let fields = new_id_fields m1 t.valid idx t.slot t.blank in
      let valid = place-IsValid m1 t.valid idx t.slot t.blank t.gone few1 in
      let e = place-eq m1 t.valid idx t.slot t.blank revision few1 in
      let at = versions_at m1 t.valid idx t.slot t.blank in
      let now : IsLive made id = (
        length m1.dense,
        omega (arith, size_dense m1 t.valid idx t.slot t.blank),
        last_dense m1 t.valid idx t.slot t.blank,
      ) in
      let not_before : ¬ IsLive m1 id = λ l. absurd (
        omega (
          arith,
          sparse-of_live m1 t.valid id l,
          t.blank,
          ap (λ i. get_or m1.sparse i 0) fields.0,
        )) in
      rw e (
        returns (record {
          valid = valid;
          fresh = λ (p, h, f). not_before (p, rw t.same_dense h, rw t.same_dense f);
          appended = rw t.same_dense refl;
          counted = omega (arith, t.valid.counted, v.counted, ap length t.same_dense);
          now_alive = ground (arith, alive_locked_iff made id valid fields.2, now);
          generation = rw (fields.0, ← t.same_versions idx) fields.1;
          other_versions = λ i ne. ground (arith, at i, fields.0, t.same_versions i);
          new_version_stored = ground (arith, at idx, fields);
          next_le = t.next_le;
          revised = rw t.same_bump refl;
          same_bump = t.same_bump;
        }))

  -- Create succeeds on a valid manager with room, and keeps it valid: the new entity was not live,
  -- goes to the end of the list, is alive, and carries the next generation of its index.
  pub create_correct : m.next + 1 < 2 ^ 32 → Returns (Created m revision) (create m revision)
  unfolding create
  create_correct room = chain (take_index-Taken m v room)
    where
      chain :
          {t : Option (ℕ × EntityManager)}
          → Returns (Taken m) t
          → Returns (Created m revision) (t >>= λ (idx, m'). place idx m' revision)
      chain (returns {a = r} t) = place-Taken r t
