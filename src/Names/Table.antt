-- ===== src/Names/Table.antt =====
-- A registry of names answers the same identifier for a name, whenever it is asked.
use simulator.Common.{
  ℕ, zero, suc, ◌+◌, ◌^◌, ◌≤◌, ◌<◌, ◌≡◌, refl, sym, ap, ◌∙◌, ◌≢◌, ◌⊎◌, inl, inr, none, some, List,
  [], ◌∷◌, ◌++◌, arith, ltb, Bool-cases, Option-cases, length, get_elem?, length-append,
  get_elem?-get_or, get_elem?-lt, get_elem?-append, get_elem?-append_end, get_elem?-append_lt,
}
use Prim.Native.String.{String}
use simulator.Common.Maps.{lookup, put, text_key, lookup-put, lookup-put_other, key-cases}
use simulator.Entity.{u32}
use simulator.Names.{TagRegistry, register, name_of, index_names, restore_names, snapshot_names}

-- The map knows exactly the names at their positions.
pub record IsTable (t : TagRegistry) : Type 0 where
  pub found : (n : String) (i : ℕ) → lookup n t.by_name ≡ some i → get_elem? t.names i ≡ some n
  pub listed : (n : String) (i : ℕ) → get_elem? t.names i ≡ some n → lookup n t.by_name ≡ some i
  pub small : length t.names < 2 ^ 32

-- What Register promises of a name.
pub record IsRegistered (t : TagRegistry) (n : String) (r : ℕ × TagRegistry) : Type 0 where
  pub valid : IsTable r.1
  pub named : name_of r.1 r.0 ≡ n
  pub kept : (m : String) (i : ℕ) → lookup m t.by_name ≡ some i → register r.1 m ≡ (i, r.1)
  pub again : register r.1 n ≡ (r.0, r.1)

module _ (t : TagRegistry) (v : IsTable t) where
  register_known : (n : String) (i : ℕ) → lookup n t.by_name ≡ some i → register t n ≡ (i, t)
  unfolding register
  register_known n i h = rw (register, h) refl

  known_name : (n : String) (i : ℕ) → lookup n t.by_name ≡ some i → name_of t i ≡ n
  unfolding name_of
  known_name n i h =
      let e = v.found n i h in
      ground (arith, get_elem?-get_or t.names i "" (get_elem?-lt t.names i e))

  module _ (n : String) (room : length t.names + 1 < 2 ^ 32) (new : lookup n t.by_name ≡ none) where
    abbrev id : ℕ
    id = u32 (length t.names)

    abbrev added : TagRegistry
    added = record t { names = t.names ++ n ∷ []; by_name = put n id t.by_name }

    register_new : register t n ≡ (id, added)
    unfolding register
    register_new = rw (register, new) refl

    id_is_length : id ≡ length t.names
    id_is_length = omega (arith, v.small)

    last_name : get_elem? added.names id ≡ some n
    last_name = rw id_is_length (get_elem?-append_end t.names [] n)

    apart : (m : String) (i : ℕ) → get_elem? t.names i ≡ some m → m ≢ n
    apart m i h e = cc (v.listed m i h, new, ap (λ k. lookup k t.by_name) e)

    added_found :
        (m : String) (i : ℕ) → lookup m added.by_name ≡ some i → get_elem? added.names i ≡ some m
    added_found m i h = elim (key-cases m n) [
      | inl e ↦
          let at : lookup m added.by_name ≡ some id = rw e (lookup-put n id t.by_name) in
          let q : i ≡ id = ground arith in rw (q, e) last_name
      | inr ne ↦
          get_elem?-append t.names (n ∷ []) i
            (v.found m i (sym (lookup-put_other m n id t.by_name ne) ∙ h))
    ]

    added_listed :
        (m : String) (i : ℕ) → get_elem? added.names i ≡ some m → lookup m added.by_name ≡ some i
    added_listed m i h = elim (leb-cases i) [
      | inl old ↦
          let e : get_elem? t.names i ≡ some m =
            sym (get_elem?-append_lt t.names (n ∷ []) i old) ∙ h in
          lookup-put_other m n id t.by_name (apart m i e) ∙ v.listed m i e
      | inr end ↦
          let q : i ≡ length t.names =
            omega (arith, get_elem?-lt added.names i h, length-append t.names (n ∷ [])) in
          let e : m ≡ n =
            cc (
              h,
              ap (get_elem? added.names) q,
              ap (get_elem? added.names) id_is_length,
              last_name,
            ) in
          rw (e, q) (lookup-put n id t.by_name ∙ ap some id_is_length)
    ]
      where
        leb-cases : (i : ℕ) → (i < length t.names) ⊎ (length t.names ≤ i)
        leb-cases i = elim (Bool-cases (ltb i (length t.names))) [
          | inl e ↦ inl (ground arith)
          | inr e ↦ inr (ground arith)
        ]

    added-IsTable : IsTable added
    added-IsTable = record {
      found = added_found;
      listed = added_listed;
      small = omega (arith, length-append t.names (n ∷ []));
    }

IsRegistered-at :
    (t : TagRegistry) (n : String) (i : ℕ) (u : TagRegistry)
    → IsTable u
    → lookup n u.by_name ≡ some i
    → ((m : String) (j : ℕ) → lookup m t.by_name ≡ some j → lookup m u.by_name ≡ some j)
    → IsRegistered t n (i, u)
IsRegistered-at t n i u v at kept = record {
  valid = v;
  named = known_name u v n i at;
  kept = λ m j h. register_known u v m j (kept m j h);
  again = register_known u v n i at;
}

-- Register of a valid registry with room keeps it valid, answers an identifier that has the name,
-- and the same one when it is asked again; all earlier names keep their identifiers.
pub register_correct :
    (t : TagRegistry) (n : String)
    → IsTable t
    → length t.names + 1 < 2 ^ 32
    → IsRegistered t n (register t n)
register_correct t n v room = elim (Option-cases (lookup n t.by_name)) [
  | inl new ↦ rw (register_new t v n room new) (
      IsRegistered-at t n (id t v n room new) (added t v n room new) (added-IsTable t v n room new)
        (lookup-put n (id t v n room new) t.by_name)
        (λ m j h.
          lookup-put_other m n (id t v n room new) t.by_name
            (λ e. cc (h, new, ap (λ k. lookup k t.by_name) e))
          ∙ h))
  | inr (i, at) ↦ rw (register_known t v n i at) (IsRegistered-at t n i t v at (λ m j h. h))
]

module _ (n : String) where
  index_missing :
      (names : List String) (i : ℕ) (m : List (String × ℕ))
      → ((j : ℕ) → get_elem? names j ≢ some n)
      → lookup n (index_names i names m) ≡ lookup n m
  unfolding index_names
  index_missing [] i m none_there = refl
  index_missing (x ∷ names) i m none_there =
      index_missing names (i + 1) (put x (u32 i) m) (λ j. none_there (suc j))
      ∙ lookup-put_other n x (u32 i) m (λ e. none_there 0 (ap some (sym e)))

  -- The loop of restore finds a name that stands at one position only.
  index_at :
      (names : List String) (i j : ℕ) (m : List (String × ℕ))
      → ((k : ℕ) → get_elem? names k ≡ some n → k ≡ j)
      → get_elem? names j ≡ some n
      → lookup n (index_names i names m) ≡ some (u32 (i + j))
  unfolding index_names
  index_at [] i j m only h = ground arith
  index_at (x ∷ names) i zero m only h =
      let e : x ≡ n = ground arith in
      let later : lookup n (index_names (i + 1) names (put x (u32 i) m))
          ≡ lookup n (put x (u32 i) m) =
        index_missing names (i + 1) (put x (u32 i) m)
          (λ k q. absurd (omega (arith, only (suc k) q))) in
      let first : lookup n (put x (u32 i) m) ≡ some (u32 i) = rw e (lookup-put n (u32 i) m) in
      let same : u32 i ≡ u32 (i + 0) = ap u32 (omega arith) in later ∙ (first ∙ ap some same)
  index_at (x ∷ names) i (suc j) m only h =
      index_at names (i + 1) j (put x (u32 i) m) (λ k q. omega (arith, only (suc k) q)) h
      ∙ ap (λ k. some (u32 k)) (omega arith)

restored_lookup :
    (t : TagRegistry) (n : String)
    → IsTable t
    → lookup n (restore_names (snapshot_names t)).by_name ≡ lookup n t.by_name
unfolding restore_names snapshot_names lookup
restored_lookup t n v = elim (Option-cases (lookup n t.by_name)) [
  | inl missing ↦
      index_missing n t.names 0 [] (λ j h. cc (v.listed n j h, missing)) ∙ (nothing ∙ sym missing)
  | inr (i, at) ↦
      let inside : i < length t.names = get_elem?-lt t.names i (v.found n i at) in
      index_at n t.names 0 i [] (λ k h. same_place k i (v.listed n k h) at) (v.found n i at)
      ∙ (ap some (omega (arith, v.small)) ∙ sym at)
]
  where
    nothing : lookup {V = ℕ} n [] ≡ none
    nothing = refl

    same_place : (k i : ℕ) → lookup n t.by_name ≡ some k → lookup n t.by_name ≡ some i → k ≡ i
    same_place k i p q = ground arith

same_id :
    (u t : TagRegistry) (n : String)
    → lookup n u.by_name ≡ lookup n t.by_name
    → u.names ≡ t.names
    → (register u n).0 ≡ (register t n).0
unfolding register
same_id u t n h e = ground (arith, ap (λ l. u32 (length l)) e)

restored_id :
    (t : TagRegistry) (n : String)
    → IsTable t
    → (register (restore_names (snapshot_names t)) n).0 ≡ (register t n).0
unfolding restore_names snapshot_names
restored_id t n v = same_id (restore_names (snapshot_names t)) t n (restored_lookup t n v) refl

restored_name :
    (t : TagRegistry) (i : ℕ) → name_of (restore_names (snapshot_names t)) i ≡ name_of t i
unfolding name_of restore_names snapshot_names
restored_name t i = refl

-- Restoring the snapshot of a valid registry gives a registry that answers every Register and
-- every Name with what the old one answers.
pub restore_names_correct :
    (t : TagRegistry)
    → IsTable t
    → ((n : String) → (register (restore_names (snapshot_names t)) n).0 ≡ (register t n).0)
      × ((i : ℕ) → name_of (restore_names (snapshot_names t)) i ≡ name_of t i)
restore_names_correct t v = ((λ n. restored_id t n v), restored_name t)
