-- ===== src/Column/View.antt =====
-- The column as a map from entity indices to values.
use simulator.Common.{
  ℕ, zero, suc, ◌+◌, ◌-◌, ◌^◌, ◌≤◌, ◌<◌, ◌≡◌, refl, sym, ◌∙◌, ◌⊎◌, inl, inr, true, false, not,
  Option, none, some, List, [], ◌∷◌, ◌++◌, arith, ℕ_discrete, Returns, returns, ltb, leb, ◌==◌,
  if◌then◌else◌, Bool-cases, length, get_elem?, set, get_or, take, replicate, length-append,
  length-set, length-replicate, get_elem?-get_or, get_elem?-append_end, get_or-set, get_or-append,
}
use simulator.Entity.{u32, index, call, position}
use simulator.Column.{Column, grow_int32, present, value_at, overwrite, set_value, get, has}

pub sparse_inside : (xs : List ℕ) (i : ℕ) → 0 < get_or xs i 0 → i < length xs
sparse_inside [] i h = absurd (omega arith)
sparse_inside (x ∷ xs) zero h = omega arith
sparse_inside (x ∷ xs) (suc i) h = omega (arith, sparse_inside xs i h)

zeros_at : (n i : ℕ) → get_or {A = ℕ} (replicate n 0) i 0 ≡ 0
zeros_at zero i = refl
zeros_at (suc n) zero = refl
zeros_at (suc n) (suc i) = zeros_at n i

-- Growing changes no entry, and makes room.
grow_at : (xs : List ℕ) (idx i : ℕ) → get_or (grow_int32 xs idx) i 0 ≡ get_or xs i 0
unfolding grow_int32
grow_at xs idx i = elim (Bool-cases (leb (idx + 1) (length xs))) [
  | inl fits ↦ rw fits refl
  | inr short ↦
      rw (short, get_or-append xs (replicate (idx + 1 - length xs) 0) i 0)
        (past (Bool-cases (ltb i (length xs))))
]
  where
    beyond : (xs : List ℕ) (i : ℕ) → length xs ≤ i → get_or xs i 0 ≡ 0
    beyond [] i h = refl
    beyond (x ∷ xs) zero h = absurd (omega arith)
    beyond (x ∷ xs) (suc i) h = beyond xs i (omega arith)

    past :
        (ltb i (length xs) ≡ true) ⊎ (ltb i (length xs) ≡ false)
        → (if ltb i (length xs)
            then get_or xs i 0
            else get_or {A = ℕ} (replicate (idx + 1 - length xs) 0) (i - length xs) 0)
          ≡ get_or xs i 0
    past (inl inside) = rw inside refl
    past (inr outside) =
        rw (outside, zeros_at (idx + 1 - length xs) (i - length xs))
          (sym (beyond xs i (ground arith)))

grow_room : (xs : List ℕ) (idx : ℕ) → idx < length (grow_int32 xs idx)
unfolding grow_int32
grow_room xs idx = elim (Bool-cases (leb (idx + 1) (length xs))) [
  | inl fits ↦ rw fits (ground arith)
  | inr short ↦ rw short (
      ground (
        arith,
        length-append xs (replicate (idx + 1 - length xs) 0),
        length-replicate {A = ℕ} (idx + 1 - length xs) 0,
      ))
]

module _ {A : Type 0} where
  pub get_elem?-set :
      (xs : List A) (i j : ℕ) (v : A)
      → i < length xs
      → get_elem? (set xs i v) j ≡ (if i == j then some v else get_elem? xs j)
  get_elem?-set [] i j v h = absurd (omega arith)
  get_elem?-set (x ∷ xs) zero zero v h = refl
  get_elem?-set (x ∷ xs) zero (suc j) v h = ground arith
  get_elem?-set (x ∷ xs) (suc i) zero v h = ground arith
  get_elem?-set (x ∷ xs) (suc i) (suc j) v h = ground (arith, get_elem?-set xs i j v)

  get_elem?-append_left :
      (xs ys : List A) (i : ℕ) → i < length xs → get_elem? (xs ++ ys) i ≡ get_elem? xs i
  get_elem?-append_left [] ys i h = absurd (omega arith)
  get_elem?-append_left (x ∷ xs) ys zero h = refl
  get_elem?-append_left (x ∷ xs) ys (suc i) h = get_elem?-append_left xs ys i (omega arith)

  pub get_elem?-take :
      (n : ℕ) (xs : List A) (i : ℕ) → i < n → get_elem? (take n xs) i ≡ get_elem? xs i
  get_elem?-take zero xs i h = absurd (omega arith)
  get_elem?-take (suc n) [] i h = refl
  get_elem?-take (suc n) (x ∷ xs) zero h = refl
  get_elem?-take (suc n) (x ∷ xs) (suc i) h = get_elem?-take n xs i (omega arith)

  pub get_elem?-some : (xs : List A) (i : ℕ) → i < length xs → (x : A) × (get_elem? xs i ≡ some x)
  get_elem?-some [] i h = absurd (omega arith)
  get_elem?-some (x ∷ xs) zero h = (x, refl)
  get_elem?-some (x ∷ xs) (suc i) h = get_elem?-some xs i (omega arith)

module _ {T : Type 0} where
  pub record IsColumn (c : Column T) : Type 0 where
    pub paired : length c.dense ≡ length c.values
    pub fits : length c.values < 2 ^ 31
    pub listed :
        (p : ℕ) → p < length c.dense → get_or c.sparse (index (get_or c.dense p 0)) 0 ≡ p + 1
    pub pointed :
        (i : ℕ)
        → 0 < get_or c.sparse i 0
        → (get_or c.sparse i 0 ≤ length c.dense)
          × (index (get_or c.dense (get_or c.sparse i 0 - 1) 0) ≡ i)

  -- What the column holds at an index.
  abbrev pub view : Column T → ℕ → Option T
  view c i = if get_or c.sparse i 0 == 0 then none else get_elem? c.values (get_or c.sparse i 0 - 1)

  module _ (c : Column T) (v : IsColumn c) where
    pub present_iff : (i : ℕ) → present c i ≡ not (get_or c.sparse i 0 == 0)
    unfolding present
    present_iff i = ground (arith, sparse_inside c.sparse i)

    pub position-eq :
        (i : ℕ)
        → 0 < get_or c.sparse i 0
        → (get_elem? c.sparse i ≡ some (get_or c.sparse i 0))
          × (position (get_or c.sparse i 0) ≡ some (get_or c.sparse i 0 - 1))
          × (get_or c.sparse i 0 - 1 < length c.values)
    unfolding position
    position-eq i h =
        let (le, _) = v.pointed i h in
        (
          get_elem?-get_or c.sparse i 0 (sparse_inside c.sparse i h),
          ground (arith, v.paired, v.fits, le),
          omega (arith, v.paired),
        )

    -- Get reads the view, and never panics.
    pub get-view : (e : ℕ) → get c e ≡ some (view c (index e))
    unfolding get value_at
    get-view e = elim (ℕ_discrete (get_or c.sparse (index e) 0) 0) [
      | yes absent ↦
          let none_there : present c (index e) ≡ false = ground (arith, present_iff (index e)) in
          rw (none_there, absent) refl
      | no ne ↦
          let there : present c (index e) ≡ true = ground (arith, present_iff (index e)) in
          let (read, pos, inside) = position-eq (index e) (omega arith) in
          let found : (get_or c.sparse (index e) 0 == 0) ≡ false = ground arith in
          let (x, at) = get_elem?-some c.values (get_or c.sparse (index e) 0 - 1) inside in
          rw (there, read, pos, found, at) refl
    ]

  -- What Set promises: the column and the revision.
  pub record IsWritten (c : Column T) (e : ℕ) (x : T) (revision : ℕ) (r : Column T × ℕ)
      : Type 0 where
    pub valid : IsColumn r.0
    pub stored : (i : ℕ) → view r.0 i ≡ (if index e == i then some x else view c i)
    pub members : r.0.dense ≡ (if has c e then c.dense else c.dense ++ e ∷ [])
    pub revised : r.1 ≡ (if has c e then revision else call c.bump revision)
    pub same_bump : r.0.bump ≡ c.bump

  module _ (c : Column T) (v : IsColumn c) (e : ℕ) (x : T) where
    abbrev idx : ℕ
    idx = index e

    abbrev grown : List ℕ
    grown = grow_int32 c.sparse idx

    -- A new member.
    abbrev added : Column T
    added = record c {
      sparse = set grown idx (length c.values + 1);
      dense = c.dense ++ e ∷ [];
      values = c.values ++ x ∷ [];
    }

    added_at :
        (i : ℕ)
        → get_or added.sparse i 0 ≡ (if idx == i then length c.values + 1 else get_or c.sparse i 0)
    added_at i =
        rw
          (
            get_or-set grown idx i (length c.values + 1) 0 (grow_room c.sparse idx),
            grow_at c.sparse idx i,
          )
          refl

    added_end : get_or added.dense (length c.dense) 0 ≡ e
    added_end =
        let past : ltb (length c.dense) (length c.dense) ≡ false = ground arith in
        let zeroth : length c.dense - length c.dense ≡ 0 = omega arith in
        rw (get_or-append c.dense (e ∷ []) (length c.dense) 0, past, zeroth) refl

    added_old : (p : ℕ) → p < length c.dense → get_or added.dense p 0 ≡ get_or c.dense p 0
    added_old p h = ground (arith, get_or-append c.dense (e ∷ []) p 0)

    added-IsColumn : get_or c.sparse idx 0 ≡ 0 → length c.values + 1 < 2 ^ 31 → IsColumn added
    added-IsColumn absent few =
        let size = length-append c.dense (e ∷ []) in
        let size' = length-append c.values (x ∷ []) in
        let hit : (idx == idx) ≡ true = ground arith in
        record {
          paired = omega (arith, size, size', v.paired);
          fits = omega (arith, size');
          listed = λ p h. elim (ℕ_discrete p (length c.dense)) [
            | yes last ↦ rw (last, added_end, added_at idx, hit) (omega (arith, v.paired))
            | no ne ↦
                let l = v.listed p (omega (arith, size)) in
                rw (added_old p (omega (arith, size)))
                  (ground (arith, l, added_at (index (get_or c.dense p 0))))
          ];
          pointed = λ i h. elim (Bool-cases (idx == i)) [
            | inl same ↦
                let at : get_or added.sparse i 0 ≡ length c.dense + 1 =
                  ground (arith, added_at i, v.paired) in
                let back : length c.dense + 1 - 1 ≡ length c.dense = omega arith in
                rw (at, back, added_end) (omega (arith, size), ground arith)
            | inr other ↦
                let at : get_or added.sparse i 0 ≡ get_or c.sparse i 0 =
                  ground (arith, added_at i) in
                let (le, to) = v.pointed i (omega (arith, at)) in
                rw (at, added_old (get_or c.sparse i 0 - 1) (omega (arith, at)))
                  (omega (arith, size), to)
          ];
        }

    added-view :
        get_or c.sparse idx 0 ≡ 0 → (i : ℕ) → view added i ≡ (if idx == i then some x else view c i)
    added-view absent i = elim (Bool-cases (idx == i)) [
      | inl same ↦
          let back : length c.values + 1 - 1 ≡ length c.values = omega arith in
          let some_there : (length c.values + 1 == 0) ≡ false = ground arith in
          rw (added_at i, same, some_there, back) (get_elem?-append_end c.values [] x)
      | inr other ↦
          rw (added_at i, other)
            (elim (ℕ_discrete (get_or c.sparse i 0) 0) [
              | yes blank ↦ rw blank refl
              | no ne ↦
                  let pos = (position-eq c v i (omega arith)).2 in
                  let there : (get_or c.sparse i 0 == 0) ≡ false = ground arith in
                  rw there (get_elem?-append_left c.values (x ∷ []) (get_or c.sparse i 0 - 1) pos)
            ])
    ]

    -- A new value for a member.
    abbrev updated : Column T
    updated = record c { sparse = grown; values = set c.values (get_or c.sparse idx 0 - 1) x }

    updated-IsColumn : IsColumn updated
    updated-IsColumn =
        let size = length-set c.values (get_or c.sparse idx 0 - 1) x in
        record {
          paired = omega (arith, size, v.paired);
          fits = omega (arith, size, v.fits);
          listed = λ p h. grow_at c.sparse idx (index (get_or c.dense p 0)) ∙ v.listed p h;
          pointed = λ i h. ground (arith, grow_at c.sparse idx i, v.pointed i);
        }

    updated-view :
        0 < get_or c.sparse idx 0
        → (i : ℕ) → view updated i ≡ (if idx == i then some x else view c i)
    updated-view there i =
        let here = (position-eq c v idx there).2 in
        let write =
          get_elem?-set c.values (get_or c.sparse idx 0 - 1) (get_or c.sparse i 0 - 1) x here in
        rw (grow_at c.sparse idx i) (elim (ℕ_discrete (get_or c.sparse i 0) 0) [
          | yes blank ↦ let other : (idx == i) ≡ false = ground arith in rw (blank, other) refl
          | no ne ↦
              let found : (get_or c.sparse i 0 == 0) ≡ false = ground arith in
              let same : (get_or c.sparse idx 0 - 1 == get_or c.sparse i 0 - 1) ≡ (idx == i) =
                ground (arith, v.pointed idx there, v.pointed i (omega arith)) in
              rw (found, write, same) refl
        ])

    module _ (revision : ℕ) (few : length c.values + 1 < 2 ^ 31) where
      set_new :
          get_or c.sparse idx 0 ≡ 0 → set_value c e x revision ≡ some (added, call c.bump revision)
      unfolding set_value
      set_new absent =
          let read = get_elem?-get_or grown idx 0 (grow_room c.sparse idx) in
          let room : ltb idx (length grown) ≡ true = ground (arith, grow_room c.sparse idx) in
          let word : u32 (length c.values + 1) ≡ length c.values + 1 = omega arith in
          rw (read, grow_at c.sparse idx idx, absent, room, word) refl

      set_old : 0 < get_or c.sparse idx 0 → set_value c e x revision ≡ some (updated, revision)
      unfolding set_value overwrite
      set_old there =
          let read = get_elem?-get_or grown idx 0 (grow_room c.sparse idx) in
          let found : (get_or c.sparse idx 0 == 0) ≡ false = ground arith in
          let (_, pos, inside) = position-eq c v idx there in
          let room : ltb (get_or c.sparse idx 0 - 1) (length c.values) ≡ true = ground arith in
          rw (read, grow_at c.sparse idx idx, found, pos, room) refl

      -- Set writes the value at the entity's index and nowhere else. A new member goes to the end
      -- of the list and changes the structural revision; for an index that is present, the list of
      -- members and the revision stay, even if the member is another generation of the index.
      pub set_value_correct : Returns (IsWritten c e x revision) (set_value c e x revision)
      unfolding has
      set_value_correct = elim (ℕ_discrete (get_or c.sparse idx 0) 0) [
        | yes absent ↦
            let none_there : present c idx ≡ false = ground (arith, present_iff c v idx) in
            rw (set_new absent) (
              returns (record {
                valid = added-IsColumn absent few;
                stored = added-view absent;
                members = rw none_there refl;
                revised = rw none_there refl;
                same_bump = refl;
              }))
        | no ne ↦
            let there : present c idx ≡ true = ground (arith, present_iff c v idx) in
            rw (set_old (omega arith)) (
              returns (record {
                valid = updated-IsColumn;
                stored = updated-view (omega arith);
                members = rw there refl;
                revised = rw there refl;
                same_bump = refl;
              }))
      ]
