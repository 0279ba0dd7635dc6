-- ===== src/Column/Removal.antt =====
-- A column in which the last member has filled the place of another.
use simulator.Common.{
  ℕ, ◌+◌, ◌-◌, ◌≤◌, ◌<◌, ◌≡◌, refl, sym, ap, subst, ◌∙◌, inl, inr, true, false, none, arith,
  ℕ_discrete, ◌==◌, if◌then◌else◌, Bool-cases, length, get_elem?, get_or,
}
use simulator.Entity.{index}
use simulator.Column.{Column}
use simulator.Column.View.{IsColumn, view}

module _ {T : Type 0} (c : Column T) (v : IsColumn c) (idx : ℕ)
    (there : 0 < get_or c.sparse idx 0) where
  abbrev pub pos : ℕ
  pos = get_or c.sparse idx 0 - 1

  abbrev pub last : ℕ
  last = length c.values - 1

  -- The last member.
  abbrev pub moved : ℕ
  moved = get_or c.dense last 0

  -- The column after the member at `idx` is gone, place by place.
  pub record IsFilled (d : Column T) : Type 0 where
    pub dense_size : length d.dense ≡ last
    pub values_size : length d.values ≡ last
    pub dense_at :
        (p : ℕ) → p < last → get_or d.dense p 0 ≡ (if p == pos then moved else get_or c.dense p 0)
    pub values_at :
        (p : ℕ)
        → p < last
        → get_elem? d.values p
          ≡ (if p == pos then get_elem? c.values last else get_elem? c.values p)
    pub sparse_at :
        (i : ℕ)
        → get_or d.sparse i 0
          ≡ (if idx == i then 0 else if index moved == i then pos + 1 else get_or c.sparse i 0)

  pub pos_facts :
      (pos < length c.dense) × (index (get_or c.dense pos 0) ≡ idx) × (0 < length c.dense)
  pos_facts = let (le, to) = v.pointed idx there in (omega arith, to, omega arith)

  -- The entry of the last member.
  pub moved_at : get_or c.sparse (index moved) 0 ≡ last + 1
  moved_at = v.listed last (omega (arith, pos_facts, v.paired))

  -- When the last member is another one, the place that is filled is not the last.
  filled_short : (i : ℕ) → (idx == i) ≡ false → (index moved == i) ≡ true → pos < last
  filled_short i other filled = elim (ℕ_discrete pos last) [
    | yes e ↦
        let same : index moved ≡ idx = ap (λ p. index (get_or c.dense p 0)) (sym e) ∙ pos_facts.1 in
        absurd (ground (arith, same))
    | no ne ↦ omega (arith, pos_facts, v.paired)
  ]

  -- Every other member keeps its place.
  kept_at :
      (i : ℕ)
      → (idx == i) ≡ false
      → (index moved == i) ≡ false
      → 0 < get_or c.sparse i 0
      → (get_or c.sparse i 0 - 1 < last) × ((get_or c.sparse i 0 - 1 == pos) ≡ false)
  kept_at i other kept h =
      let (le, to) = v.pointed i h in
      let not_pos : (get_or c.sparse i 0 - 1 == pos) ≡ false =
        elim (Bool-cases (get_or c.sparse i 0 - 1 == pos)) [
          | inl e ↦
              let same : index (get_or c.dense pos 0) ≡ i =
                subst (λ p. index (get_or c.dense p 0) ≡ i) (ground arith) to in
              absurd (ground (arith, same, pos_facts))
          | inr e ↦ e
        ] in
      elim (ℕ_discrete (get_or c.sparse i 0 - 1) last) [
        | yes e ↦
            let same : index moved ≡ i = subst (λ p. index (get_or c.dense p 0) ≡ i) e to in
            absurd (ground (arith, same))
        | no ne ↦ (omega (arith, v.paired), not_pos)
      ]

  module _ (d : Column T) (f : IsFilled d) where
    listed_after : (p : ℕ) → p < last → get_or d.sparse (index (get_or d.dense p 0)) 0 ≡ p + 1
    listed_after p h = elim (ℕ_discrete p pos) [
      | yes same ↦
          let here : get_or d.dense p 0 ≡ moved = ground (arith, f.dense_at p h) in
          let apart : (idx == index moved) ≡ false = elim (Bool-cases (idx == index moved)) [
            | inl same_index ↦
                let entry : get_or c.sparse idx 0 ≡ last + 1 =
                  ap (λ i. get_or c.sparse i 0) (ground arith) ∙ moved_at in
                absurd (omega arith)
            | inr e ↦ e
          ] in
          rw here (ground (arith, f.sparse_at (index moved)))
      | no ne ↦
          let here : get_or d.dense p 0 ≡ get_or c.dense p 0 = ground (arith, f.dense_at p h) in
          let entry = v.listed p (omega (arith, v.paired)) in
          rw here (ground (arith, f.sparse_at (index (get_or c.dense p 0)), entry, moved_at))
    ]

    pointed_after :
        (i : ℕ)
        → 0 < get_or d.sparse i 0
        → (get_or d.sparse i 0 ≤ length d.dense)
          × (index (get_or d.dense (get_or d.sparse i 0 - 1) 0) ≡ i)
    pointed_after i h = elim (Bool-cases (idx == i)) [
      | inl gone ↦ absurd (ground (arith, f.sparse_at i))
      | inr other ↦ elim (Bool-cases (index moved == i)) [
        | inl filled ↦
            let entry : get_or d.sparse i 0 ≡ pos + 1 = ground (arith, f.sparse_at i) in
            let short : pos < last = filled_short i other filled in
            let back : pos + 1 - 1 ≡ pos = omega arith in
            rw (entry, back) (omega (arith, f.dense_size), ground (arith, f.dense_at pos short))
        | inr kept ↦
            let entry : get_or d.sparse i 0 ≡ get_or c.sparse i 0 = ground (arith, f.sparse_at i) in
            let (le, to) = v.pointed i (omega (arith, entry)) in
            let (inside, apart) = kept_at i other kept (omega (arith, entry)) in
            let holds : get_or d.dense (get_or c.sparse i 0 - 1) 0
                ≡ get_or c.dense (get_or c.sparse i 0 - 1) 0 =
              f.dense_at (get_or c.sparse i 0 - 1) inside ∙ rw apart refl in
            rw (entry, holds) (omega (arith, f.dense_size), to)
      ]
    ]

    pub filled-IsColumn : IsColumn d
    filled-IsColumn = record {
      paired = f.dense_size ∙ sym f.values_size;
      fits = omega (arith, f.values_size, v.fits);
      listed = λ p h. listed_after p (omega (arith, f.dense_size));
      pointed = pointed_after;
    }

    pub filled-view : (i : ℕ) → view d i ≡ (if idx == i then none else view c i)
    filled-view i = elim (Bool-cases (idx == i)) [
      | inl gone ↦
          let entry : get_or d.sparse i 0 ≡ 0 = ground (arith, f.sparse_at i) in
          rw (gone, entry) refl
      | inr other ↦ elim (Bool-cases (index moved == i)) [
        | inl filled ↦
            let entry : get_or d.sparse i 0 ≡ pos + 1 = ground (arith, f.sparse_at i) in
            let same : index moved ≡ i = ground arith in
            let before : get_or c.sparse i 0 ≡ last + 1 =
              ap (λ j. get_or c.sparse j 0) (sym same) ∙ moved_at in
            let back : pos + 1 - 1 ≡ pos = omega arith in
            let back' : last + 1 - 1 ≡ last = omega arith in
            let there_is : (pos + 1 == 0) ≡ false = ground arith in
            let there_was : (last + 1 == 0) ≡ false = ground arith in
            let self : (pos == pos) ≡ true = ground arith in
            rw (other, entry, before, back, back', there_is, there_was)
              (f.values_at pos (filled_short i other filled) ∙ rw self refl)
        | inr kept ↦
            let entry : get_or d.sparse i 0 ≡ get_or c.sparse i 0 = ground (arith, f.sparse_at i) in
            rw (other, entry)
              (elim (ℕ_discrete (get_or c.sparse i 0) 0) [
                | yes blank ↦ rw blank refl
                | no ne ↦
                    let (inside, apart) = kept_at i other kept (omega arith) in
                    let found : (get_or c.sparse i 0 == 0) ≡ false = ground arith in
                    rw found (f.values_at (get_or c.sparse i 0 - 1) inside ∙ rw apart refl)
              ])
      ]
    ]
