-- ===== src/Entity/Snapshot.antt =====
-- snapshot and restore: the sparse slice, which is not stored, comes back as it was.
use simulator.Common.{
  ℕ, zero, suc, ◌+◌, ◌-◌, ◌<◌, ◌≡◌, refl, sym, ap, ◌∙◌, ◌≢◌, ◌⊎◌, inl, inr, true, false, Option,
  some, List, [], ◌∷◌, arith, ℕ_discrete, ◌>>=◌, Returns, returns, ltb, ◌==◌, if◌then◌else◌,
  Bool-cases, length, set, get_or, replicate, length-set, length-replicate, get_or-set,
}
use simulator.Entity.{EntityManager, u32, index, snapshot, restore, index_dense}
use simulator.Entity.Invariant.{IsValid}

list_ext :
    (xs ys : List ℕ) → length xs ≡ length ys → ((i : ℕ) → get_or xs i 0 ≡ get_or ys i 0) → xs ≡ ys
list_ext [] [] e h = refl
list_ext [] (y ∷ ys) e h = absurd (omega arith)
list_ext (x ∷ xs) [] e h = absurd (omega arith)
list_ext (x ∷ xs) (y ∷ ys) e h =
    let tails = list_ext xs ys (omega arith) (λ i. h (suc i)) in cc (h 0)

-- An entry holds the position of an entity with its index, or what it held before.
record Indexed (dense : List ℕ) (pos : ℕ) (sparse r : List ℕ) : Type 0 where
  size : length r ≡ length sparse
  entry :
      (i : ℕ)
      → ((p : ℕ) × (p < length dense)
          × (index (get_or dense p 0) ≡ i)
          × (get_or r i 0 ≡ u32 (pos + p + 1)))
        ⊎ (((p : ℕ) → p < length dense → index (get_or dense p 0) ≢ i)
            × (get_or r i 0 ≡ get_or sparse i 0))

index_dense-Indexed :
    (dense : List ℕ) (pos : ℕ) (sparse : List ℕ)
    → ((p : ℕ) → p < length dense → index (get_or dense p 0) < length sparse)
    → Returns (Indexed dense pos sparse) (index_dense dense pos sparse)
unfolding index_dense
index_dense-Indexed [] pos sparse h =
    returns (record { size = refl; entry = λ i. inr ((λ p l. absurd (omega arith)), refl) })
index_dense-Indexed (e ∷ dense) pos sparse h =
    let room : ltb (index e) (length sparse) ≡ true = ground (arith, h 0) in
    let written = set sparse (index e) (u32 (pos + 1)) in
    let size = length-set sparse (index e) (u32 (pos + 1)) in
    rw room (
      extend (
        index_dense-Indexed dense (pos + 1) written
          λ p l. omega (arith, size, h (suc p) (omega arith))))
  where
    written' : List ℕ
    written' = set sparse (index e) (u32 (pos + 1))

    read :
        (i : ℕ) → get_or written' i 0 ≡ (if index e == i then u32 (pos + 1) else get_or sparse i 0)
    read i = get_or-set sparse (index e) i (u32 (pos + 1)) 0 (h 0 (omega arith))

    nowhere :
        (i : ℕ)
        → ((p : ℕ) → p < length dense → index (get_or dense p 0) ≢ i)
        → (index e == i) ≡ false
        → (p : ℕ) → p < length (e ∷ dense)
        → index (get_or (e ∷ dense) p 0) ≢ i
    nowhere i none_there miss zero l = λ f. absurd (ground arith)
    nowhere i none_there miss (suc p) l = none_there p (omega arith)

    extend :
        {t : Option (List ℕ)}
        → Returns (Indexed dense (pos + 1) written') t
        → Returns (Indexed (e ∷ dense) pos sparse) t
    extend (returns {a = r} g) = returns {a = r} (record {
      size = g.size ∙ length-set sparse (index e) (u32 (pos + 1));
      entry = λ i. elim (g.entry i) [
        | inl (p, l, at, v) ↦
            let sum : pos + 1 + p + 1 ≡ pos + suc p + 1 = omega arith in
            inl (suc p, omega arith, at, v ∙ ap u32 sum)
        | inr (none_there, keep) ↦ elim (Bool-cases (index e == i)) [
          | inl hit ↦
              let sum : pos + 1 ≡ pos + 0 + 1 = omega arith in
              inl (0, omega arith, ground arith, keep ∙ (rw (read i, hit) (ap u32 sum)))
          | inr miss ↦ inr (nowhere i none_there miss, keep ∙ (rw (read i, miss) refl))
        ]
      ];
    })

get_or-replicate : (n i : ℕ) → get_or {A = ℕ} (replicate n 0) i 0 ≡ 0
get_or-replicate zero i = refl
get_or-replicate (suc n) zero = refl
get_or-replicate (suc n) (suc i) = get_or-replicate n i

module _ (m : EntityManager) (v : IsValid m) where
  Indexed→sparse :
      (r : List ℕ) → Indexed m.dense 0 (replicate (length m.versions) 0) r → r ≡ m.sparse
  Indexed→sparse r g =
      list_ext r m.sparse
        (omega (arith, g.size, length-replicate {A = ℕ} (length m.versions) 0, v.sizes))
        λ i. elim (g.entry i) [
          | inl (p, l, at, e) ↦
              let listed = v.listed p l in
              let here : get_or m.sparse i 0 ≡ p + 1 = rw (← at) listed.2 in
              omega (arith, e, here, v.fits)
          | inr (none_there, e) ↦ elim (ℕ_discrete (get_or m.sparse i 0) 0) [
            | yes blank ↦ e ∙ get_or-replicate (length m.versions) i ∙ sym blank
            | no ne ↦
                let (le, at) = v.pointed i (omega arith) in
                absurd (none_there (get_or m.sparse i 0 - 1) (omega arith) at)
          ]
        ]

-- Restoring the snapshot of a valid manager, into any manager, gives that manager back with the
-- callback of the other: all later calls behave alike.
pub restore-snapshot :
    (m other : EntityManager)
    → IsValid m
    → restore other (snapshot m) ≡ some (record m { bump = other.bump })
unfolding restore snapshot
restore-snapshot m other v = finish (
    index_dense-Indexed m.dense 0 (replicate (length m.versions) 0)
      λ p l. omega (arith, v.listed p l, v.room, length-replicate {A = ℕ} (length m.versions) 0))
  where
    finish :
        {t : Option (List ℕ)}
        → Returns (Indexed m.dense 0 (replicate (length m.versions) 0)) t
        → (t >>= λ sparse. some (record other {
          dense = m.dense;
          next = m.next;
          free = m.free;
          versions = m.versions;
          sparse = sparse;
          count = length m.dense;
        }))
          ≡ some (record m { bump = other.bump })
    finish (returns {a = r} g) = rw (Indexed→sparse m v r g, ← v.counted) refl
