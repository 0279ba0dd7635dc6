-- ===== src/Migrations/Applied.antt =====
-- A migration run that ends without an error has recorded every migration, and is not repeated.
use simulator.Common.{
  ◌≡◌, refl, sym, ap, ◌∙◌, ◌⊎◌, inl, inr, Bool, true, false, Option, none, some, List, [], ◌∷◌,
  arith,
}
use Prim.Native.String.{String}
use simulator.Common.Int.{ℤ}
use simulator.Migrations.{
  Migration, Database, is_applied, and_then, ended, or_stop, change, apply_one, apply_pending,
  after_versions, after_table, migrate,
}

-- Every version that is in one list is in the other.
abbrev pub IsWithin : List ℤ → List ℤ → Type 0
IsWithin vs ws = (v : ℤ) → is_applied v vs ≡ true → is_applied v ws ≡ true

-- The versions of all migrations are among the given ones.
abbrev pub AreRecorded : List Migration → List ℤ → Type 0
AreRecorded [] vs = Unit {0}
AreRecorded (m ∷ ms) vs = (is_applied m.version vs ≡ true) × AreRecorded ms vs

AreRecorded-more :
    (ms : List Migration) (vs ws : List ℤ) → IsWithin vs ws → AreRecorded ms vs → AreRecorded ms ws
AreRecorded-more [] vs ws more r = tt
AreRecorded-more (m ∷ ms) vs ws more (h, r) = (more m.version h, AreRecorded-more ms vs ws more r)

-- What the database does with the table of versions: CREATE TABLE IF NOT EXISTS leaves one that is
-- there; an INSERT adds a row; the rest of a transaction, with scripts that leave that table alone,
-- does not touch it.
pub record IsDatabase {S E : Type 0} (db : Database S E) : Type 0 where
  pub table_kept : (s : S) (vs : List ℤ) → db.versions s ≡ inr vs → db.create_table s ≡ inr s
  pub begin_kept : (s t : S) → db.begin_tx s ≡ inr t → db.versions t ≡ db.versions s
  pub exec_kept : (sql : String) (s t : S) → db.exec sql s ≡ inr t → db.versions t ≡ db.versions s
  pub commit_kept : (s t : S) → db.commit s ≡ inr t → db.versions t ≡ db.versions s
  pub inserted :
      (v : ℤ) (name : String) (s t : S) (vs : List ℤ)
      → db.versions s ≡ inr vs
      → db.insert_version v name s ≡ inr t
      → (ws : List ℤ) × (db.versions t ≡ inr ws) × (is_applied v ws ≡ true) × IsWithin vs ws

module _ {S E : Type 0} (db : Database S E) (l : IsDatabase db) where
  -- The versions recorded in a state, more than `vs`.
  abbrev Records : S → List ℤ → Type 0
  Records s vs = (ws : List ℤ) × (db.versions s ≡ inr ws) × IsWithin vs ws

  apply_one-recorded :
      (m : Migration) (s t : S) (vs : List ℤ)
      → db.versions s ≡ inr vs
      → apply_one db m true s ≡ (none, t)
      → (ws : List ℤ) × (db.versions t ≡ inr ws) × (is_applied m.version ws ≡ true) × IsWithin vs ws
  unfolding apply_one change
  apply_one-recorded m s t vs e done = from_begin (db.begin_tx s) refl done
    where
      from_commit :
          (u : S) (ws : List ℤ)
          → db.versions u ≡ inr ws
          → (is_applied m.version ws ≡ true) × IsWithin vs ws
          → (r : E ⊎ S) → db.commit u ≡ r
          → ended s r ≡ (none, t)
          → (ws : List ℤ) × (db.versions t ≡ inr ws)
            × (is_applied m.version ws ≡ true)
            × IsWithin vs ws
      from_commit u ws known facts (inl x) c done = absurd (ground (arith, ap (λ r. r.0) done))
      from_commit u ws known (h, more) (inr x) c done =
          let same : x ≡ t = ap (λ r. r.1) done in
          (ws, ap (λ y. db.versions y) (sym same) ∙ l.commit_kept u x c ∙ known, h, more)

      from_insert :
          (u : S)
          → db.versions u ≡ inr vs
          → (r : E ⊎ S) → db.insert_version m.version m.name u ≡ r
          → ended s (and_then r db.commit) ≡ (none, t)
          → (ws : List ℤ) × (db.versions t ≡ inr ws)
            × (is_applied m.version ws ≡ true)
            × IsWithin vs ws
      from_insert u known (inl x) c done = absurd (ground (arith, ap (λ r. r.0) done))
      from_insert u known (inr x) c done =
          let (ws, now, h, more) = l.inserted m.version m.name u x vs known c in
          from_commit x ws now (h, more) (db.commit x) refl done

      from_exec :
          (u : S)
          → db.versions u ≡ inr vs
          → (r : E ⊎ S) → db.exec m.up u ≡ r
          → ended s (and_then (and_then r (db.insert_version m.version m.name)) db.commit)
            ≡ (none, t)
          → (ws : List ℤ) × (db.versions t ≡ inr ws)
            × (is_applied m.version ws ≡ true)
            × IsWithin vs ws
      from_exec u known (inl x) c done = absurd (ground (arith, ap (λ r. r.0) done))
      from_exec u known (inr x) c done =
          from_insert x (l.exec_kept m.up u x c ∙ known) (db.insert_version m.version m.name x) refl
            done

      from_begin :
          (r : E ⊎ S)
          → db.begin_tx s ≡ r
          → ended s (and_then r (λ t. and_then (change db m true t) db.commit)) ≡ (none, t)
          → (ws : List ℤ) × (db.versions t ≡ inr ws)
            × (is_applied m.version ws ≡ true)
            × IsWithin vs ws
      from_begin (inl x) c done = absurd (ground (arith, ap (λ r. r.0) done))
      from_begin (inr x) c done = from_exec x (l.begin_kept s x c ∙ e) (db.exec m.up x) refl done

  -- Versions that were applied before are skipped.
  apply_pending-skips :
      (vs : List ℤ) (ms : List Migration) (s : S)
      → AreRecorded ms vs
      → apply_pending db vs ms s ≡ (none, s)
  unfolding apply_pending
  apply_pending-skips vs [] s r = refl
  apply_pending-skips vs (m ∷ ms) s (h, r) = rw (h, apply_pending) (apply_pending-skips vs ms s r)

  apply_pending-recorded :
      (applied : List ℤ) (ms : List Migration) (s t : S) (vs : List ℤ)
      → db.versions s ≡ inr vs
      → IsWithin applied vs
      → apply_pending db applied ms s ≡ (none, t)
      → (ws : List ℤ) × (db.versions t ≡ inr ws) × AreRecorded ms ws × IsWithin vs ws
  unfolding apply_pending
  apply_pending-recorded applied [] s t vs e known done =
      (vs, ap (λ y. db.versions y) (sym (ap (λ r. r.1) done)) ∙ e, tt, λ v h. h)
  apply_pending-recorded applied (m ∷ ms) s t vs e known done =
      pending (λ u us now more left. apply_pending-recorded applied ms u t us now more left)
        (is_applied m.version applied) refl done
    where
      Later : Type 0
      Later =
          (u : S) (us : List ℤ)
          → db.versions u ≡ inr us
          → IsWithin applied us
          → apply_pending db applied ms u ≡ (none, t)
          → (ws : List ℤ) × (db.versions t ≡ inr ws) × AreRecorded ms ws × IsWithin us ws

      applied_one :
          Later
          → (r : Option E × S) → apply_one db m true s ≡ r
          → or_stop r (apply_pending db applied ms) ≡ (none, t)
          → (ws : List ℤ) × (db.versions t ≡ inr ws) × AreRecorded (m ∷ ms) ws × IsWithin vs ws
      applied_one later (some x, u) c done = absurd (ground (arith, ap (λ r. r.0) done))
      applied_one later (none, u) c done =
          let (us, now, h, more) = apply_one-recorded m s u vs e c in
          let (ws, last, rest, wider) = later u us now (λ v k. more v (known v k)) done in
          (ws, last, (wider m.version h, rest), λ v k. wider v (more v k))

      pending :
          Later
          → (b : Bool) → is_applied m.version applied ≡ b
          → (elim b as (λ _. Option E × S) [
            | true ↦ apply_pending db applied ms s
            | false ↦ or_stop (apply_one db m true s) (apply_pending db applied ms)
          ])
            ≡ (none, t)
          → (ws : List ℤ) × (db.versions t ≡ inr ws) × AreRecorded (m ∷ ms) ws × IsWithin vs ws
      pending later true h done =
          let (ws, last, rest, wider) = later s vs e known done in
          (ws, last, (wider m.version (known m.version h), rest), wider)
      pending later false h done = applied_one later (apply_one db m true s) refl done

  -- What a database holds after a run.
  pub record IsMigrated (ms : List Migration) (t : S) : Type 0 where
    pub recorded : (vs : List ℤ) × (db.versions t ≡ inr vs) × AreRecorded ms vs
    pub again : migrate db ms t ≡ (none, t)

  -- On a database that keeps its table of versions, a run of Migrate that ends without an error
  -- leaves the versions of all migrations recorded, and a second run then ends without an error and
  -- changes nothing.
  pub migrate_correct :
      (ms : List Migration) (s t : S) → migrate db ms s ≡ (none, t) → IsMigrated ms t
  unfolding migrate after_table after_versions
  migrate_correct ms s t done = from_table (db.create_table s) done
    where
      finished : (ws : List ℤ) → db.versions t ≡ inr ws → AreRecorded ms ws → IsMigrated ms t
      finished ws now r = record {
        recorded = (ws, now, r);
        again =
            ap (λ x. after_table db ms t x) (l.table_kept t ws now)
            ∙ ap (λ x. after_versions db ms t x) now
            ∙ apply_pending-skips ws ms t r;
      }

      from_versions :
          (u : S) (r : E ⊎ List ℤ)
          → db.versions u ≡ r
          → after_versions db ms u r ≡ (none, t)
          → IsMigrated ms t
      from_versions u (inl x) c done = absurd (ground (arith, ap (λ r. r.0) done))
      from_versions u (inr vs) c done =
          let (ws, now, r, wider) = apply_pending-recorded vs ms u t vs c (λ v h. h) done in
          finished ws now r

      from_table : (r : E ⊎ S) → after_table db ms s r ≡ (none, t) → IsMigrated ms t
      from_table (inl x) done = absurd (ground (arith, ap (λ r. r.0) done))
      from_table (inr u) done = from_versions u (db.versions u) refl done
