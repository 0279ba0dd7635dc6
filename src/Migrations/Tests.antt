-- ===== src/Migrations/Tests.antt =====
-- Two migrations on a database that is its list of versions.
use simulator.Common.{
  ◌≡◌, refl, sym, ap, ◌∙◌, ◌⊎◌, inl, inr, true, none, some, List, [], ◌∷◌, arith, if◌then◌else◌,
  Bool-cases,
}
use Prim.Native.String.{String}
use simulator.Common.Maps.{text_key}
use simulator.Common.Int.{ℤ, pos, negsuc, eqb_ℤ}
use simulator.Registry.{read_digits, is_digit}
use simulator.Migrations.{
  Migration, Database, is_applied, with_version, undone, apply_pending, apply_one, change,
  after_versions, after_table, migrate, undo_all, rollback_to, rollback,
}
use simulator.Migrations.Files.{
  LoadError, strip_suffix, split_first, split_last, atoi, parse_version, parse_name, migration_at,
  without, add_file, read_files, insert_migration, sort_complete, load_migrations,
}
use simulator.Migrations.Applied.{IsDatabase, IsMigrated, migrate_correct}

abbrev drop_version : ℤ → List ℤ → List ℤ
drop_version v [] = []
drop_version v (w ∷ vs) = let rest = drop_version v vs in if eqb_ℤ v w then rest else w ∷ rest

-- Only the script "bad" fails.
abbrev toy : Database (List ℤ) String
toy = record {
  create_table = λ s. inr s;
  versions = λ s. inr s;
  versions_down = λ s. inr s;
  begin_tx = λ s. inr s;
  exec = λ sql s. if text_key.same sql "bad" then inl "syntax error" else inr s;
  insert_version = λ v name s. inr (v ∷ s);
  delete_version = λ v s. inr (drop_version v s);
  commit = λ s. inr s;
}

abbrev versions_or : List ℤ → String ⊎ List ℤ → List ℤ
versions_or vs (inl e) = vs
versions_or vs (inr ws) = ws

eqb_ℤ-refl : (v : ℤ) → eqb_ℤ v v ≡ true
eqb_ℤ-refl (pos n) = ground arith
eqb_ℤ-refl (negsuc n) = ground arith

toy-IsDatabase : IsDatabase toy
unfolding is_applied
toy-IsDatabase = record {
  table_kept = λ s vs e. refl;
  begin_kept = λ s t e. sym e;
  exec_kept = λ sql s t e. elim (Bool-cases (text_key.same sql "bad")) [
    | inl h ↦ absurd (ground arith)
    | inr h ↦ ground arith
  ];
  commit_kept = λ s t e. sym e;
  inserted = λ v name s t vs e f. (
    v ∷ s,
    sym f,
    ground (arith, eqb_ℤ-refl v),
    λ w h.
        let same : s ≡ vs = ap (versions_or s) e in
        let held : is_applied w s ≡ true = ap (is_applied w) same ∙ h in ground (arith, held),
  );
}

abbrev users : Migration
users = record { version = pos 1; name = "users"; up = "create"; down = "drop" }

abbrev jobs : Migration
jobs = record { version = pos 2; name = "jobs"; up = "create jobs"; down = "drop jobs" }

abbrev broken : Migration
broken = record { version = pos 3; name = "broken"; up = "bad"; down = "" }

-- The files in another order, and one without its version.
loaded :
    (load_migrations (
        ("0002_jobs.up.sql", some "create jobs")
        ∷ ("0001_users.down.sql", some "drop")
        ∷ ("0001_users.up.sql", some "create")
        ∷ ("0002_jobs.down.sql", some "drop jobs")
        ∷ [])
      ≡ inr (users ∷ jobs ∷ []))
    × (load_migrations (("users.up.sql", some "create") ∷ [])
        ≡ inl (LoadError.unexpected_file "users.up.sql"))
unfolding load_migrations read_files parse_name parse_version strip_suffix split_first split_last
    atoi read_digits is_digit add_file migration_at without sort_complete insert_migration
loaded = (refl, refl)

-- The run stops at the first failure and keeps what was applied before.
stops_at_failure : migrate toy (users ∷ broken ∷ jobs ∷ []) [] ≡ (some "syntax error", pos 1 ∷ [])
unfolding migrate after_table after_versions apply_pending apply_one change is_applied
stops_at_failure = refl

-- One step back undoes the latest.
one_back : rollback toy (users ∷ jobs ∷ []) (pos 1) (pos 2 ∷ pos 1 ∷ []) ≡ (none, pos 1 ∷ [])
unfolding rollback rollback_to undone with_version undo_all apply_one change
one_back = refl

migrate_correct_example : IsMigrated toy toy-IsDatabase (users ∷ jobs ∷ []) (pos 2 ∷ pos 1 ∷ [])
unfolding migrate after_table after_versions apply_pending apply_one change is_applied
migrate_correct_example =
    migrate_correct toy toy-IsDatabase (users ∷ jobs ∷ []) (pos 1 ∷ []) (pos 2 ∷ pos 1 ∷ []) refl
