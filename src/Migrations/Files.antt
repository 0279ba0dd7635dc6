-- ===== src/Migrations/Files.antt =====
-- LoadMigrations and parseName: the migrations that the embedded files make.
use simulator.Common.{
  ℕ, zero, suc, ◌^◌, ◌⊎◌, inl, inr, Bool, true, false, Option, none, some, List, [], ◌∷◌, ◌>>=◌,
  ltb, ◌==◌, if◌then◌else◌,
}
use Prim.Native.Char.{code}
use Prim.Native.String.{String}
use simulator.Common.Maps.{text_key}
use simulator.Common.Int.{ℤ, pos, negsuc, ltb_ℤ, eqb_ℤ}
use simulator.Registry.{read_digits}
use simulator.Migrations.{Migration}

pub data LoadError : Type 0 where
  unexpected_file unexpected_version unreadable : String → LoadError
  missing_up : ℤ → String → LoadError

-- `strings.TrimSuffix`, if the text has the suffix.
unfoldable pub strip_suffix : String → String → Option String
strip_suffix suffix String.[] = if text_key.same "" suffix then some "" else none
strip_suffix suffix (String.◌∷◌ c s) =
    let kept = strip_suffix suffix s >>= λ front. some (String.◌∷◌ c front) in
    if text_key.same (String.◌∷◌ c s) suffix then some "" else kept

-- What stands before and behind the first place of a character.
unfoldable pub split_first : ℕ → String → Option (String × String)
split_first b String.[] = none
split_first b (String.◌∷◌ c s) =
    let later = split_first b s >>= λ (front, back). some (String.◌∷◌ c front, back) in
    if code c == b then some ("", s) else later

-- And of its last.
unfoldable pub split_last : ℕ → String → Option (String × String)
split_last b String.[] = none
split_last b (String.◌∷◌ c s) = elim (split_last b s) [
  | some (front, back) ↦ some (String.◌∷◌ c front, back)
  | none ↦ if code c == b then some ("", s) else none
]

abbrev pub non_empty_digits : String → Option ℕ
non_empty_digits String.[] = none
non_empty_digits s = read_digits 0 s

abbrev pub signed : Bool → ℕ → Option ℤ
signed negative zero = some (pos 0)
signed true (suc n) = if ltb n (2 ^ 63) then some (negsuc n) else none
signed false (suc n) = if ltb (suc n) (2 ^ 63) then some (pos (suc n)) else none

-- `strconv.Atoi`: digits with or without a sign, within an int64.
unfoldable pub atoi : String → Option ℤ
atoi String.[] = none
atoi (String.◌∷◌ c s) =
    if code c == b'-'
    then non_empty_digits s >>= signed true
    else if code c == b'+'
    then non_empty_digits s >>= signed false
    else read_digits 0 (String.◌∷◌ c s) >>= signed false

pub record FileName : Type 0 where
  pub version : ℤ
  pub name : String
  pub direction : String

-- The part of a name before the direction, with its version.
unfoldable pub parse_version : String → String → String → LoadError ⊎ FileName
parse_version filename direction rest = elim (split_first b'_' rest) [
  | none ↦ inl (unexpected_file filename)
  | some (digits, name) ↦ elim (atoi digits) [
    | none ↦ inl (unexpected_version filename)
    | some v ↦ inr (record { version = v; name = name; direction = direction })
  ]
]

unfoldable pub parse_name : String → LoadError ⊎ FileName
parse_name filename = elim (strip_suffix ".sql" filename >>= λ stem. split_last b'.' stem) [
  | none ↦ inl (unexpected_file filename)
  | some (rest, direction) ↦ parse_version filename direction rest
]

-- `byVersion[version]`, or a new migration of that version.
unfoldable pub migration_at : FileName → List Migration → Migration
migration_at f [] = record { version = f.version; name = f.name; up = ""; down = "" }
migration_at f (m ∷ ms) =
    let later = migration_at f ms in if eqb_ℤ m.version f.version then m else later

-- The table without a version.
unfoldable pub without : ℤ → List Migration → List Migration
without v [] = []
without v (m ∷ ms) = let rest = without v ms in if eqb_ℤ m.version v then rest else m ∷ rest

unfoldable pub add_file : FileName → String → List Migration → List Migration
add_file f content table =
    let m = migration_at f table in
    let m' : Migration =
      if text_key.same f.direction "up"
      then record m { up = content }
      else record m { down = content } in
    m' ∷ without f.version table

-- The loop over the files.
unfoldable pub read_files :
    List (String × Option String) → List Migration → LoadError ⊎ List Migration
read_files [] table = inr table
read_files ((filename, content) ∷ files) table = elim (parse_name filename) [
  | inl e ↦ inl e
  | inr f ↦ elim content [
    | none ↦ inl (unreadable filename)
    | some text ↦ read_files files (add_file f text table)
  ]
]

-- The place of a migration in a list that is sorted by version.
unfoldable pub insert_migration : Migration → List Migration → List Migration
insert_migration m [] = m ∷ []
insert_migration m (k ∷ ms) =
    let later = k ∷ insert_migration m ms in if ltb_ℤ k.version m.version then later else m ∷ k ∷ ms

-- The loop over the versions, with the sort. Of several versions without an up file, the code names
-- the one that it comes to first in the order of its map.
unfoldable pub sort_complete : List Migration → LoadError ⊎ List Migration
sort_complete [] = inr []
sort_complete (m ∷ ms) = elim (sort_complete ms) [
  | inl e ↦ inl e
  | inr sorted ↦
      if text_key.same m.up ""
      then inl (missing_up m.version m.name)
      else inr (insert_migration m sorted)
]

unfoldable pub load_migrations : List (String × Option String) → LoadError ⊎ List Migration
load_migrations files = elim (read_files files []) [
  | inl e ↦ inl e
  | inr table ↦ sort_complete table
]
