-- ===== src/Registry.antt =====
-- internal/registry/registry.go: the models by identifier and version, and the latest version of each.
pub mod Versions
pub mod Latest
mod Tests
use simulator.Common.{
  ℕ, zero, suc, ◌+◌, ◌-◌, ◌*◌, ◌/◌, ◌%◌, ◌^◌, ◌≤◌, ◌<◌, min, ◌≡◌, refl, sym, ap, subst, ◌∙◌, ◌≢◌,
  ◌↔◌, ◌⊎◌, inl, inr, Bool, true, false, not, ◌&&◌, ◌||◌, Option, none, some, List, [], ◌∷◌, ◌++◌,
  map, Mem, Perm, arith, ℕ_discrete, ◌>>=◌, Returns, returns, ltb, leb, ◌==◌, if◌then◌else◌,
  Bool-cases, Option-cases, length, get_elem?, set, get_or, take, drop, replicate, store,
  length-append, length-set, length-take, length-drop, length-replicate, take-append-drop,
  drop-drop, get_elem?-get_or, get_elem?-lt, get_elem?-append, get_elem?-append_end,
  get_elem?-append_lt, get_or-set, get_or-append, get_or-take,
}
use Prim.Native.Nat.{Ordering, compare}
use Prim.Native.Char.{Char, code}
use Prim.Native.String
use Prim.Native.String.{String}
use simulator.Common.Maps.{lookup, put, text_key}

-- The metadata that the code looks at; `F` stands for factories.
pub record ModelInfo : Type 0 where
  pub id : String
  pub name : String
  pub version : String
  pub description : String
  pub mode : String

pub record Entry (F : Type 0) : Type 0 where
  pub info : ModelInfo
  pub factory : Option F

pub record Registry (F : Type 0) : Type 0 where
  pub entries : List (String × Entry F)
  pub latest : List (String × String)

unfoldable pub is_digit : Char → Bool
is_digit c = leb b'0' (code c) && leb (code c) b'9'

-- `strings.Split(s, ".")`, from the part that is being read on.
unfoldable pub split_dots : String → String → List String
split_dots part String.[] = part ∷ []
split_dots part (String.◌∷◌ c s) = elim (code c == b'.') [
  | true ↦ part ∷ split_dots "" s
  | false ↦ split_dots (String.◌++◌ part (String.◌∷◌ c String.[])) s
]

-- `s[:idx]` at the first '-' or '+', if there is one.
unfoldable pub cut_suffix : String → String
cut_suffix String.[] = ""
cut_suffix (String.◌∷◌ c s) =
    if code c == b'-' || code c == b'+' then "" else String.◌∷◌ c (cut_suffix s)

-- The digits of `strconv.Atoi`, from the value read so far on.
unfoldable pub read_digits : ℕ → String → Option ℕ
read_digits n String.[] = some n
read_digits n (String.◌∷◌ c s) =
    let rest = read_digits (n * 10 + (code c - b'0')) s in if is_digit c then rest else none

-- Atoi of a text without a sign: an empty one, another character and a number that does not fit
-- an int64 are errors, and the code takes 0.
unfoldable pub number_of : String → ℕ
number_of String.[] = 0
number_of (String.◌∷◌ c s) = elim (read_digits 0 (String.◌∷◌ c s)) [
  | none ↦ 0
  | some n ↦ if ltb n (2 ^ 63) then n else 0
]

-- componentInt
unfoldable pub component_int : List String → ℕ → ℕ
component_int parts i = elim (get_elem? parts i) [ none ↦ 0 | some s ↦ number_of (cut_suffix s) ]

-- The loop of compareVersion: the rounds that are left, from component `i` on.
unfoldable pub compare_from : List String → List String → ℕ → ℕ → Ordering
compare_from pa pb i zero = Ordering.eq
compare_from pa pb i (suc rounds) =
    let rest = compare_from pa pb (i + 1) rounds in
    let x = component_int pa i in
    let y = component_int pb i in
    if ltb x y then Ordering.lt else if ltb y x then Ordering.gt else rest

unfoldable pub larger : ℕ → ℕ → ℕ
larger n m = if ltb n m then m else n

unfoldable pub compare_version : String → String → Ordering
compare_version a b =
    let pa = split_dots "" a in
    let pb = split_dots "" b in compare_from pa pb 0 (larger (length pa) (length pb))

-- `id + "@" + version`
unfoldable pub entry_key : String → String → String
entry_key id version = String.◌++◌ id (String.◌++◌ "@" version)

abbrev pub is_less : Ordering → Bool
is_less Ordering.lt = true
is_less _ = false

-- The order of List: by identifier, then by the text of the version.
unfoldable pub listed_before : ModelInfo → ModelInfo → Bool
listed_before a b = elim (String.compare a.id b.id) [
  | Ordering.lt ↦ true
  | Ordering.gt ↦ false
  | Ordering.eq ↦ is_less (String.compare a.version b.version)
]

unfoldable pub insert_info : ModelInfo → List ModelInfo → List ModelInfo
insert_info a [] = a ∷ []
insert_info a (b ∷ infos) =
    let later = b ∷ insert_info a infos in if listed_before b a then later else a ∷ b ∷ infos

module _ {F : Type 0} where
  unfoldable pub new_registry : Registry F
  new_registry = record { entries = []; latest = [] }

  -- `!ok || compareVersion(info.Version, cur) >= 0`
  unfoldable pub becomes_latest : Registry F → ModelInfo → Bool
  becomes_latest r info = elim (lookup info.id r.latest) [
    | none ↦ true
    | some cur ↦ not (is_less (compare_version info.version cur))
  ]

  -- RegisterInfo, which Register calls with the metadata of a model.
  unfoldable pub register_info : Registry F → ModelInfo → Option F → Registry F
  register_info r info factory =
      let entry : Entry F = record { info = info; factory = factory } in
      let latest = put info.id info.version r.latest in
      record {
        entries = put (entry_key info.id info.version) entry r.entries;
        latest = if becomes_latest r info then latest else r.latest;
      }

  -- `r.entries[id+"@"+version]` of a missing key is the zero entry; the code answers that it found it.
  unfoldable pub zero_entry : Entry F
  zero_entry = record {
    info = record { id = ""; name = ""; version = ""; description = ""; mode = "" };
    factory = none;
  }

  unfoldable pub entry_or_zero : Option (Entry F) → Entry F
  entry_or_zero none = zero_entry
  entry_or_zero (some e) = e

  -- Get
  unfoldable pub get_latest : Registry F → String → Option (Entry F)
  get_latest r id = elim (lookup id r.latest) [
    | none ↦ none
    | some version ↦ some (entry_or_zero (lookup (entry_key id version) r.entries))
  ]

  unfoldable pub get_version : Registry F → String → String → Option (Entry F)
  get_version r id version = lookup (entry_key id version) r.entries

  unfoldable pub list_models : List (String × Entry F) → List ModelInfo
  list_models [] = []
  list_models ((k, e) ∷ entries) = insert_info e.info (list_models entries)

-- Sync, over a store that takes a model or fails; those before the failure stay stored.
unfoldable pub sync_models :
    {S E : Type 0} → (ModelInfo → S → Option E × S) → List ModelInfo → S → Option E × S
sync_models upsert [] s = (none, s)
sync_models upsert (info ∷ infos) s =
    let (err, t) = upsert info s in
    elim err [ some e ↦ (some e, t) | none ↦ sync_models upsert infos t ]
