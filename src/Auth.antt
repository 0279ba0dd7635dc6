-- ===== src/Auth.antt =====
-- internal/auth/token.go and the token side of service.go: access and refresh tokens, and what the
-- middleware lets through. JWT is a library: a parameter.
pub mod Tokens
pub mod Passwords
pub mod Accounts
pub mod Tests
use simulator.Common.{
  ℕ, zero, suc, ◌+◌, ◌-◌, ◌*◌, ◌/◌, ◌%◌, ◌^◌, ◌≤◌, ◌<◌, min, ◌≡◌, refl, sym, ap, subst, ◌∙◌, ◌≢◌,
  ◌↔◌, ◌⊎◌, inl, inr, Bool, true, false, not, ◌&&◌, ◌||◌, Option, none, some, List, [], ◌∷◌, ◌++◌,
  map, Mem, Perm, arith, ℕ_discrete, ◌>>=◌, Returns, returns, ltb, leb, ◌==◌, if◌then◌else◌,
  Bool-cases, Option-cases, length, get_elem?, set, get_or, take, drop, replicate, store,
  length-append, length-set, length-take, length-drop, length-replicate, take-append-drop,
  drop-drop, get_elem?-get_or, get_elem?-lt, get_elem?-append, get_elem?-append_end,
  get_elem?-append_lt, get_or-set, get_or-append, get_or-take,
}
use Prim.Native.Char.{code}
use Prim.Native.String
use Prim.Native.String.{String}
use simulator.Common.Maps.{Key, text_key}

pub record Claims : Type 0 where
  pub user_id : String
  pub role : String

abbrev pub role_user : String
role_user = "USER"

abbrev pub role_admin : String
role_admin = "ADMIN"

-- A token that was read: its claims, its "typ" header and its validity.
pub record Parsed : Type 0 where
  pub claims : Claims
  pub typ : Option String
  pub valid : Bool

-- The library. `sign` takes the "typ" header, the claims, their times and the key; `parse` takes the
-- key that the code hands out for the token's method, true for an HMAC, and the time.
pub record Jwt : Type 0 where
  pub sign : String → Claims → ℕ → ℕ → String → Option String
  pub parse : (Bool → Option String) → ℕ → String → Option Parsed

pub record TokenManager : Type 0 where
  pub secret : String
  pub access_ttl : ℕ
  pub refresh_ttl : ℕ

abbrev pub same_text : String → String → Bool
same_text a b = text_key.same a b

-- `k, _ := token.Header["typ"].(string)`
abbrev pub text_or_empty : Option String → String
text_or_empty none = ""
text_or_empty (some s) = s

-- The key function of Parse.
abbrev pub key_for : TokenManager → Bool → Option String
key_for m true = some m.secret
key_for m false = none

module _ (j : Jwt) (m : TokenManager) where
  unfoldable pub issue : String → Claims → ℕ → ℕ → Option String
  issue kind c ttl now = j.sign kind c now (now + ttl) m.secret

  unfoldable pub issue_access : Claims → ℕ → Option String
  issue_access c now = issue "access" c m.access_ttl now

  unfoldable pub issue_refresh : Claims → ℕ → Option String
  issue_refresh c now = issue "refresh" c m.refresh_ttl now

  -- Parse; an error is `none`.
  unfoldable pub parse_token : String → String → ℕ → Option Claims
  parse_token token kind now = do
    t ← j.parse (key_for m) now token
    if t.valid && same_text (text_or_empty t.typ) kind then some t.claims else none

-- `strings.TrimSpace` of the ASCII spaces at the front and at the end.
unfoldable pub is_space : ℕ → Bool
is_space c = c == 32 || (leb 9 c && leb c 13)

unfoldable pub trim_left : String → String
trim_left String.[] = ""
trim_left (String.◌∷◌ c s) = if is_space (code c) then trim_left s else String.◌∷◌ c s

unfoldable pub trim_right : String → String
trim_right String.[] = ""
trim_right (String.◌∷◌ c s) = elim (trim_right s) [
  | String.[] ↦ if is_space (code c) then "" else String.◌∷◌ c String.[]
  | String.◌∷◌ d t ↦ String.◌∷◌ c (String.◌∷◌ d t)
]

-- What follows a prefix, if the text has it.
unfoldable pub strip_prefix : String → String → Option String
strip_prefix String.[] s = some s
strip_prefix (String.◌∷◌ c p) String.[] = none
strip_prefix (String.◌∷◌ c p) (String.◌∷◌ d s) =
    let rest = strip_prefix p s in if code c == code d then rest else none

-- bearer, of the Authorization header.
unfoldable pub bearer : String → String
bearer h = elim (strip_prefix "Bearer " h) [ none ↦ "" | some rest ↦ trim_right (trim_left rest) ]

-- What a middleware answers itself, or the handler's answer.
pub data Passed (A : Type 0) : Type 0 where
  unauthorized : String → Passed A
  forbidden : Passed A
  passed : A → Passed A

module _ {A : Type 0} where
  -- RequireAuth: the handler is given the claims.
  unfoldable pub require_auth : Jwt → TokenManager → (Claims → A) → String → ℕ → Passed A
  require_auth j m next header now =
      let token = bearer header in
      let answer : Passed A = elim (parse_token j m token "access" now) [
        | none ↦ unauthorized "invalid token"
        | some c ↦ passed (next c)
      ] in
      if same_text token "" then unauthorized "missing bearer token" else answer

  -- RequireRole: the claims in the context, if there are any.
  unfoldable pub require_role : String → Option Claims → A → Passed A
  require_role role none next = forbidden
  require_role role (some c) next = if same_text c.role role then passed next else forbidden

pub record TokenPair : Type 0 where
  pub access_token : String
  pub refresh_token : String
  pub token_type : String

module _ (j : Jwt) (m : TokenManager) where
  unfoldable pub issue_pair : Claims → ℕ → Option TokenPair
  issue_pair c now = do
    access ← issue_access j m c now
    refresh ← issue_refresh j m c now
    some (record { access_token = access; refresh_token = refresh; token_type = "bearer" })

  -- Refresh: a new access token for a valid refresh token, which stays as it is.
  unfoldable pub refresh : String → ℕ → Option TokenPair
  refresh token now = do
    c ← parse_token j m token "refresh" now
    access ← issue_access j m c now
    some (record { access_token = access; refresh_token = token; token_type = "bearer" })
