-- ===== src/Api/Accounts.antt =====
-- internal/api/handlers.go: the handlers under /auth.
use simulator.Common.{ℕ, ◌+◌, ◌⊎◌, inl, inr, ◌||◌, Option, none, some, ltb, if◌then◌else◌}
use Prim.Native.Char.{code}
use Prim.Native.String.{String}
use simulator.Auth.{Jwt, TokenManager, TokenPair, same_text, refresh}
use simulator.Auth.Passwords.{Crypto}
use simulator.Auth.Accounts.{UserInfo, Users, AccountError, Drawn, register_user, login}
use simulator.Api.{Response, write_json, api_error, bad_request, account, session}

pub record Credentials : Type 0 where
  pub username : String
  pub password : String

-- `len` of a text: the bytes of its UTF-8 form.
unfoldable pub byte_width : ℕ → ℕ
byte_width c = if ltb c 128 then 1 else if ltb c 2048 then 2 else if ltb c 65536 then 3 else 4

unfoldable pub byte_length : String → ℕ
byte_length String.[] = 0
byte_length (String.◌∷◌ c s) = byte_width (code c) + byte_length s

module _ {D S E : Type 0} where
  -- register after the call of the service.
  unfoldable pub register_answer : (AccountError E ⊎ UserInfo) × S → Response D × S
  register_answer (inl e, s) = (bad_request "register_failed", s)
  register_answer (inr u, s) = (write_json 201 (account u.id u.username u.role), s)

  module _ (c : Crypto) (users : Users S E) where
    -- register, of a body that was decoded or not.
    unfoldable pub register_handler : Drawn → Option Credentials → S → Response D × S
    register_handler d none s = (bad_request "invalid_request", s)
    register_handler d (some req) s =
        if same_text req.username "" || same_text req.password ""
        then (bad_request "invalid_request", s)
        else if ltb (byte_length req.password) 8
        then (bad_request "invalid_request", s)
        else register_answer (register_user c users d req.username req.password s)

-- The answer to a login and to a refresh: an error of any kind is one of the credentials.
unfoldable pub session_answer : {D : Type 0} → Option TokenPair → Response D
session_answer none = api_error 401 "unauthorized"
session_answer (some p) = write_json 200 (session p)

module _ {D S E : Type 0} (c : Crypto) (users : Users S E) (j : Jwt) (m : TokenManager) where
  unfoldable pub login_handler : S → Option Credentials → ℕ → Response D
  login_handler s none now = bad_request "invalid_request"
  login_handler s (some req) now =
      session_answer (login c users j m s req.username req.password now)

module _ {D : Type 0} (j : Jwt) (m : TokenManager) where
  unfoldable pub refresh_handler : Option String → ℕ → Response D
  refresh_handler none now = bad_request "invalid_request"
  refresh_handler (some token) now = session_answer (refresh j m token now)
