-- ===== src/Api/Sessions.antt =====
-- A user over the routes of internal/api: the registration, the login, and the requests with its tokens.
use simulator.Common.{
  ℕ, ◌+◌, ◌<◌, ◌≡◌, sym, ap, ◌∙◌, ◌≢◌, ◌⊎◌, inl, inr, Bool, true, false, ◌||◌, some, List, arith,
  ltb, if◌then◌else◌,
}
use Prim.Native.String.{String}
use simulator.Common.Maps.{text_key}
use simulator.Auth.{TokenManager, TokenPair, role_user, same_text, bearer, issue_pair, parse_token}
use simulator.Auth.Passwords.{Crypto, IsCrypto, argon_params, key_of}
use simulator.Auth.Accounts.{
  UserInfo, Users, AccountError, Drawn, IsUsers, register_user, login_after_register,
}
use simulator.Auth.Tokens.{IsJwt, issue_pair_correct}
use simulator.Api.{Server, Outside, Response, write_json, api_error, bad_request, account, session}
use simulator.Api.Routes.{Request, routes, serve}
use simulator.Api.Guards.{authenticated_routed}
use simulator.Api.Accounts.{
  Credentials, byte_length, register_answer, register_handler, session_answer, login_handler,
}

abbrev code_of : {D S : Type 0} → Response D × S → ℕ
code_of (r, s) = r.status

module _ {D S E : Type 0} (c : Crypto) (users : Users S E) (d : Drawn) where
  register_answer-created :
      (r : (AccountError E ⊎ UserInfo) × S) (t : S) (answer : Response D)
      → register_answer r ≡ (answer, t)
      → answer.status ≡ 201
      → (u : UserInfo) × (r ≡ (inr u, t))
        × (answer ≡ write_json 201 (account u.id u.username u.role))
  unfolding register_answer write_json
  register_answer-created (inl e, s) t answer done created =
      let refused : 400 ≡ answer.status = ap code_of done in absurd (omega arith)
  register_answer-created (inr u, s) t answer done created =
      (u, ap (λ x. (inr u, x)) (ap (λ x. x.1) done), sym (ap (λ x. x.0) done))

  -- A registration that was answered 201 got through all the checks.
  register_handler-created :
      (req : Credentials) (s t : S) (answer : Response D)
      → register_handler c users d (some req) s ≡ (answer, t)
      → answer.status ≡ 201
      → (u : UserInfo) × (register_user c users d req.username req.password s ≡ (inr u, t))
        × (answer ≡ write_json 201 (account u.id u.username u.role))
  unfolding register_handler write_json
  register_handler-created req s t answer done created =
      go (same_text req.username "" || same_text req.password "") (ltb (byte_length req.password) 8)
        done
    where
      go :
          (empty short : Bool)
          → (if empty
              then (bad_request "invalid_request", s)
              else if short
              then (bad_request "invalid_request", s)
              else register_answer (register_user c users d req.username req.password s))
            ≡ (answer, t)
          → (u : UserInfo) × (register_user c users d req.username req.password s ≡ (inr u, t))
            × (answer ≡ write_json 201 (account u.id u.username u.role))
      go true short e = let refused : 400 ≡ answer.status = ap code_of e in absurd (omega arith)
      go false true e = let refused : 400 ≡ answer.status = ap code_of e in absurd (omega arith)
      go false false e =
          register_answer-created (register_user c users d req.username req.password s) t answer e
            created

-- What follows from a registration that was answered 201, for a login at one time that issues the pair
-- `p`, and a request that carries its access token later.
pub record IsSignedUp {W S D E : Type 0} (o : Outside W S D E) (srv : Server W S D E) (c : Crypto)
    {S' E' : Type 0} (users : Users S' E') (m : TokenManager) (d : Drawn) (req : Credentials)
    (other : String) (t : S') (issued : ℕ) (p : TokenPair) (q : Request D) (answer : Response D)
    : Type 0 where
  pub answered : answer ≡ write_json 201 (account d.id req.username role_user)
  pub logged_in :
      login_handler {D = D} c users o.jwt m t (some req) issued ≡ write_json 200 (session p)
  pub wrong_password :
      login_handler {D = D} c users o.jwt m t (some (record req { password = other })) issued
      ≡ api_error 401 "unauthorized"
  pub served :
      serve o srv q
      ≡ routes o (some (record { user_id = d.id; role = role_user })) q.below_limit srv q.route

module _ {W S D E : Type 0} (o : Outside W S D E) (srv : Server W S D E) (lj : IsJwt o.jwt)
    (c : Crypto) (lc : IsCrypto c) {S' E' : Type 0} (users : Users S' E') (lu : IsUsers users)
    (m : TokenManager) where
  -- With libraries that do what they document, a server with authentication on, and a registration
  -- that was answered 201: the answer names the user, who has the role USER. A login with the same
  -- name and password that the tokens' library can sign for is answered 200 with its tokens, one with a
  -- password of another argon2 key 401. A request with the access token of that login, if it is not empty, before the
  -- tokens expire, is served on its route as one of that user.
  pub register_then_login :
      (d : Drawn) (salt : List ℕ) (req : Credentials) (other : String) (s t : S')
      (answer : Response D) (issued : ℕ) (p : TokenPair) (q : Request D)
      → srv.tokens ≡ some m
      → d.salt ≡ some salt
      → register_handler c users d (some req) s ≡ (answer, t)
      → answer.status ≡ 201
      → key_of c argon_params other salt 32 ≢ key_of c argon_params req.password salt 32
      → issue_pair o.jwt m (record { user_id = d.id; role = role_user }) issued ≡ some p
      → bearer q.authorization ≡ p.access_token
      → p.access_token ≢ ""
      → q.now < issued + m.access_ttl
      → q.now < issued + m.refresh_ttl
      → IsSignedUp o srv c users m d req other t issued p q answer
  unfolding login_handler register_user write_json session_answer
  register_then_login d salt req other s t answer issued p q on drawn done created differs pair
        carried given fresh_access fresh_refresh =
      let (u, kept, answer_is) = register_handler-created c users d req s t answer done created in
      let signed =
        login_after_register c lc users lu o.jwt m d salt req.username req.password other role_user
          s t u issued drawn kept differs in
      let (id_is, name_is, role_is) = signed.account in
      let good =
        issue_pair_correct o.jwt lj m (record { user_id = d.id; role = role_user }) issued q.now p
          pair fresh_access fresh_refresh in
      record {
        answered =
            answer_is
            ∙ ap (λ x. write_json 201 (account x u.username u.role)) id_is
            ∙ ap (λ x. write_json 201 (account d.id x u.role)) name_is
            ∙ ap (λ x. write_json 201 (account d.id req.username x)) role_is;
        logged_in = ap session_answer (signed.own_password ∙ pair);
        wrong_password = ap session_answer signed.wrong_password;
        served =
            authenticated_routed o srv m q (record { user_id = d.id; role = role_user }) on
              (λ e. given (sym carried ∙ e))
              (ap (λ x. parse_token o.jwt m x "access" q.now) carried ∙ good.access_works);
      }
