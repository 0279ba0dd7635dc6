-- ===== src/Auth/Accounts.antt =====
-- internal/auth/service.go: registration and login over a store of users, which is a parameter.
use simulator.Common.{
  ℕ, ◌≡◌, refl, sym, ap, ◌∙◌, ◌≢◌, ◌⊎◌, inl, inr, false, Option, none, some, List, arith,
  if◌then◌else◌, Bool-cases,
}
use Prim.Native.String.{String}
use simulator.Auth.{Jwt, TokenManager, TokenPair, issue_pair, role_user, role_admin}
use simulator.Auth.Passwords.{
  Crypto, IsCrypto, argon_params, key_of, hash_password, verify_password,
  verify_password-hash_password,
}

pub record UserInfo : Type 0 where
  pub id : String
  pub username : String
  pub password_hash : String
  pub role : String

-- The calls of the persistence store on users.
pub record Users (S E : Type 0) : Type 0 where
  pub create_user : UserInfo → S → (E ⊎ UserInfo) × S
  pub get_user : String → S → Option UserInfo

pub data AccountError (E : Type 0) : Type 0 where
  no_salt : AccountError E
  user_store : E → AccountError E

-- What a registration draws: the salt, if the system gives one, and the identifier.
pub record Drawn : Type 0 where
  pub salt : Option (List ℕ)
  pub id : String

module _ {S E : Type 0} where
  -- registerRole after the store's call.
  unfoldable pub created_user : (E ⊎ UserInfo) × S → (AccountError E ⊎ UserInfo) × S
  created_user (inl e, s) = (inl (user_store e), s)
  created_user (inr u, s) = (inr u, s)

  -- registerRole from the hash on.
  unfoldable pub register_hash :
      Users S E → String → String → String → S → Option String → (AccountError E ⊎ UserInfo) × S
  register_hash users id username role s none = (inl no_salt, s)
  register_hash users id username role s (some hash) = created_user (
      users.create_user (record { id = id; username = username; password_hash = hash; role = role })
        s)

  module _ (c : Crypto) (users : Users S E) where
    unfoldable pub register_role :
        Drawn → String → String → String → S → (AccountError E ⊎ UserInfo) × S
    register_role d username password role s =
        register_hash users d.id username role s (hash_password c d.salt password)

    unfoldable pub register_user : Drawn → String → String → S → (AccountError E ⊎ UserInfo) × S
    register_user d username password s = register_role d username password role_user s

    unfoldable pub bootstrap_admin : Drawn → String → String → S → (AccountError E ⊎ UserInfo) × S
    bootstrap_admin d username password s = register_role d username password role_admin s

    -- Login after the call of the store: an unknown user and a wrong password are one error.
    unfoldable pub login_user : Jwt → TokenManager → String → ℕ → Option UserInfo → Option TokenPair
    login_user j m password now none = none
    login_user j m password now (some u) =
        if verify_password c u.password_hash password
        then issue_pair j m (record { user_id = u.id; role = u.role }) now
        else none

    unfoldable pub login : Jwt → TokenManager → S → String → String → ℕ → Option TokenPair
    login j m s username password now = login_user j m password now (users.get_user username s)

-- What the store of users does: a user that was created is the one that was given, and is found by
-- name.
pub record IsUsers {S E : Type 0} (users : Users S E) : Type 0 where
  pub kept :
      (u v : UserInfo) (s t : S)
      → users.create_user u s ≡ (inr v, t)
      → (v ≡ u) × (users.get_user u.username t ≡ some u)

module _ {S E : Type 0} (c : Crypto) (lc : IsCrypto c) (users : Users S E) (lu : IsUsers users)
    (j : Jwt) (m : TokenManager) where
  -- The logins of a user who was just registered.
  pub record IsRegistered (d : Drawn) (username password other role : String) (now : ℕ)
      (u : UserInfo) (t : S) : Type 0 where
    pub account : (u.id ≡ d.id) × (u.username ≡ username) × (u.role ≡ role)
    pub own_password :
        login c users j m t username password now
        ≡ issue_pair j m (record { user_id = d.id; role = role }) now
    pub wrong_password : login c users j m t username other now ≡ none

  -- After a registration that succeeds, a login with the same name and password issues the tokens of
  -- that user with that role, and one with a password of another argon2 key is refused.
  pub login_after_register :
      (d : Drawn) (salt : List ℕ) (username password other role : String) (s t : S) (u : UserInfo)
      (now : ℕ)
      → d.salt ≡ some salt
      → register_role c users d username password role s ≡ (inr u, t)
      → key_of c argon_params other salt 32 ≢ key_of c argon_params password salt 32
      → IsRegistered d username password other role now u t
  unfolding register_role register_hash created_user login login_user
  login_after_register d salt username password other role s t u now drawn done differs =
      hashed (hash_password c (some salt) password) refl (
        sym (ap (λ x. register_hash users d.id username role s (hash_password c x password)) drawn)
        ∙ done)
    where
      account_of : String → UserInfo
      account_of hash = record { id = d.id; username = username; password_hash = hash; role = role }

      stored :
          (hash : String)
          → hash_password c (some salt) password ≡ some hash
          → (r : (E ⊎ UserInfo) × S) → users.create_user (account_of hash) s ≡ r
          → created_user r ≡ (inr u, t)
          → IsRegistered d username password other role now u t
      stored hash e (inl x, s') made ok = absurd (ground (arith, ap (λ r. r.0) ok))
      stored hash e (inr v, s') made ok =
          let end_is : s' ≡ t = ap (λ r. r.1) ok in
          let user_is : v ≡ u = ground (arith, ap (λ r. r.0) ok) in
          let (same, found) = lu.kept (account_of hash) v s s' made in
          let here : users.get_user username t ≡ some (account_of hash) =
            ap (users.get_user username) (sym end_is) ∙ found in
          let (right, others) = verify_password-hash_password c lc salt password other hash e in
          let refused : verify_password c hash other ≡ false =
            elim (Bool-cases (verify_password c hash other)) [
              | inl accepted ↦ absurd (differs (others.0 accepted))
              | inr f ↦ f
            ] in
          let u_is : u ≡ account_of hash = sym user_is ∙ same in
          record {
            account = (ap (λ x. x.id) u_is, ap (λ x. x.username) u_is, ap (λ x. x.role) u_is);
            own_password = ap (login_user c users j m password now) here ∙ rw right refl;
            wrong_password = ap (login_user c users j m other now) here ∙ rw refused refl;
          }

      hashed :
          (h : Option String)
          → hash_password c (some salt) password ≡ h
          → register_hash users d.id username role s h ≡ (inr u, t)
          → IsRegistered d username password other role now u t
      hashed none e ok = absurd (ground (arith, ap (λ r. r.0) ok))
      hashed (some hash) e ok = stored hash e (users.create_user (account_of hash) s) refl ok
