-- ===== src/Auth/Tests.antt =====
-- The tokens of one user, under a library that signs for that user only, and concrete libraries of
-- passwords and of users.
use simulator.Common.{
  ℕ, zero, suc, ◌+◌, ◌≡◌, refl, sym, ap, ◌∙◌, inl, inr, Bool, true, false, ◌&&◌, Option, none, some,
  List, [], ◌∷◌, arith, ◌>>=◌, ◌==◌, if◌then◌else◌, Bool-cases, length, replicate, length-replicate,
}
use Prim.Native.Char.{code}
use simulator.Common.Texts.{split_on, Lacks}
use simulator.Auth.Passwords.{Crypto, IsCrypto}
use simulator.Auth.Accounts.{UserInfo, Users, IsUsers}
use Prim.Native.String.{String}
use simulator.Common.Maps.{text_key}
use simulator.Auth.{
  Claims, Parsed, Jwt, TokenManager, same_text, TokenPair, issue, issue_access, issue_refresh,
  issue_pair,
}
use simulator.Auth.Tokens.{IsJwt, IsPair, issue_pair_correct}

abbrev ann : Claims
ann = record { user_id = "ann"; role = "USER" }

abbrev signs : String → String → Claims → String → Bool
signs kind typ c secret =
    same_text typ kind
    && (same_text c.user_id "ann" && (same_text c.role "USER" && same_text secret "k"))

abbrev toy_sign : String → Claims → String → Option String
toy_sign typ c secret =
    if signs "access" typ c secret
    then some "a"
    else if signs "refresh" typ c secret
    then some "r"
    else none

abbrev toy_parse : Option String → String → Option Parsed
toy_parse none token = none
toy_parse (some k) token =
    if same_text token "a"
    then some (record { claims = ann; typ = some "access"; valid = same_text k "k" })
    else if same_text token "r"
    then some (record { claims = ann; typ = some "refresh"; valid = same_text k "k" })
    else none

abbrev pub toy : Jwt
toy = record {
  sign = λ typ c issued expires secret. toy_sign typ c secret;
  parse = λ key now token. toy_parse (key true) token;
}

signs-parts :
    (kind typ : String) (c : Claims) (secret : String)
    → signs kind typ c secret ≡ true
    → (typ ≡ kind) × (c ≡ ann) × (secret ≡ "k")
signs-parts kind typ c secret e =
    let part : (a b : String) → same_text a b ≡ true → a ≡ b = λ a b. (text_key.same_iff a b).0 in
    let typ_is : typ ≡ kind = part typ kind (ground arith) in
    let user_is : c.user_id ≡ "ann" = part c.user_id "ann" (ground arith) in
    let role_is : c.role ≡ "USER" = part c.role "USER" (ground arith) in
    (
      typ_is,
      ap (λ x. record { user_id = x; role = c.role }) user_is
          ∙ ap (λ x. record { user_id = "ann"; role = x }) role_is,
      part secret "k" (ground arith),
    )

pub toy-IsJwt : IsJwt toy
toy-IsJwt = record {
  read_back = λ typ c issued expires now secret token key signed given before.
      elim (Bool-cases (signs "access" typ c secret)) [
        | inl e ↦
            let (t, u, k) = signs-parts "access" typ c secret e in
            let token_is : token ≡ "a" = ground arith in rw (given, k, u, t, token_is) refl
        | inr e ↦ elim (Bool-cases (signs "refresh" typ c secret)) [
          | inl f ↦
              let (t, u, k) = signs-parts "refresh" typ c secret f in
              let token_is : token ≡ "r" = ground arith in rw (given, k, u, t, token_is) refl
          | inr f ↦ absurd (ground arith)
        ]
      ];
}

abbrev pub tokens : TokenManager
tokens = record { secret = "k"; access_ttl = 15; refresh_ttl = 1440 }

abbrev pair : TokenPair
pair = record { access_token = "a"; refresh_token = "r"; token_type = "bearer" }

issue_pair_correct_example : IsPair toy toy-IsJwt tokens ann pair 14
unfolding issue_pair issue_access issue_refresh issue
issue_pair_correct_example =
    issue_pair_correct toy toy-IsJwt tokens ann 0 14 pair refl (omega arith) (omega arith)

-- A byte is a run of A, ended by B.
abbrev unary : ℕ → String → String
unary zero s = String.◌∷◌ "B" s
unary (suc n) s = String.◌∷◌ "A" (unary n s)

abbrev pub toy_encode : List ℕ → String
toy_encode [] = ""
toy_encode (b ∷ bs) = unary b (toy_encode bs)

abbrev toy_decode : ℕ → String → Option (List ℕ)
toy_decode n String.[] = if n == 0 then some [] else none
toy_decode n (String.◌∷◌ c s) = elim (code c == b'A') [
  | true ↦ toy_decode (suc n) s
  | false ↦ toy_decode 0 s >>= λ bs. some (n ∷ bs)
]

-- A key repeats the length of the password.
abbrev pub toy_crypto : Crypto
toy_crypto = record {
  id_key = λ password salt t m p n. replicate n (length (split_on b'-' "" password));
  encode = toy_encode;
  decode = toy_decode 0;
}

unary-Lacks : (n : ℕ) (s : String) → Lacks b'$' s → Lacks b'$' (unary n s)
unary-Lacks zero s l = (omega arith, l)
unary-Lacks (suc n) s l = (omega arith, unary-Lacks n s l)

toy_encode-Lacks : (bs : List ℕ) → Lacks b'$' (toy_encode bs)
toy_encode-Lacks [] = tt
toy_encode-Lacks (b ∷ bs) = unary-Lacks b (toy_encode bs) (toy_encode-Lacks bs)

toy_decode-unary :
    (k n : ℕ) (s : String)
    → toy_decode k (unary n s) ≡ (toy_decode 0 s >>= λ bs. some ((k + n) ∷ bs))
toy_decode-unary k zero s = ap (λ i. toy_decode 0 s >>= λ bs. some (i ∷ bs)) (omega arith)
toy_decode-unary k (suc n) s =
    toy_decode-unary (suc k) n s ∙ ap (λ i. toy_decode 0 s >>= λ bs. some (i ∷ bs)) (omega arith)

toy_decodes : (bs : List ℕ) → toy_decode 0 (toy_encode bs) ≡ some bs
toy_decodes [] = refl
toy_decodes (b ∷ bs) =
    toy_decode-unary 0 b (toy_encode bs)
    ∙ ap (λ r. r >>= λ rest. some ((0 + b) ∷ rest)) (toy_decodes bs)
    ∙ ap (λ n. some (n ∷ bs)) (omega arith)

pub toy_crypto-IsCrypto : IsCrypto toy_crypto
toy_crypto-IsCrypto = record {
  decodes = toy_decodes;
  lacks = toy_encode-Lacks;
  sized = λ password salt t m p n. length-replicate n (length (split_on b'-' "" password));
}

-- The store is its list of users.
abbrev find_user : String → List UserInfo → Option UserInfo
find_user name [] = none
find_user name (u ∷ us) = if same_text u.username name then some u else find_user name us

abbrev pub user_list : Users (List UserInfo) ℕ
user_list = record { create_user = λ u s. (inr u, u ∷ s); get_user = find_user }

pub user_list-IsUsers : IsUsers user_list
user_list-IsUsers = record {
  kept = λ u v s t e.
      let same : v ≡ u = ground (arith, ap (λ r. r.0) e) in
      let grown : u ∷ s ≡ t = ap (λ r. r.1) e in
      (
        same,
        ap (find_user u.username) (sym grown)
            ∙ rw ((text_key.same_iff u.username u.username).1 refl) refl,
      );
}
