-- ===== src/Auth/Tokens.antt =====
-- Tokens serve their own kind only, until they expire, and stand for who they were issued to.
use simulator.Common.{
  ℕ, ◌+◌, ◌<◌, ◌≡◌, refl, sym, subst, ◌⊎◌, inl, inr, Bool, true, Option, none, some, arith,
  if◌then◌else◌, Option-cases,
}
use Prim.Native.String.{String}
use simulator.Common.Maps.{text_key}
use simulator.Auth.{
  Claims, Jwt, TokenManager, same_text, key_for, issue, issue_access, issue_refresh, parse_token,
  TokenPair, issue_pair,
}

-- What the library documents of a token that it signed: with the same key it is read back as it was
-- signed, before it expires.
pub record IsJwt (j : Jwt) : Type 0 where
  pub read_back :
      (typ : String) (c : Claims) (issued expires now : ℕ) (secret token : String)
      (key : Bool → Option String)
      → j.sign typ c issued expires secret ≡ some token
      → key true ≡ some secret
      → now < expires
      → j.parse key now token ≡ some (record { claims = c; typ = some typ; valid = true })

module _ (j : Jwt) (l : IsJwt j) (m : TokenManager) where
  -- A token of one kind, read as another kind before it expires.
  parse-issue :
      (kind asked : String) (c : Claims) (ttl issued now : ℕ) (token : String)
      → issue j m kind c ttl issued ≡ some token
      → now < issued + ttl
      → parse_token j m token asked now ≡ (if same_text kind asked then some c else none)
  unfolding issue parse_token
  parse-issue kind asked c ttl issued now token e before =
      rw (l.read_back kind c issued (issued + ttl) now m.secret token (key_for m) e refl before)
        refl

  -- What a pair of tokens is good for, at a time when neither has expired.
  pub record IsPair (c : Claims) (p : TokenPair) (now : ℕ) : Type 0 where
    pub access_works : parse_token j m p.access_token "access" now ≡ some c
    pub refresh_works : parse_token j m p.refresh_token "refresh" now ≡ some c
    pub access_is_no_refresh : parse_token j m p.access_token "refresh" now ≡ none
    pub refresh_is_no_access : parse_token j m p.refresh_token "access" now ≡ none

  -- With a library that reads tokens back, the tokens of a login, before they expire: each is
  -- accepted as its own kind, with the claims it was issued for, and refused as the other kind.
  pub issue_pair_correct :
      (c : Claims) (issued now : ℕ) (p : TokenPair)
      → issue_pair j m c issued ≡ some p
      → now < issued + m.access_ttl
      → now < issued + m.refresh_ttl
      → IsPair c p now
  unfolding issue_pair issue_access issue_refresh
  issue_pair_correct c issued now p e fresh_access fresh_refresh =
      parts (Option-cases (issue j m "access" c m.access_ttl issued))
        (Option-cases (issue j m "refresh" c m.refresh_ttl issued))
    where
      parts :
          (issue j m "access" c m.access_ttl issued ≡ none)
            ⊎ ((a : String) × (issue j m "access" c m.access_ttl issued ≡ some a))
          → (issue j m "refresh" c m.refresh_ttl issued ≡ none)
            ⊎ ((a : String) × (issue j m "refresh" c m.refresh_ttl issued ≡ some a))
          → IsPair c p now
      parts (inl h) k = absurd (ground arith)
      parts (inr (a, h)) (inl k) = absurd (ground arith)
      parts (inr (a, h)) (inr (b, k)) =
          let p_is : p ≡ record { access_token = a; refresh_token = b; token_type = "bearer" } =
            ground arith in
          subst (λ q. IsPair c q now) (sym p_is)
            (record {
              access_works =
                  parse-issue "access" "access" c m.access_ttl issued now a h fresh_access;
              refresh_works =
                  parse-issue "refresh" "refresh" c m.refresh_ttl issued now b k fresh_refresh;
              access_is_no_refresh =
                  parse-issue "access" "refresh" c m.access_ttl issued now a h fresh_access;
              refresh_is_no_access =
                  parse-issue "refresh" "access" c m.refresh_ttl issued now b k fresh_refresh;
            })
