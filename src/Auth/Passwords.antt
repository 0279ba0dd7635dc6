-- ===== src/Auth/Passwords.antt =====
-- internal/auth/password.go: password hashes as PHC texts. argon2, base64 and the random salt are
-- parameters.
use simulator.Common.{
  ℕ, ◌%◌, ◌^◌, ◌≡◌, refl, sym, ap, subst, ◌∙◌, ◌↔◌, Bool, true, false, ◌&&◌, Option, none, some,
  List, [], ◌∷◌, arith, ◌>>=◌, ltb, ◌==◌, if◌then◌else◌, length,
}
use Prim.Native.Char.{Char}
use Prim.Native.String
use Prim.Native.String.{String}
use text.Mathlib.TextLemmas.{nil-append, cons-append, append_assoc}
use simulator.Common.Maps.{text_key}
use simulator.Common.Texts.{split_on, Lacks, split_on-part, split_on-last}
use simulator.Entity.{u32}
use simulator.Registry.{read_digits, is_digit}
use simulator.Migrations.Files.{split_first}

-- `id_key password salt time memory threads length`, and the raw base64 coding.
pub record Crypto : Type 0 where
  pub id_key : String → List ℕ → ℕ → ℕ → ℕ → ℕ → List ℕ
  pub encode : List ℕ → String
  pub decode : String → Option (List ℕ)

pub record Params : Type 0 where
  pub memory : ℕ
  pub time : ℕ
  pub threads : ℕ

-- argonMemory, argonTime and argonThreads
abbrev pub argon_params : Params
argon_params = record { memory = 65536; time = 3; threads = 4 }

-- `m=%d,t=%d,p=%d` of these constants.
abbrev pub argon_text : String
argon_text = "m=65536,t=3,p=4"

-- The key of a password under given parameters.
abbrev pub key_of : Crypto → Params → String → List ℕ → ℕ → List ℕ
key_of c p password salt n = c.id_key password salt p.time p.memory p.threads n

-- The text that Sprintf makes.
unfoldable pub phc_text : String → String → String
phc_text salt hash =
    String.◌++◌ "$argon2id$v=19$"
      (String.◌++◌ argon_text (String.◌++◌ "$" (String.◌++◌ salt (String.◌++◌ "$" hash))))

-- HashPassword, of the salt that was drawn, if one was.
unfoldable pub hash_password : Crypto → Option (List ℕ) → String → Option String
hash_password c none password = none
hash_password c (some salt) password =
    some (phc_text (c.encode salt) (c.encode (key_of c argon_params password salt 32)))

-- `strconv.ParseUint(v, 10, 32)`
unfoldable pub parse_u32 : String → Option ℕ
parse_u32 String.[] = none
parse_u32 (String.◌∷◌ c s) =
    read_digits 0 (String.◌∷◌ c s) >>= λ n. if ltb n (2 ^ 32) then some n else none

-- The switch of parseParams; `uint8(n)` keeps the low byte.
unfoldable pub set_param : String → ℕ → Params → Params
set_param k n p =
    if text_key.same k "m"
    then record p { memory = n }
    else if text_key.same k "t"
    then record p { time = n }
    else if text_key.same k "p"
    then record p { threads = n % 256 }
    else p

unfoldable pub params_from : Params → List String → Option Params
params_from p [] = if ltb 0 p.memory && (ltb 0 p.time && ltb 0 p.threads) then some p else none
params_from p (kv ∷ kvs) = do
  (k, v) ← split_first b'=' kv
  n ← parse_u32 v
  params_from (set_param k n p) kvs

unfoldable pub parse_params : String → Option Params
parse_params s = params_from (record { memory = 0; time = 0; threads = 0 }) (split_on b',' "" s)

-- `subtle.ConstantTimeCompare`
unfoldable pub same_bytes : List ℕ → List ℕ → Bool
same_bytes [] [] = true
same_bytes (x ∷ xs) (y ∷ ys) = x == y && same_bytes xs ys
same_bytes _ _ = false

abbrev pub or_false : Option Bool → Bool
or_false none = false
or_false (some b) = b

module _ (c : Crypto) where
  -- VerifyPassword from the parameters on; `none` is a text that does not parse.
  unfoldable pub compare_key : String → String → String → String → Option Bool
  compare_key params salt hash password = do
    p ← parse_params params
    s ← c.decode salt
    want ← c.decode hash
    some (same_bytes (key_of c p password s (u32 (length want))) want)

  unfoldable pub verify_parts : List String → String → Bool
  verify_parts (first ∷ alg ∷ version ∷ params ∷ salt ∷ hash ∷ []) password =
      let answer = or_false (compare_key params salt hash password) in
      if text_key.same alg "argon2id" then answer else false
  verify_parts _ password = false

  unfoldable pub verify_password : String → String → Bool
  verify_password encoded password = verify_parts (split_on b'$' "" encoded) password

-- What the libraries document: base64 is decoded to what was coded, and has no `$`; a key has the
-- length that was asked for.
pub record IsCrypto (c : Crypto) : Type 0 where
  pub decodes : (bs : List ℕ) → c.decode (c.encode bs) ≡ some bs
  pub lacks : (bs : List ℕ) → Lacks b'$' (c.encode bs)
  pub sized :
      (password : String) (salt : List ℕ) (t m p n : ℕ)
      → length (c.id_key password salt t m p n) ≡ n

-- The constants that Sprintf prints are the ones that parseParams reads.
argon_text-parses : parse_params argon_text ≡ some argon_params
unfolding parse_params params_from split_on set_param parse_u32 read_digits split_first is_digit
argon_text-parses = refl

same_bytes-eq : (xs ys : List ℕ) → same_bytes xs ys ≡ true → xs ≡ ys
unfolding same_bytes
same_bytes-eq [] [] h = refl
same_bytes-eq [] (y ∷ ys) h = absurd (ground arith)
same_bytes-eq (x ∷ xs) [] h = absurd (ground arith)
same_bytes-eq (x ∷ xs) (y ∷ ys) h = ground (arith, same_bytes-eq xs ys (ground arith))

same_bytes_refl : (xs : List ℕ) → same_bytes xs xs ≡ true
unfolding same_bytes
same_bytes_refl [] = refl
same_bytes_refl (x ∷ xs) = ground (arith, same_bytes_refl xs)

abbrev dollar : Char
dollar = "$"

first_part :
    (s t : String)
    → Lacks b'$' s
    → split_on b'$' "" (String.◌++◌ s (String.◌++◌ "$" t)) ≡ s ∷ split_on b'$' "" t
first_part s t l =
    ap (λ r. split_on b'$' "" (String.◌++◌ s r))
      (cons-append dollar "" t ∙ ap (String.◌∷◌ dollar) (nil-append t))
    ∙ split_on-part b'$' "" s t dollar l refl
    ∙ ap (λ p. p ∷ split_on b'$' "" t) (nil-append s)

-- The fixed front of the text, as parts.
front_parts :
    (t : String)
    → split_on b'$' "" (String.◌++◌ "$argon2id$v=19$" t)
      ≡ "" ∷ "argon2id" ∷ "v=19" ∷ split_on b'$' "" t
front_parts t =
    ap (split_on b'$' "") (
      append_assoc "" "$argon2id$v=19$" t
      ∙ ap (String.◌++◌ "") (
          append_assoc "$" "argon2id$v=19$" t
          ∙ ap (String.◌++◌ "$") (
              append_assoc "argon2id" "$v=19$" t
              ∙ ap (String.◌++◌ "argon2id")
                  (append_assoc "$" "v=19$" t ∙ ap (String.◌++◌ "$") (append_assoc "v=19" "$" t)))))
    ∙ first_part ""
        (String.◌++◌ "argon2id" (String.◌++◌ "$" (String.◌++◌ "v=19" (String.◌++◌ "$" t)))) tt
    ∙ ap (λ ps. "" ∷ ps)
        (first_part "argon2id" (String.◌++◌ "v=19" (String.◌++◌ "$" t)) (omega arith)
          ∙ ap (λ ps. "argon2id" ∷ ps) (first_part "v=19" t (omega arith)))

module _ (c : Crypto) (l : IsCrypto c) where
  phc_text-parts :
      (salt hash : List ℕ)
      → split_on b'$' "" (phc_text (c.encode salt) (c.encode hash))
        ≡ "" ∷ "argon2id" ∷ "v=19" ∷ argon_text ∷ c.encode salt ∷ c.encode hash ∷ []
  unfolding phc_text
  phc_text-parts salt hash =
      front_parts (
        String.◌++◌ argon_text
          (String.◌++◌ "$" (String.◌++◌ (c.encode salt) (String.◌++◌ "$" (c.encode hash)))))
      ∙ ap (λ ps. "" ∷ "argon2id" ∷ "v=19" ∷ ps)
          (first_part argon_text (String.◌++◌ (c.encode salt) (String.◌++◌ "$" (c.encode hash)))
              (omega arith)
            ∙ ap (λ ps. argon_text ∷ ps)
                (first_part (c.encode salt) (c.encode hash) (l.lacks salt)
                  ∙ ap (λ ps. c.encode salt ∷ ps)
                      (split_on-last b'$' "" (c.encode hash) (l.lacks hash)
                        ∙ ap (λ p. p ∷ []) (nil-append (c.encode hash)))))

  -- The check of a password against the hash of another compares their keys.
  verify-hash :
      (salt : List ℕ) (own other : String)
      → verify_password c
          (phc_text (c.encode salt) (c.encode (key_of c argon_params own salt 32)))
          other
        ≡ same_bytes (key_of c argon_params other salt 32) (key_of c argon_params own salt 32)
  unfolding verify_password verify_parts compare_key
  verify-hash salt own other =
      let want = key_of c argon_params own salt 32 in
      let size : u32 (length want) ≡ 32 = ap u32 (l.sized own salt 3 65536 4 32) in
      rw (phc_text-parts salt want, argon_text-parses, l.decodes salt, l.decodes want, size) refl

  -- A password is accepted against its own hash, and another one exactly if it has the same key.
  pub verify_password-hash_password :
      (salt : List ℕ) (own other encoded : String)
      → hash_password c (some salt) own ≡ some encoded
      → (verify_password c encoded own ≡ true)
        × ((verify_password c encoded other ≡ true)
            ↔ (key_of c argon_params other salt 32 ≡ key_of c argon_params own salt 32))
  unfolding hash_password
  verify_password-hash_password salt own other encoded e =
      let text = phc_text (c.encode salt) (c.encode (key_of c argon_params own salt 32)) in
      let encoded_is : text ≡ encoded = ground arith in
      let mine = key_of c argon_params own salt 32 in
      let theirs = key_of c argon_params other salt 32 in
      subst
        (λ x.
          (verify_password c x own ≡ true) × ((verify_password c x other ≡ true) ↔ (theirs ≡ mine)))
        encoded_is
        (
          verify-hash salt own own ∙ same_bytes_refl mine,
          (
            λ h. same_bytes-eq theirs mine (sym (verify-hash salt own other) ∙ h),
            λ h.
                verify-hash salt own other
                ∙ ap (same_bytes theirs) (sym h)
                ∙ same_bytes_refl theirs,
          ),
        )
