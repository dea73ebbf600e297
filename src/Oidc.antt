-- ===== src/Oidc.antt =====
-- internal/infra/oidc/auth.go: the middleware before the routes, and the search for the signing key.
-- The JWT library, the fetch of the key set, base64 and the readers of headers are parameters.
pub mod Safety
pub mod Ready
use apostas_api.Prelude.{
  ℕ, ◌+◌, ◌*◌, ◌-◌, ◌^◌, Bool, true, false, not, ◌||◌, Option, none, some, List, [], ◌∷◌, String,
  ltb, leb, if◌then◌else◌,
}
use apostas_api.Prelude.Eq.{◌==◌, ◌!=◌, string_eq}

-- One key of the set.
pub record Jwk : Type 0 where
  pub kid : String
  pub kty : String
  pub n : String
  pub e : String

-- `rsa.PublicKey`
pub record PublicKey : Type 0 where
  pub modulus : ℕ
  pub exponent : ℕ

-- The header of a token, and the claim `azp` where it is a text.
pub record TokenHeader : Type 0 where
  pub alg : String
  pub kid : Option String

pub record Claims : Type 0 where
  pub azp : Option String

pub record Config : Type 0 where
  pub issuer : String
  pub audience : String

-- base64.RawURLEncoding to bytes, strings.Fields, strings.EqualFold, strings.HasPrefix, the key set as
-- it is fetched now, and `jwt.ParseWithClaims` with the three options and a function that finds the
-- key: the claims of a token that is accepted and valid.
pub record Library : Type 0 where
  pub decode_base64 : String → Option (List ℕ)
  pub fields : String → List String
  pub equal_fold : String → String → Bool
  pub has_prefix : String → String → Bool
  pub fetch_keys : Option (List Jwk)
  pub parse_with_claims : (TokenHeader → Option PublicKey) → Config → String → Option Claims

-- `big.Int.SetBytes`: the first byte is the highest.
abbrev pub set_bytes_from : ℕ → List ℕ → ℕ
set_bytes_from acc [] = acc
set_bytes_from acc (b ∷ bs) = set_bytes_from (acc * 256 + b) bs

abbrev pub set_bytes : List ℕ → ℕ
set_bytes bs = set_bytes_from 0 bs

abbrev pub and_then : {A B : Type 0} → Option A → (A → Option B) → Option B
and_then none next = none
and_then (some a) next = next a

-- `e.Int64() < 3 || e.Int64() > 1<<31-1`, which holds of all that is no int64 as well.
abbrev pub bad_exponent : ℕ → Bool
bad_exponent e = ltb e 3 || ltb (2 ^ 31 - 1) e

unfoldable pub public_key : Library → Jwk → Option PublicKey
public_key lib k = and_then (lib.decode_base64 k.n) (λ n_bytes.
    and_then (lib.decode_base64 k.e) (λ e_bytes.
      if bad_exponent (set_bytes e_bytes)
      then none
      else some (record { modulus = set_bytes n_bytes; exponent = set_bytes e_bytes })))

-- `for _, key := range keys.Keys { … }`
unfoldable pub find_key : Library → String → List Jwk → Option PublicKey
find_key lib kid [] = none
find_key lib kid (k ∷ ks) =
    if k.kid != kid || k.kty != "RSA" then find_key lib kid ks else public_key lib k

-- `Auth.key`; every error is one refusal.
unfoldable pub key : Library → String → Option PublicKey
key lib kid = and_then lib.fetch_keys (λ ks. find_key lib kid ks)

-- The function that finds the key of a token.
unfoldable pub key_of_token : Library → TokenHeader → Option PublicKey
key_of_token lib h = if h.alg != "RS256" then none else and_then h.kid (λ kid. key lib kid)

-- What becomes of a request: it goes on, with the client it has now, or is answered.
pub data Passage : Type 0 where
  passes : Option String → Passage
  refused : ℕ → String → Passage

abbrev pub admit : Option String → Passage
admit none = refused 401 "missing client identity"
admit (some client) =
    if client == "" then refused 401 "missing client identity" else passes (some client)

abbrev pub after_token : Option Claims → Passage
after_token none = refused 401 "invalid bearer token"
after_token (some claims) = admit claims.azp

-- `len(parts) != 2 || !strings.EqualFold(parts[0], "Bearer")`
abbrev pub authorize : Library → Config → List String → Passage
authorize lib cfg (scheme ∷ token ∷ []) =
    if not (lib.equal_fold scheme "Bearer")
    then refused 401 "missing bearer token"
    else after_token (lib.parse_with_claims (key_of_token lib) cfg token)
authorize lib cfg _ = refused 401 "missing bearer token"

-- `Auth.Middleware`, for a path and the header Authorization; the request comes without a client.
unfoldable pub middleware : Library → Config → String → String → Passage
middleware lib cfg path authorization =
    if lib.has_prefix path "/health/"
    then passes none
    else authorize lib cfg (lib.fields authorization)
