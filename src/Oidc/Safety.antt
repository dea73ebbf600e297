-- ===== src/Oidc/Safety.antt =====
-- internal/infra/oidc/auth.go: which requests get a client.
use text.Mathlib.TextEquality.{eq_iff}
use apostas_api.Prelude.{
  ◌≡◌, ◌≢◌, ◌≤◌, ◌<◌, ◌^◌, ℕ, ◌||◌, ◌⊎◌, Bool, not, true, false, Option, none, some, List, [], ◌∷◌,
  String, refl, sym, ap, ◌∙◌, some-inj, arith, inl, inr, Bool-cases, or_eq_false,
}
use apostas_api.Prelude.Eq.{◌==◌, ◌!=◌, string_eq}
use apostas_api.Oidc.{
  Jwk, PublicKey, TokenHeader, Claims, Config, Library, public_key, find_key, key, key_of_token,
  passes, admit, after_token, authorize, middleware, and_then, set_bytes, bad_exponent,
}

-- What a token says of itself, for the library: its header, and the keys that its signature fits.
pub record Signatures : Type 0 where
  pub header_of : String → Option TokenHeader
  pub is_signed_by : String → PublicKey → Bool

-- The library accepts a token only when its signature fits the key that it is given for the token's
-- own header.
abbrev pub ChecksKeys : Library → Signatures → Type 0
ChecksKeys lib sig =
    (find : TokenHeader → Option PublicKey) (cfg : Config) (token : String) (claims : Claims)
    → lib.parse_with_claims find cfg token ≡ some claims
    → (h : TokenHeader) × (k : PublicKey) × (sig.header_of token ≡ some h)
      × (find h ≡ some k)
      × (sig.is_signed_by token k ≡ true)

abbrev pub Among : Jwk → List Jwk → Type 0
Among k [] = ⊥
Among k (x ∷ xs) = (x ≡ k) ⊎ Among k xs

pub and_then-some :
    {A B : Type 0} (o : Option A) (next : A → Option B) {b : B}
    → and_then o next ≡ some b
    → (a : A) × (o ≡ some a) × (next a ≡ some b)
and_then-some none next h = cc
and_then-some (some a) next h = (a, refl, h)

-- A signing key of the fetched set that fits the header of a token.
pub record Trusted (lib : Library) (h : TokenHeader) (pk : PublicKey) : Type 0 where
  pub keys : List Jwk
  pub entry : Jwk
  pub fetched : lib.fetch_keys ≡ some keys
  pub listed : Among entry keys
  pub algorithm : h.alg ≡ "RS256"
  pub named : h.kid ≡ some entry.kid
  pub is_rsa : entry.kty ≡ "RSA"
  pub decoded : public_key lib entry ≡ some pk
  pub lower : 3 ≤ pk.exponent
  pub upper : pk.exponent < 2 ^ 31

exponent_bounds : (e : ℕ) → bad_exponent e ≡ false → (3 ≤ e) × (e < 2 ^ 31)
exponent_bounds e h = ground arith

public_key-exponent :
    (lib : Library) (k : Jwk) {pk : PublicKey}
    → public_key lib k ≡ some pk
    → (3 ≤ pk.exponent) × (pk.exponent < 2 ^ 31)
unfolding public_key
public_key-exponent lib k {pk} h =
    let (n_bytes, of_n, h1) = and_then-some (lib.decode_base64 k.n) _ h in
    let (e_bytes, of_e, h2) = and_then-some (lib.decode_base64 k.e) _ h1 in
    elim (Bool-cases (bad_exponent (set_bytes e_bytes))) [
      | inl bad ↦ cc (rw bad at h2)
      | inr good ↦
          let made : record { modulus = set_bytes n_bytes; exponent = set_bytes e_bytes } ≡ pk =
            some-inj (rw good at h2) in
          rw⁻¹ made (exponent_bounds (set_bytes e_bytes) good)
    ]

same_texts : (s t : String) → (s != t) ≡ false → s ≡ t
same_texts s t h = ground (arith, eq_iff s t)

find_key-listed :
    (lib : Library) (kid : String) (ks : List Jwk) {pk : PublicKey}
    → find_key lib kid ks ≡ some pk
    → (k : Jwk) × Among k ks × (kid ≡ k.kid) × (k.kty ≡ "RSA") × (public_key lib k ≡ some pk)
unfolding find_key
find_key-listed lib kid [] h = cc
find_key-listed lib kid (x ∷ xs) h = elim (Bool-cases (x.kid != kid || x.kty != "RSA")) [
  | inl other ↦
      let (k, listed, named, kind, decoded) = find_key-listed lib kid xs (rw other at h) in
      (k, inr listed, named, kind, decoded)
  | inr fits ↦
      let (named, kind) = or_eq_false (x.kid != kid) (x.kty != "RSA") fits in
      (x, inl refl, sym (same_texts x.kid kid named), same_texts x.kty "RSA" kind, rw fits at h)
]

key_of_token-Trusted :
    (lib : Library) (h : TokenHeader) {pk : PublicKey}
    → key_of_token lib h ≡ some pk
    → Trusted lib h pk
unfolding key_of_token key
key_of_token-Trusted lib h {pk} is = elim (Bool-cases (h.alg != "RS256")) [
  | inl other ↦ absurd (cc (rw other at is))
  | inr rs256 ↦
      let (kid, has_kid, found) = and_then-some h.kid (λ kid. key lib kid) (rw rs256 at is) in
      let (ks, fetched, searched) =
        and_then-some lib.fetch_keys (λ ks. find_key lib kid ks) found in
      let (k, listed, named, kind, decoded) = find_key-listed lib kid ks searched in
      let (lower, upper) = public_key-exponent lib k decoded in
      record {
        keys = ks;
        entry = k;
        fetched = fetched;
        listed = listed;
        algorithm = same_texts h.alg "RS256" rs256;
        named = has_kid ∙ ap some named;
        is_rsa = kind;
        decoded = decoded;
        lower = lower;
        upper = upper;
      }
]

-- A client that the bearer token of a request's Authorization header vouches for: the library
-- accepted this token, it names the client, and its signature fits a trusted key for its own header.
pub record Vouched (lib : Library) (sig : Signatures) (cfg : Config) (authorization client : String)
    : Type 0 where
  pub scheme : String
  pub token : String
  pub presented : lib.fields authorization ≡ scheme ∷ token ∷ []
  pub bearer : lib.equal_fold scheme "Bearer" ≡ true
  pub claims : Claims
  pub accepted : lib.parse_with_claims (key_of_token lib) cfg token ≡ some claims
  pub names : claims.azp ≡ some client
  pub not_empty : client ≢ ""
  pub header : TokenHeader
  pub signer : PublicKey
  pub read : sig.header_of token ≡ some header
  pub signed : sig.is_signed_by token signer ≡ true
  pub trusted : Trusted lib header signer

client_same : {c d : String} → passes (some c) ≡ passes (some d) → c ≡ d
client_same h = cc

admit-passes :
    (o : Option String) (client : String)
    → admit o ≡ passes (some client)
    → (o ≡ some client) × (client ≢ "")
admit-passes none client h = absurd (cc h)
admit-passes (some c) client h = elim (Bool-cases (c == "")) [
  | inl empty ↦ absurd (cc (rw empty at h))
  | inr set ↦
      let same : c ≡ client = client_same (rw set at h) in
      (ap some same, λ e. cc (set, (eq_iff c "").1 (same ∙ e)))
]

true_of_not : (b : Bool) → not b ≡ false → b ≡ true
true_of_not true h = refl
true_of_not false h = cc

module _ (lib : Library) (sig : Signatures) (cfg : Config) (checks : ChecksKeys lib sig)
    (authorization client : String) where
  token-Vouched :
      (scheme token : String) (o : Option Claims)
      → lib.fields authorization ≡ scheme ∷ token ∷ []
      → lib.equal_fold scheme "Bearer" ≡ true
      → lib.parse_with_claims (key_of_token lib) cfg token ≡ o
      → after_token o ≡ passes (some client)
      → Vouched lib sig cfg authorization client
  token-Vouched scheme token none split bearer is h = absurd (cc h)
  token-Vouched scheme token (some claims) split bearer is h =
      let (names, set) = admit-passes claims.azp client h in
      let (header, pk, read, given, signed) = checks (key_of_token lib) cfg token claims is in
      record {
        scheme = scheme;
        token = token;
        presented = split;
        bearer = bearer;
        claims = claims;
        accepted = is;
        names = names;
        not_empty = set;
        header = header;
        signer = pk;
        read = read;
        signed = signed;
        trusted = key_of_token-Trusted lib header given;
      }

  authorize-Vouched :
      (parts : List String)
      → lib.fields authorization ≡ parts
      → authorize lib cfg parts ≡ passes (some client)
      → Vouched lib sig cfg authorization client
  authorize-Vouched [] split h = absurd (cc h)
  authorize-Vouched (a ∷ []) split h = absurd (cc h)
  authorize-Vouched (a ∷ b ∷ c ∷ rest) split h = absurd (cc h)
  authorize-Vouched (scheme ∷ token ∷ []) split h =
      elim (Bool-cases (not (lib.equal_fold scheme "Bearer"))) [
        | inl bad ↦ absurd (cc (rw bad at h))
        | inr bearer ↦
            token-Vouched scheme token (lib.parse_with_claims (key_of_token lib) cfg token) split
              (true_of_not (lib.equal_fold scheme "Bearer") bearer) refl (rw bearer at h)
      ]

  -- Where the library accepts a token only when its signature fits the key it is given for the token's
  -- own header: a request that goes on with a client has an Authorization header of two fields,
  -- Bearer and a token; the library accepted this token, which names the client, not empty; and its
  -- signature fits a key of the fetched set, the one that the token's header names, for RS256 and
  -- RSA and with an exponent from 3 to 2 ^ 31 - 1.
  pub middleware-Vouched :
      (path : String)
      → middleware lib cfg path authorization ≡ passes (some client)
      → Vouched lib sig cfg authorization client
  unfolding middleware
  middleware-Vouched path h = elim (Bool-cases (lib.has_prefix path "/health/")) [
    | inl health ↦ absurd (cc (rw health at h))
    | inr other ↦ authorize-Vouched (lib.fields authorization) refl (rw other at h)
  ]
