-- ===== src/Config.antt =====
-- internal/infra/config/config.go: `Load`. The environment and `time.ParseDuration` are parameters.
use mathlib.Core.Path.{subst}
use text.Mathlib.TextEquality.{eq_iff}
use apostas_api.Prelude.{
  ◌≡◌, ◌≢◌, ◌↔◌, Bool, true, false, ◌||◌, Option, none, some, String, arith, refl, if◌then◌else◌,
  Bool-cases, inl, inr, sym, ap,
}
use apostas_api.Prelude.Int.{ℤ, pos, ltb_ℤ, ◌≤ℤ◌}
use apostas_api.Prelude.Eq.{◌==◌, ◌!=◌, string_eq}

pub record Settings : Type 0 where
  pub addr : String
  pub database_url : String
  pub issuer_url : String
  pub jwks_url : String
  pub audience : String
  pub aws_region : String
  pub aws_endpoint : String
  pub aws_access_key : String
  pub aws_secret_key : String
  pub input_queue_url : String
  pub output_queue_url : String
  pub dlq_url : String

-- The settings with `ShutdownTimeout`, in nanoseconds.
pub record Config : Type 0 where
  pub settings : Settings
  pub shutdown_timeout : ℤ

pub data Loaded : Type 0 where
  loaded : Config → Loaded
  missing_required : Loaded
  credentials_apart : Loaded
  invalid_timeout : Loaded

abbrev pub lacks_required : Settings → Bool
lacks_required c =
    c.addr == ""
    || c.database_url == ""
    || c.issuer_url == ""
    || c.jwks_url == ""
    || c.audience == ""
    || c.aws_region == ""
    || c.input_queue_url == ""
    || c.output_queue_url == ""
    || c.dlq_url == ""

abbrev pub has_half_credentials : Settings → Bool
has_half_credentials c =
    (if c.aws_access_key == "" then c.aws_secret_key != "" else c.aws_secret_key == "")

abbrev pub with_timeout : Settings → Option ℤ → Loaded
with_timeout c none = invalid_timeout
with_timeout c (some t) =
    if ltb_ℤ (pos 0) t
    then loaded (record { settings = c; shutdown_timeout = t })
    else invalid_timeout

-- What a process needs to start.
pub record Usable (c : Config) : Type 0 where
  pub addr : c.settings.addr ≢ ""
  pub database : c.settings.database_url ≢ ""
  pub issuer : c.settings.issuer_url ≢ ""
  pub keys : c.settings.jwks_url ≢ ""
  pub audience : c.settings.audience ≢ ""
  pub region : c.settings.aws_region ≢ ""
  pub input : c.settings.input_queue_url ≢ ""
  pub output : c.settings.output_queue_url ≢ ""
  pub dead_letters : c.settings.dlq_url ≢ ""
  pub credentials : (c.settings.aws_access_key ≡ "") ↔ (c.settings.aws_secret_key ≡ "")
  pub timeout : pos 1 ≤ℤ c.shutdown_timeout

-- What each setting is called in the environment.
pub record FromEnvironment (getenv : String → String) (s : Settings) : Type 0 where
  pub addr : s.addr ≡ getenv "APP_ADDR"
  pub database_url : s.database_url ≡ getenv "DATABASE_URL"
  pub issuer_url : s.issuer_url ≡ getenv "OIDC_ISSUER_URL"
  pub jwks_url : s.jwks_url ≡ getenv "OIDC_JWKS_URL"
  pub audience : s.audience ≡ getenv "OIDC_AUDIENCE"
  pub aws_region : s.aws_region ≡ getenv "AWS_REGION"
  pub aws_endpoint : s.aws_endpoint ≡ getenv "AWS_ENDPOINT_URL"
  pub aws_access_key : s.aws_access_key ≡ getenv "AWS_ACCESS_KEY_ID"
  pub aws_secret_key : s.aws_secret_key ≡ getenv "AWS_SECRET_ACCESS_KEY"
  pub input_queue_url : s.input_queue_url ≡ getenv "AWS_SQS_INPUT_QUEUE_URL"
  pub output_queue_url : s.output_queue_url ≡ getenv "AWS_SQS_OUTPUT_QUEUE_URL"
  pub dlq_url : s.dlq_url ≡ getenv "AWS_SQS_DLQ_URL"

set_text : (s : String) → (s == "") ≡ false → s ≢ ""
set_text s h e = cc (h, (eq_iff s "").1 e)

text_set : (s : String) → s ≢ "" → (s == "") ≡ false
text_set s h = ground (arith, eq_iff s "")

whole_credentials :
    (a s : String) → (if a == "" then s != "" else s == "") ≡ false → (a ≡ "") ↔ (s ≡ "")
whole_credentials a s h = ground (arith, eq_iff a "", eq_iff s "")

credentials_whole :
    (a s : String) → (a ≡ "") ↔ (s ≡ "") → (if a == "" then s != "" else s == "") ≡ false
credentials_whole a s h = ground (arith, eq_iff a "", eq_iff s "")

all_false :
    (a b c d e f g h i : Bool)
    → (a || b || c || d || e || f || g || h || i) ≡ false
    → (a ≡ false)
      × (b ≡ false)
      × (c ≡ false)
      × (d ≡ false)
      × (e ≡ false)
      × (f ≡ false)
      × (g ≡ false)
      × (h ≡ false)
      × (i ≡ false)
all_false a b c d e f g h i k = ground arith

required_texts :
    (c : Config)
    → lacks_required c.settings ≡ false
    → has_half_credentials c.settings ≡ false
    → pos 1 ≤ℤ c.shutdown_timeout
    → Usable c
required_texts c h k t =
    let s = c.settings in
    let (addr, database, issuer, keys, audience, region, input, output, dead) =
      all_false (s.addr == "") (s.database_url == "") (s.issuer_url == "") (s.jwks_url == "")
        (s.audience == "") (s.aws_region == "") (s.input_queue_url == "") (s.output_queue_url == "")
        (s.dlq_url == "") h in
    record {
      addr = set_text s.addr addr;
      database = set_text s.database_url database;
      issuer = set_text s.issuer_url issuer;
      keys = set_text s.jwks_url keys;
      audience = set_text s.audience audience;
      region = set_text s.aws_region region;
      input = set_text s.input_queue_url input;
      output = set_text s.output_queue_url output;
      dead_letters = set_text s.dlq_url dead;
      credentials = whole_credentials s.aws_access_key s.aws_secret_key k;
      timeout = t;
    }

Usable-lacks_required : (c : Config) → Usable c → lacks_required c.settings ≡ false
Usable-lacks_required c u =
    let s = c.settings in
    rw
      (
        text_set s.addr u.addr,
        text_set s.database_url u.database,
        text_set s.issuer_url u.issuer,
        text_set s.jwks_url u.keys,
        text_set s.audience u.audience,
        text_set s.aws_region u.region,
        text_set s.input_queue_url u.input,
        text_set s.output_queue_url u.output,
        text_set s.dlq_url u.dead_letters,
      )
      refl

positive_timeout : (t : ℤ) → pos 1 ≤ℤ t → ltb_ℤ (pos 0) t ≡ true
positive_timeout t h = ground arith

with_timeout-loaded :
    (settings : Settings) (o : Option ℤ) (c : Config)
    → with_timeout settings o ≡ loaded c
    → (c.settings ≡ settings) × (o ≡ some c.shutdown_timeout) × (pos 1 ≤ℤ c.shutdown_timeout)
with_timeout-loaded settings o c h = ground arith

module _ (getenv : String → String) (parse_duration : String → Option ℤ) where
  abbrev pub read_settings : Settings
  read_settings = record {
    addr = getenv "APP_ADDR";
    database_url = getenv "DATABASE_URL";
    issuer_url = getenv "OIDC_ISSUER_URL";
    jwks_url = getenv "OIDC_JWKS_URL";
    audience = getenv "OIDC_AUDIENCE";
    aws_region = getenv "AWS_REGION";
    aws_endpoint = getenv "AWS_ENDPOINT_URL";
    aws_access_key = getenv "AWS_ACCESS_KEY_ID";
    aws_secret_key = getenv "AWS_SECRET_ACCESS_KEY";
    input_queue_url = getenv "AWS_SQS_INPUT_QUEUE_URL";
    output_queue_url = getenv "AWS_SQS_OUTPUT_QUEUE_URL";
    dlq_url = getenv "AWS_SQS_DLQ_URL";
  }

  unfoldable pub load : Loaded
  load =
      if lacks_required read_settings
      then missing_required
      else if has_half_credentials read_settings
      then credentials_apart
      else with_timeout read_settings (parse_duration (getenv "APP_SHUTDOWN_TIMEOUT"))

  load_steps :
      (c : Config)
      → load ≡ loaded c
      → (lacks_required read_settings ≡ false)
        × (has_half_credentials read_settings ≡ false)
        × (with_timeout read_settings (parse_duration (getenv "APP_SHUTDOWN_TIMEOUT")) ≡ loaded c)
  unfolding load
  load_steps c h = elim (Bool-cases (lacks_required read_settings)) [
    | inl lacks ↦ cc (rw lacks at h)
    | inr all ↦ elim (Bool-cases (has_half_credentials read_settings)) [
      | inl half ↦ cc (rw (all, half) at h)
      | inr whole ↦ (all, whole, rw (all, whole) at h)
    ]
  ]

  loads :
      (c : Config)
      → c.settings ≡ read_settings
      → parse_duration (getenv "APP_SHUTDOWN_TIMEOUT") ≡ some c.shutdown_timeout
      → Usable c
      → load ≡ loaded c
  unfolding load
  loads c same parsed u =
      let all : lacks_required read_settings ≡ false =
        subst (λ (x : Settings). lacks_required x ≡ false) same (Usable-lacks_required c u) in
      let whole : has_half_credentials read_settings ≡ false =
        subst (λ (x : Settings). has_half_credentials x ≡ false) same
          (credentials_whole c.settings.aws_access_key c.settings.aws_secret_key u.credentials) in
      rw (all, whole, parsed, positive_timeout c.shutdown_timeout u.timeout)
        (ap
          (λ (x : Settings).
            loaded (record { settings = x; shutdown_timeout = c.shutdown_timeout }))
          (sym same))

  read_settings-FromEnvironment : FromEnvironment getenv read_settings
  read_settings-FromEnvironment = record {
    addr = refl;
    database_url = refl;
    issuer_url = refl;
    jwks_url = refl;
    audience = refl;
    aws_region = refl;
    aws_endpoint = refl;
    aws_access_key = refl;
    aws_secret_key = refl;
    input_queue_url = refl;
    output_queue_url = refl;
    dlq_url = refl;
  }

  FromEnvironment-read_settings : (s : Settings) → FromEnvironment getenv s → s ≡ read_settings
  FromEnvironment-read_settings s e =
      rw⁻¹
        (
          e.addr, e.database_url, e.issuer_url, e.jwks_url, e.audience, e.aws_region,
          e.aws_endpoint, e.aws_access_key, e.aws_secret_key, e.input_queue_url, e.output_queue_url,
          e.dlq_url,
        )
        refl

  -- `Load` gives a configuration exactly when each setting is the value of its variable in the
  -- environment, the shutdown timeout is what `time.ParseDuration` reads, and the configuration is
  -- usable: the nine required texts are not empty, both AWS credentials are given or neither, and the
  -- timeout is positive.
  pub load_iff :
      (c : Config)
      → (load ≡ loaded c) ↔ (
          FromEnvironment getenv c.settings
          × (parse_duration (getenv "APP_SHUTDOWN_TIMEOUT") ≡ some c.shutdown_timeout)
          × Usable c)
  load_iff c = (
    λ h.
        let (all, whole, timed) = load_steps c h in
        let (same, parsed, positive) = with_timeout-loaded read_settings _ c timed in
        (
          subst (FromEnvironment getenv) (sym same) read_settings-FromEnvironment,
          parsed,
          required_texts c (rw same all) (rw same whole) positive,
        ),
    λ (env, parsed, usable). loads c (FromEnvironment-read_settings c.settings env) parsed usable,
  )
