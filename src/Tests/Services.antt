-- ===== src/Tests/Services.antt =====
-- The workers and the HTTP routes at a small database.
use mathlib.Core.Path.{subst}
use text.Mathlib.TextEquality.{eq_iff}
use apostas_api.Prelude.{
  ◌≡◌, ◌≢◌, true, false, none, some, some-inj, if◌then◌else◌, [], ◌∷◌, String, refl,
}
use apostas_api.Prelude.Int.{pos}
use apostas_api.Prelude.Int64.{IsInt64}
use apostas_api.Prelude.Eq.{◌==◌, string_eq}
use apostas_api.Result.{other_error}
use apostas_api.Values.{Uuid}
use apostas_api.Money.{Money}
use apostas_api.Wager.{Operation}
use apostas_api.Queue.{Message}
use apostas_api.Workers.Consumer.{Codec, Moment}
use apostas_api.Workers.Consumer.Related.{Int64Codec}
use apostas_api.Workers.Consumer.Books.{wager_processor}
use apostas_api.Http.{Request, Web}
use apostas_api.Http.Routes.{post_transactions, serve}
use apostas_api.Http.Routes.Access.{Visible, serve-Visible}
use apostas_api.Http.Routes.Writes.{OwnWager, Int64Web, serve-OwnWager}
use apostas_api.Oidc.{
  Config, Library, TokenHeader, passes, and_then, middleware, key_of_token, key, find_key,
  public_key,
}
use apostas_api.Oidc.Safety.{Signatures, ChecksKeys, Vouched, and_then-some, middleware-Vouched}
use apostas_api.Tests.{one_currency, reais, bet_op}
use apostas_api.Tests.Stores.{fresh_from, digest, start, same_hash, fits_300}

-- Readers that know one envelope and one request.
abbrev pub codec : Codec
codec = record {
  envelope = λ body.
      some (record { message_id = "m"; kind = "WagerTransactionRequested"; content = body });
  short_envelope = λ body. some ("WagerTransactionRequested", body);
  request = λ body. some (bet_op, "key-1");
  digest = λ body. digest;
}

abbrev delivered : Message
delivered = record { id = "sqs"; receipt_handle = "handle"; body = "bet"; receive_count = pos 2 }

-- The use case in service, and one whose database cannot be reached.
abbrev working : Moment
working = record {
  wager = wager_processor same_hash (fresh_from 21 60) (fresh_from 31 61) none;
  cancelled = false;
  buries = true;
  stops = false;
}

abbrev broken : Moment
broken = record working {
  wager = wager_processor same_hash (fresh_from 21 60) (fresh_from 31 61) (some other_error);
}

pub codec_amounts : Int64Codec codec
codec_amounts text op key h =
    subst (λ (x : Operation × String). IsInt64 x.0.money.minor) (some-inj h) fits_300

-- Readers that know one path and two bodies.
abbrev pub web : Web
web = record {
  parse_uuid = λ path. if path == "21" then some 21 else none;
  atoi = λ text. none;
  opening_body = λ body. some (8, reais (pos 300));
  operation_body = λ body. some bet_op;
  read_cursor = λ text. none;
  write_cursor = λ cursor. none;
  trim = λ text. text;
}

abbrev pub by_provider : Request
by_provider = record {
  principal = some "p";
  body = "";
  idempotency_key = "key-1";
  limit = "";
  cursor = "";
}

not_service : ◌≢◌ {A = String} "p" "wallet-service"
not_service h = cc ((eq_iff "p" "wallet-service").1 h)

serve-Visible_example :
    Visible "p"
      (serve same_hash web (fresh_from 21 60) 2 post_transactions by_provider start).1
      (serve same_hash web (fresh_from 21 60) 2 post_transactions by_provider start).0.body
serve-Visible_example =
    serve-Visible same_hash web (fresh_from 21 60) 2 post_transactions by_provider "p" start refl
      not_service

serve-OwnWager_example :
    OwnWager same_hash
      (fresh_from 21 60)
      "p"
      start
      (serve same_hash web (fresh_from 21 60) 2 post_transactions by_provider start).1
serve-OwnWager_example =
    serve-OwnWager same_hash (fresh_from 21 60) "p" start web 2 post_transactions by_provider refl
      not_service

web_amounts : Int64Web web
web_amounts = record {
  operations = λ text op h. subst (λ (x : Operation). IsInt64 x.money.minor) (some-inj h) fits_300;
  openings = λ text player initial h.
      subst (λ (x : Uuid × Money). IsInt64 x.1.minor) (some-inj h) fits_300;
}

-- A library that accepts a token of one client whenever it is given a key.
abbrev token_header : TokenHeader
token_header = record { alg = "RS256"; kid = some "k1" }

abbrev library : Library
library = record {
  decode_base64 = λ text. some (3 ∷ []);
  fields = λ value. "Bearer" ∷ "token" ∷ [];
  equal_fold = λ s t. s == t;
  has_prefix = λ s prefix. false;
  fetch_keys = some (record { kid = "k1"; kty = "RSA"; n = "Aw"; e = "Aw" } ∷ []);
  parse_with_claims =
      λ find cfg token. and_then (find token_header) (λ signer. some (record { azp = some "p" }));
}

abbrev signatures : Signatures
signatures = record { header_of = λ token. some token_header; is_signed_by = λ token k. true }

library_checks : ChecksKeys library signatures
library_checks find cfg token claims h =
    let (signer, given, made) =
      and_then-some (find token_header) (λ x. some (record { azp = some "p" })) h in
    (token_header, signer, refl, given, refl)

abbrev service : Config
service = record { issuer = "issuer"; audience = "apostas-api" }

lets_in : middleware library service "/wallets" "Bearer token" ≡ passes (some "p")
unfolding middleware key_of_token key find_key public_key
lets_in = refl

middleware-Vouched_example : Vouched library signatures service "Bearer token" "p"
middleware-Vouched_example =
    middleware-Vouched library signatures service library_checks "Bearer token" "p" "/wallets"
      lets_in
