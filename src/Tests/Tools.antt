-- ===== src/Tests/Tools.antt =====
-- The migrations, the configuration, the counters and the JSON of money at concrete values.
use apostas_api.Prelude.{
  ℕ, ◌≡◌, ◌↔◌, ◌+◌, ◌<◌, ◌%◌, ◌^◌, ◌∷◌, true, false, Option, some, if◌then◌else◌, List, [], Bytes,
  String, codes, refl, arith,
}
use apostas_api.Prelude.Int.{ℤ, pos}
use apostas_api.Prelude.Eq.{◌==◌, string_eq}
use apostas_api.Result.{ok, ◌>>=◌}
use apostas_api.Config.{Config, loaded, load, read_settings, Usable, FromEnvironment, load_iff}
use apostas_api.Metrics.{registry, value_of, add_all, total, value-add_all}
use apostas_api.Migrate.{
  Way, up, down, Site, Schema, completed, migrate, in_order, register_legacy, version_of, recorded,
}
use apostas_api.Migrate.Applied.{AllRecorded, Grown, up_completes}
use apostas_api.Migrate.Undone.{UndoesFirst, down_completes}
use apostas_api.Workers.Manager.{
  Manager, Life, begins, returns, closes, cancels, launched, on_stop, by_done, on_stop_complete,
}
use apostas_api.Money.Json.{Json, Wire, marshal_json, unmarshal_json, unmarshal_json-marshal_json}
use apostas_api.Tests.{one_currency, reais}
use apostas_api.Tests.Amounts.{valid-reais}

-- Two migrations of a database that counts the statements.
abbrev paths : List Bytes
paths = codes "m/000002_b.up.sql" ∷ codes "m/000001_a.up.sql" ∷ []

abbrev site : Site ℕ
site = record {
  glob = λ way. some paths;
  read_file = λ path. some "sql";
  exec = λ sql n. some (n + 1);
  has_wallets = λ n. false;
  has_wallet_version = λ n. false;
}

abbrev fresh_schema : Schema ℕ
fresh_schema = record { versions = []; tables = 0 }

abbrev migrated : Schema ℕ
migrated = record { versions = pos 2 ∷ pos 1 ∷ []; tables = 2 }

abbrev one_back : Schema ℕ
one_back = record { versions = pos 1 ∷ []; tables = 3 }

goes_up : migrate site up fresh_schema ≡ completed migrated
unfolding migrate apostas_api.Migrate.migrate_all in_order apostas_api.Database.Query.sort_by
    apostas_api.Migrate.comes_before apostas_api.Migrate.turn version_of
    apostas_api.Strconv.parse_int apostas_api.Database.exists register_legacy
goes_up = refl

goes_down : migrate site down migrated ≡ completed one_back
unfolding migrate apostas_api.Migrate.migrate_all in_order apostas_api.Database.Query.sort_by
    apostas_api.Migrate.comes_before apostas_api.Migrate.turn version_of
    apostas_api.Strconv.parse_int apostas_api.Database.exists register_legacy
    apostas_api.Migrate.without
goes_down = refl

up_completes_example :
    (found : List Bytes) × (some paths ≡ some found)
    × AllRecorded found migrated.versions
    × Grown fresh_schema.versions migrated.versions
    × (migrate site up migrated ≡ completed migrated)
up_completes_example = up_completes site fresh_schema migrated goes_up

down_completes_example :
    (found : List Bytes) × (some paths ≡ some found)
    × UndoesFirst site (in_order down found) (register_legacy site migrated) one_back
down_completes_example = down_completes site migrated one_back goes_down

-- An environment in which every variable but the credentials is set.
abbrev environment : String → String
environment name =
    if name == "AWS_ACCESS_KEY_ID" then "" else if name == "AWS_SECRET_ACCESS_KEY" then "" else "x"

abbrev ten_seconds : String → Option ℤ
ten_seconds text = some (pos 10000000000)

abbrev config : Config
config = record {
  settings = read_settings environment ten_seconds;
  shutdown_timeout = pos 10000000000;
}

load_iff_example : (load environment ten_seconds ≡ loaded config) ↔ (
    FromEnvironment environment config.settings
    × (ten_seconds (environment "APP_SHUTDOWN_TIMEOUT") ≡ some config.shutdown_timeout)
    × Usable config)
load_iff_example = load_iff environment ten_seconds config

-- Two calls for one counter, and one for another between them.
abbrev additions : List (String × ℕ)
additions = ("apostas_sqs_dlq_total", 2) ∷ ("other", 5) ∷ ("apostas_sqs_dlq_total", 1) ∷ []

counted_from_zero : value_of "apostas_sqs_dlq_total" registry < 2 ^ 64
unfolding value_of
counted_from_zero = omega arith

value-add_all_example :
    value_of "apostas_sqs_dlq_total" (add_all additions registry)
    ≡ (value_of "apostas_sqs_dlq_total" registry + total "apostas_sqs_dlq_total" additions) % 2 ^ 64
value-add_all_example = value-add_all "apostas_sqs_dlq_total" additions registry counted_from_zero

-- A document is the wire itself.
abbrev plain : Json Wire
plain = record { marshal = λ w. w; decode = λ w. some (w, true) }

unmarshal_json-marshal_json_example :
    (marshal_json plain (reais (pos 300)) >>= λ document. unmarshal_json plain document)
    ≡ ok (reais (pos 300))
unmarshal_json-marshal_json_example =
    unmarshal_json-marshal_json plain (reais (pos 300)) (λ w. refl) valid-reais (omega arith)
      (omega arith)

-- One worker that returns once the manager cancels it.
abbrev finished : Manager
finished = record { started = true; cancelled = true; running = []; done = true }

finished-Life : Life ("outbox" ∷ []) finished
finished-Life =
    closes (record { started = true; cancelled = true; running = []; done = false })
      (returns (record { started = true; cancelled = true; running = "outbox" ∷ []; done = false })
        [] [] "outbox" (cancels (launched ("outbox" ∷ [])) begins) refl)
      refl

stopped_clean : on_stop by_done false finished ≡ some (true, finished)
unfolding on_stop
stopped_clean = refl

on_stop_complete_example : (finished.cancelled ≡ true) × (finished.running ≡ [])
on_stop_complete_example =
    on_stop_complete ("outbox" ∷ []) by_done false finished finished finished-Life stopped_clean
