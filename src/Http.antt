-- ===== src/Http.antt =====
-- internal/controller/http.go: requests, answers and the helpers of the handlers. The HTTP server,
-- the router's matching, JSON, base64 and metrics are Go's; the routes are the cases of one type.
pub mod Handlers
pub mod Routes
use apostas_api.Prelude.{
  ℕ, Bool, true, false, not, ◌&&◌, ◌||◌, Option, none, some, List, [], ◌∷◌, String, if◌then◌else◌,
}
use apostas_api.Prelude.Int.{ℤ, pos, ltb_ℤ, pos_part}
use apostas_api.Prelude.Eq.{◌==◌, ◌!=◌, nat_eq, string_eq}
use apostas_api.Result.{
  Error, invalid_input, invalid_wallet, invalid_money, conflict, not_found, Result, ok, err,
}
use apostas_api.Values.{Uuid, uuid_nil, is_zero_time}
use apostas_api.Money.{Money}
use apostas_api.Wallet.{Wallet}
use apostas_api.Wager.{Operation}
use apostas_api.Store.{WagerResult}
use apostas_api.Store.Pages.{LedgerCursor, EntryView}
use apostas_api.Store.Reads.{TransactionView}
use apostas_api.Store.Wallets.{Reconciliation}

-- A request, as far as the handlers look at it: the client of `oidc.FromContext`, the body, the
-- header Idempotency-Key, and the query's limit and cursor.
pub record Request : Type 0 where
  pub principal : Option String
  pub body : String
  pub idempotency_key : String
  pub limit : String
  pub cursor : String

-- Go's readers of texts: a UUID, an integer, the JSON bodies as `decode` reads them, a cursor's base64
-- and JSON, its writer, and strings.TrimSpace.
pub record Web : Type 0 where
  pub parse_uuid : String → Option Uuid
  pub atoi : String → Option ℤ
  pub opening_body : String → Option (Uuid × Money)
  pub operation_body : String → Option Operation
  pub read_cursor : String → Option LedgerCursor
  pub write_cursor : LedgerCursor → Option String
  pub trim : String → String

pub data Body : Type 0 where
  error_code : String → Body
  wallet : Wallet → Body
  wager : WagerResult → Body
  ledger : List EntryView → Option String → Body
  transaction : TransactionView → Body
  reconciliation : Reconciliation → Body
  metrics : Body

pub record Response : Type 0 where
  pub status : ℕ
  pub body : Body

abbrev pub write_json : ℕ → Body → Response
write_json status body = record { status = status; body = body }

abbrev pub write_error : ℕ → String → Response
write_error status code = write_json status (error_code code)

abbrev pub forbidden : Response
forbidden = write_error 403 "FORBIDDEN"

abbrev pub invalid : Response
invalid = write_error 400 "INVALID_INPUT"

-- `writeUsecaseError`
unfoldable pub write_usecase_error : Error → Response
write_usecase_error invalid_input = write_error 400 "INVALID_INPUT"
write_usecase_error invalid_wallet = write_error 400 "INVALID_INPUT"
write_usecase_error invalid_money = write_error 400 "INVALID_INPUT"
write_usecase_error conflict = write_error 409 "CONFLICT"
write_usecase_error not_found = write_error 404 "NOT_FOUND"
write_usecase_error _ = write_error 503 "TEMPORARY_UNAVAILABLE"

abbrev pub is_client : Option String → String → Bool
is_client none name = false
is_client (some client) name = client == name

-- `internal`
unfoldable pub is_internal : Request → Bool
is_internal r = is_client r.principal "wallet-service"

-- `canReadTransaction`
unfoldable pub can_read_transaction : Request → String → Bool
unfolding is_internal
can_read_transaction r provider =
    if is_internal r then true else provider != "" && is_client r.principal provider

abbrev pub checked_limit : Option ℤ → Option ℕ
checked_limit none = none
checked_limit (some n) = if ltb_ℤ n (pos 1) || ltb_ℤ (pos 100) n then none else some (pos_part n)

-- `ledgerLimit`
unfoldable pub ledger_limit : Web → Request → Option ℕ
ledger_limit web r = if r.limit == "" then some 50 else checked_limit (web.atoi r.limit)

abbrev pub checked_cursor : Option LedgerCursor → Option (Option LedgerCursor)
checked_cursor none = none
checked_cursor (some c) =
    if is_zero_time c.created_at || c.id == uuid_nil then none else some (some c)

-- `decodeCursor`: no cursor, or a valid one.
unfoldable pub decode_cursor : Web → String → Option (Option LedgerCursor)
decode_cursor web value = if value == "" then some none else checked_cursor (web.read_cursor value)

-- `if err != nil { writeUsecaseError(w, err); return }`
abbrev pub answer {ℓ} : {A : Type ℓ} → Result A → (A → Response) → Response
answer (ok a) next = next a
answer (err e) next = write_usecase_error e

-- `if err != nil { writeError(w, 400, "INVALID_INPUT"); return }`
abbrev pub with_input {ℓ κ} : {A : Type ℓ} {B : Type κ} → Option A → B → (A → B) → B
with_input none refusal next = refusal
with_input (some a) refusal next = next a
