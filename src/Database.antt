-- ===== src/Database.antt =====
-- The tables of migrations/*.up.sql as lists of rows, with the statements of
-- internal/infra/postgres/store.go on them. A row that is inserted is put in front; a query that
-- finds one row takes the first that fits. `none` is NULL.
pub mod Wallets
pub mod Query
pub mod Paging
use apostas_api.Prelude.{
  ℕ, ◌≡◌, Bool, true, false, not, ◌&&◌, ◌||◌, Option, none, some, List, [], ◌∷◌, String,
  if◌then◌else◌,
}
use apostas_api.Prelude.Int.{ℤ}
use apostas_api.Prelude.Eq.{◌==◌, ◌!=◌, nat_eq, string_eq, int_eq}
use apostas_api.Values.{Uuid, Time}
use apostas_api.LedgerEntry.{Direction}
use apostas_api.Transaction.{Kind, opening, refund, rollback, Status, processed, kind_eq, status_eq}
use apostas_api.Events.{Event}

pub record WalletRow : Type 0 where
  pub id : Uuid
  pub player_id : Uuid
  pub currency : String
  pub balance_minor : ℤ
  pub version : ℤ
  pub created_at : Time
  pub updated_at : Time

pub record TransactionRow : Type 0 where
  pub id : Uuid
  pub external_transaction_id : Option String
  pub provider_id : Option String
  pub idempotency_key : Option String
  pub payload_hash : Option String
  pub wallet_id : Uuid
  pub player_id : Uuid
  pub round_id : Option String
  pub game_id : Option String
  pub kind : Kind
  pub amount_minor : ℤ
  pub currency : String
  pub reference_external_transaction_id : Option String
  pub reference_transaction_id : Option Uuid
  pub status : Status
  pub failure_code : Option String
  pub result_balance_minor : Option ℤ
  pub attempts : ℕ
  pub next_attempt_at : Option Time
  pub created_at : Time
  pub updated_at : Time

pub record LedgerRow : Type 0 where
  pub id : Uuid
  pub wallet_id : Uuid
  pub transaction_id : Uuid
  pub direction : Direction
  pub amount_minor : ℤ
  pub balance_before_minor : ℤ
  pub balance_after_minor : ℤ
  pub wallet_version : ℤ
  pub created_at : Time

pub record InboxRow : Type 0 where
  pub consumer_name : String
  pub message_id : String
  pub payload_hash : String
  pub received_at : Time
  pub completed_at : Option Time

pub record OutboxRow : Type 0 where
  pub event : Event
  pub occurred_at : Time
  pub attempts : ℕ
  pub next_attempt_at : Time
  pub published_at : Option Time
  pub claimed_until : Option Time

pub record Database : Type 0 where
  pub wallets : List WalletRow
  pub transactions : List TransactionRow
  pub ledger : List LedgerRow
  pub inbox : List InboxRow
  pub outbox : List OutboxRow

module _ {ℓ} {A : Type ℓ} where
  -- `SELECT … WHERE …` for one row.
  unfoldable pub find : (A → Bool) → List A → Option A
  find p [] = none
  find p (x ∷ xs) = if p x then some x else find p xs

  -- `SELECT EXISTS(…)`
  unfoldable pub exists : (A → Bool) → List A → Bool
  exists p [] = false
  exists p (x ∷ xs) = p x || exists p xs

  -- `UPDATE … SET … WHERE …`
  unfoldable pub update : (A → Bool) → (A → A) → List A → List A
  update p f [] = []
  update p f (x ∷ xs) = (if p x then f x else x) ∷ update p f xs

-- `column = $n`: no match on NULL.
abbrev pub is_text : Option String → String → Bool
is_text none t = false
is_text (some s) t = s == t

abbrev pub same_text : Option String → Option String → Bool
same_text none t = false
same_text (some s) t = is_text t s

abbrev pub same_uuid : Option Uuid → Option Uuid → Bool
same_uuid (some a) (some b) = a == b
same_uuid _ _ = false

abbrev pub is_reversal : TransactionRow → Bool
is_reversal t = t.status == processed && (t.kind == refund || t.kind == rollback)

-- Two rows that a unique index of `wager_transactions` keeps apart: the primary key,
-- wager_provider_external_unique, wager_provider_key_unique, wager_opening_unique and
-- wager_single_reversal_unique.
unfoldable pub clashes : TransactionRow → TransactionRow → Bool
clashes t u =
    t.id == u.id
    || same_text t.provider_id u.provider_id
      && same_text t.external_transaction_id u.external_transaction_id
    || same_text t.provider_id u.provider_id && same_text t.idempotency_key u.idempotency_key
    || t.kind == opening && u.kind == opening && t.wallet_id == u.wallet_id
    || is_reversal t
      && is_reversal u
      && same_uuid t.reference_transaction_id u.reference_transaction_id

-- The unique keys of `wallet_ledger_entries`.
unfoldable pub ledger_clashes : LedgerRow → LedgerRow → Bool
ledger_clashes e f =
    e.id == f.id
    || e.wallet_id == f.wallet_id
      && (e.transaction_id == f.transaction_id || e.wallet_version == f.wallet_version)

-- The keys of `wallets`: the primary key, and one wallet for a player and a currency.
unfoldable pub wallet_clashes : WalletRow → WalletRow → Bool
wallet_clashes w v = w.id == v.id || w.player_id == v.player_id && w.currency == v.currency
