-- ===== src/Store/Reads/Shown.antt =====
-- internal/infra/postgres/store.go: the row of a decided operation as `scanTransaction` shows it.
use text.Mathlib.TextEquality.{eq_iff}
use apostas_api.Transaction.{Status, pending, status_eq}
use apostas_api.Transaction.Machine.{park, accept, reject, fail, ◌⟶◌, move}
use apostas_api.Store.Replay.{text_or_empty-nullable}
use apostas_api.Prelude.{
  ◌≡◌, ◌≢◌, true, false, not, ◌&&◌, Option, some, String, refl, arith, ap, ◌∙◌, sym,
}
use apostas_api.Prelude.Eq.{◌!=◌, nat_eq, string_eq}
use apostas_api.Result.{ok, >>=-eq-ok}
use apostas_api.Values.{Uuid, Time}
use apostas_api.Money.{Currencies, Money, money_from_minor, valid}
use apostas_api.Wallet.{Wallet}
use apostas_api.Wager.{Operation, Decision}
use apostas_api.WagerTransaction.{
  WagerTransactionData, WagerTransaction, validate_wager_transaction, rehydrate_wager_transaction,
  new_wager_transaction, bad_identity, bad_result, bad_failure, bad_texts, bad_opening,
}
use apostas_api.WagerTransaction.Validity.{Checked, as_new, Checked-validate}
use apostas_api.WagerTransaction.Transitions.{transition_to_sound}
use apostas_api.Database.{TransactionRow}
use apostas_api.Store.Rows.{Fresh}
use apostas_api.Store.Calls.{WagerResult, new_row, nullable_uuid, result_of, settle_transaction}
use apostas_api.Store.Reads.{
  TransactionView, view_row, identity_of, uuid_or_nil, seen, result_balance_of,
}

-- A transaction as it was answered, with the reference that was settled.
abbrev pub answered : Operation → WagerResult → Option Uuid → Time → TransactionView
answered op r ref at = record {
  id = r.transaction_id;
  external_transaction_id = op.external_transaction_id;
  provider_id = op.provider_id;
  wallet_id = op.wallet_id;
  player_id = op.player_id;
  round_id = op.round_id;
  game_id = op.game_id;
  kind = op.kind;
  money = op.money;
  reference_external_transaction_id = op.reference_external_transaction_id;
  reference_transaction_id = ref;
  status = r.status;
  failure_code = r.failure_code;
  result_balance = some r.balance;
  created_at = at;
  updated_at = at;
}

uuid_or_nil-nullable_uuid : (id : Uuid) → uuid_or_nil (nullable_uuid id) ≡ id
uuid_or_nil-nullable_uuid id = ground arith

-- Valid data stays valid at another set time.
abbrev at_time : WagerTransactionData → Time → WagerTransactionData
at_time d t = record d { created_at = t; updated_at = t }

abbrev pub written : Fresh → Operation → String → Decision → Wallet → WagerTransactionData
written fresh op hash d w = record {
  id = fresh.transaction_id;
  external_transaction_id = op.external_transaction_id;
  provider_id = op.provider_id;
  idempotency_key = op.idempotency_key;
  payload_hash = hash;
  wallet_id = op.wallet_id;
  player_id = op.player_id;
  round_id = op.round_id;
  game_id = op.game_id;
  kind = op.kind;
  money = op.money;
  reference_external_transaction_id = op.reference_external_transaction_id;
  reference_transaction_id = d.reference_id;
  status = d.status;
  failure_code = d.failure_code;
  result_balance = w.balance;
  created_at = fresh.now;
  updated_at = fresh.now;
}

module _ ⦃iso : Currencies⦄ where
  new_wager_transaction-eq-ok :
      (given : WagerTransactionData) {t : WagerTransaction}
      → new_wager_transaction given ≡ ok t
      → t ≡ record { fields = as_new given }
  unfolding new_wager_transaction
  new_wager_transaction-eq-ok given h = ground arith

  pub settle_transaction-written :
      (fresh : Fresh) (op : Operation) (hash : String) (d : Decision) (w : Wallet)
      {t : WagerTransaction}
      → settle_transaction fresh op hash d w ≡ ok t
      → (validate_wager_transaction (written fresh op hash d w) ≡ ok tt) × (pending ⟶ d.status)
  unfolding settle_transaction
  settle_transaction-written fresh op hash d w h =
      let (t, made, moved) = >>=-eq-ok (new_wager_transaction _) _ h in
      let is = new_wager_transaction-eq-ok _ made in
      let (edge, new, v, at) =
        transition_to_sound t d.status d.failure_code w.balance d.reference_id fresh.now moved in
      (rw (new, is) at v, rw is at edge)

  pub not_pending : {s : Status} → pending ⟶ s → (s != pending) ≡ true
  not_pending (move o park) = refl
  not_pending (move o accept) = refl
  not_pending (move o reject) = refl
  not_pending (move o fail) = refl

  at_time_identity :
      (d : WagerTransactionData) (t : Time)
      → t ≢ 0
      → bad_identity d ≡ false
      → bad_identity (at_time d t) ≡ false
  unfolding bad_identity
  at_time_identity d t set h = ground arith

  at_time-Checked :
      (d : WagerTransactionData) (t : Time) → t ≢ 0 → Checked d → Checked (at_time d t)
  unfolding bad_result bad_failure bad_texts bad_opening
  at_time-Checked d t set c = record {
    identity = at_time_identity d t set c.identity;
    state = c.state;
    result = c.result;
    result_set = c.result_set;
    failure = c.failure;
    kind_rules = c.kind_rules;
  }

  identity-valid : (d : WagerTransactionData) → bad_identity d ≡ false → valid d.money ≡ true
  unfolding bad_identity
  identity-valid d h = ground arith

  result-currency :
      (d : WagerTransactionData)
      → bad_result d ≡ false
      → (d.status != pending) ≡ true
      → (d.status != pending && not (valid d.result_balance)) ≡ false
      → d.result_balance.currency ≡ d.money.currency
  unfolding bad_result
  result-currency d h s r = ground (arith, eq_iff d.result_balance.currency d.money.currency)

  balance_of_row :
      (m : Money) (currency : String)
      → valid m ≡ true
      → m.currency ≡ currency
      → result_balance_of (some m.minor) currency ≡ ok (some m)
  unfolding money_from_minor
  balance_of_row m currency v same = rw (sym same, v) refl

  view_row_lem :
      (row : TransactionRow) (money : Money) (result : Option Money)
      → money_from_minor row.amount_minor row.currency ≡ ok money
      → result_balance_of row.result_balance_minor row.currency ≡ ok result
      → validate_wager_transaction
          (identity_of (seen row money result) row.idempotency_key row.payload_hash)
        ≡ ok tt
      → view_row row ≡ ok (seen row money result)
  unfolding view_row rehydrate_wager_transaction
  view_row_lem row money result m r v = rw (m, r, v) refl

  result-valid :
      (d : WagerTransactionData)
      → (d.status != pending) ≡ true
      → (d.status != pending && not (valid d.result_balance)) ≡ false
      → valid d.result_balance ≡ true
  result-valid d s r = ground arith

  amount_of_row : (m : Money) → valid m ≡ true → money_from_minor m.minor m.currency ≡ ok m
  unfolding money_from_minor
  amount_of_row m v = rw v refl

  module _ (fresh : Fresh) (op : Operation) (hash : String) (d : Decision) (w : Wallet) where
    seen_new :
        seen (new_row fresh op hash d w) op.money (some w.balance)
        ≡ answered op (result_of fresh d w) (nullable_uuid d.reference_id) fresh.db_now
    unfolding new_row
    seen_new =
        rw
          (
            text_or_empty-nullable op.reference_external_transaction_id,
            text_or_empty-nullable d.failure_code,
          )
          refl

    identity_new :
        identity_of
          (answered op (result_of fresh d w) (nullable_uuid d.reference_id) fresh.db_now)
          (some op.idempotency_key)
          (some hash)
        ≡ at_time (written fresh op hash d w) fresh.db_now
    unfolding identity_of
    identity_new = rw (uuid_or_nil-nullable_uuid d.reference_id) refl

    pub view_row-new_row :
        fresh.db_now ≢ 0
        → Checked (written fresh op hash d w)
        → (d.status != pending) ≡ true
        → view_row (new_row fresh op hash d w)
          ≡ ok (answered op (result_of fresh d w) (nullable_uuid d.reference_id) fresh.db_now)
    unfolding new_row
    view_row-new_row set c s =
        let e = written fresh op hash d w in
        view_row_lem (new_row fresh op hash d w) op.money (some w.balance)
          (amount_of_row op.money (identity-valid e c.identity))
          (balance_of_row w.balance op.money.currency (result-valid e s c.result_set)
            (result-currency e c.result s c.result_set))
          (ap
              (λ (t : TransactionView).
                validate_wager_transaction (identity_of t (some op.idempotency_key) (some hash)))
              seen_new
            ∙ ap validate_wager_transaction identity_new
            ∙ Checked-validate (at_time e fresh.db_now) (at_time-Checked e fresh.db_now set c))
        ∙ ap ok seen_new
