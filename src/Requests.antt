-- ===== src/Requests.antt =====
-- internal/usecases/wager.go: `process` and `Fail`, which check an operation and hand it to the
-- store with the hash of its canonical form.
pub mod Complete
use apostas_api.Prelude.{◌≡◌, Bool, true, false, ◌||◌, Option, none, some, String, arith, refl}
use apostas_api.Prelude.Int64.{IsInt64}
use apostas_api.Prelude.Eq.{◌==◌, nat_eq}
use apostas_api.Result.{
  fail_if-eq-ok, Error, Result, ok, invalid_input, or_error, fail_if, ◌>>◌, ◌>>=◌, >>=-eq-ok,
}
use apostas_api.Values.{Uuid, uuid_nil}
use apostas_api.Strings.{is_blank}
use apostas_api.Money.{Currencies, Money, valid}
use apostas_api.Transaction.{Kind, failed, validate_operation}
use apostas_api.Transaction.Operations.{Accepted, validate_operation_iff}
use apostas_api.Wager.{Operation, decision, decide}
use apostas_api.Database.{Database}
use apostas_api.Store.{Fresh, WagerResult, InboxMessage, execute}
use apostas_api.Store.Inbox.{execute_inbox, execute_inbox-Sound}
use apostas_api.Store.Ledger.{SoundDatabase, execute-Sound, execute_tx-Sound}

-- The fields that `canonicalOperation` gives to json.Marshal.
pub record Canonical : Type 0 where
  pub external_transaction_id : String
  pub game_id : String
  pub kind : Kind
  pub money : Money
  pub player_id : Uuid
  pub provider_id : String
  pub reference_external_transaction_id : String
  pub round_id : String
  pub wallet_id : Uuid

abbrev pub canonical_operation : Operation → Canonical
canonical_operation op = record {
  external_transaction_id = op.external_transaction_id;
  game_id = op.game_id;
  kind = op.kind;
  money = op.money;
  player_id = op.player_id;
  provider_id = op.provider_id;
  reference_external_transaction_id = op.reference_external_transaction_id;
  round_id = op.round_id;
  wallet_id = op.wallet_id;
}

-- The texts that both entry points ask for.
abbrev pub lacks_identity : Operation → Bool
lacks_identity op =
    is_blank op.provider_id
    || is_blank op.external_transaction_id
    || is_blank op.idempotency_key
    || op.player_id == uuid_nil
    || op.wallet_id == uuid_nil

abbrev pub lacks_round : Operation → Bool
lacks_round op = is_blank op.round_id || is_blank op.game_id

module _ ⦃iso : Currencies⦄ where
  -- `if inbox != nil { … }`
  abbrev pub dispatch :
      Fresh → Option InboxMessage → Operation → String → Database → Result (WagerResult × Database)
  dispatch fresh (some m) op sum db = execute_inbox fresh m op sum (decide op) db
  dispatch fresh none op sum db = execute fresh op sum (decide op) db

-- `hash` is the hexadecimal SHA-256 of the JSON text, or the error of json.Marshal.
module _ ⦃iso : Currencies⦄ (hash : Canonical → Result String) where
  unfoldable pub process :
      Fresh → Option InboxMessage → Operation → Database → Result (WagerResult × Database)
  process fresh inbox op db = do
    fail_if (lacks_identity op || lacks_round op) invalid_input
    or_error (validate_operation op.kind op.money op.reference_external_transaction_id)
        invalid_input
    sum ← hash (canonical_operation op)
    dispatch fresh inbox op sum db

  -- `Fail`: the operation is recorded with the status FAILED.
  unfoldable pub fail_operation :
      Fresh → Operation → String → Database → Result (WagerResult × Database)
  fail_operation fresh op failure_code db = do
    fail_if (is_blank failure_code) invalid_input
    fail_if (lacks_identity op) invalid_input
    or_error (validate_operation op.kind op.money op.reference_external_transaction_id)
        invalid_input
    sum ← hash (canonical_operation op)
    execute fresh op sum (λ wallet ref now. (decision failed failure_code, wallet)) db

module _ ⦃iso : Currencies⦄ where
  dispatch-Sound :
      (fresh : Fresh) (inbox : Option InboxMessage) (op : Operation) (sum : String) (db : Database)
      {r : WagerResult × Database}
      → IsInt64 op.money.minor
      → SoundDatabase db
      → dispatch fresh inbox op sum db ≡ ok r
      → SoundDatabase r.1
  dispatch-Sound fresh (some m) op sum db amount sound h =
      execute_inbox-Sound fresh m op sum db amount sound h
  dispatch-Sound fresh none op sum db amount sound h = execute-Sound fresh op sum db amount sound h

  accepted :
      (op : Operation) {u : Unit {0}}
      → or_error
          (validate_operation op.kind op.money op.reference_external_transaction_id)
          invalid_input
        ≡ ok u
      → validate_operation op.kind op.money op.reference_external_transaction_id ≡ ok tt
  accepted op h = ground arith

  module _ (hash : Canonical → Result String) (fresh : Fresh) (inbox : Option InboxMessage)
      (op : Operation) (db : Database) where
    pub process_steps :
        {r : WagerResult × Database}
        → process hash fresh inbox op db ≡ ok r
        → ((lacks_identity op || lacks_round op) ≡ false)
          × (validate_operation op.kind op.money op.reference_external_transaction_id ≡ ok tt)
          × ((sum : String) × (dispatch fresh inbox op sum db ≡ ok r))
    unfolding process
    process_steps h =
        let (u, complete, h1) =
          >>=-eq-ok (fail_if (lacks_identity op || lacks_round op) invalid_input) _ h in
        let (v, valid_op, h2) =
          >>=-eq-ok
            (or_error (validate_operation op.kind op.money op.reference_external_transaction_id)
              invalid_input)
            _ h1 in
        let (sum, hashed, h3) = >>=-eq-ok (hash (canonical_operation op)) _ h2 in
        (
          fail_if-eq-ok (lacks_identity op || lacks_round op) invalid_input complete,
          accepted op valid_op,
          (sum, h3),
        )

    -- A request with an int64 amount that `process` answers, by HTTP or as a message, leaves a sound
    -- database sound, whatever the hash function.
    pub process-Sound :
        {r : WagerResult × Database}
        → IsInt64 op.money.minor
        → SoundDatabase db
        → process hash fresh inbox op db ≡ ok r
        → SoundDatabase r.1
    process-Sound amount sound h =
        let (_, _, (sum, done)) = process_steps h in
        dispatch-Sound fresh inbox op sum db amount sound done

  module _ (hash : Canonical → Result String) (fresh : Fresh) (op : Operation) (db : Database) where
    -- A request that `Fail` records as failed leaves a sound database sound.
    pub fail_operation-Sound :
        (failure_code : String) {r : WagerResult × Database}
        → IsInt64 op.money.minor
        → SoundDatabase db
        → fail_operation hash fresh op failure_code db ≡ ok r
        → SoundDatabase r.1
    unfolding fail_operation execute
    fail_operation-Sound failure_code amount sound h =
        let (u, coded, h1) = >>=-eq-ok (fail_if (is_blank failure_code) invalid_input) _ h in
        let (v, complete, h2) = >>=-eq-ok (fail_if (lacks_identity op) invalid_input) _ h1 in
        let (x, valid_op, h3) =
          >>=-eq-ok
            (or_error (validate_operation op.kind op.money op.reference_external_transaction_id)
              invalid_input)
            _ h2 in
        let (sum, hashed, h4) = >>=-eq-ok (hash (canonical_operation op)) _ h3 in
        execute_tx-Sound fresh "" op sum (λ wallet ref now. (decision failed failure_code, wallet))
          db (λ w ref now v f. ((refl, refl), f)) amount sound h4
