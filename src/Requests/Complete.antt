-- ===== src/Requests/Complete.antt =====
-- internal/usecases/wager.go: which requests `process` hands on to the store.
use apostas_api.Prelude.{
  ◌≡◌, ◌≢◌, ◌⊎◌, Bool, true, false, ◌||◌, Option, String, refl, inl, inr, Bool-cases, arith,
}
use apostas_api.Prelude.Eq.{◌==◌, nat_eq, eqb_iff}
use apostas_api.Result.{Result, ok, err, invalid_input, Result-cases, ◌>>=◌}
use apostas_api.Values.{Uuid, uuid_nil}
use apostas_api.Strings.{is_blank}
use apostas_api.Money.{Currencies, valid}
use apostas_api.Transaction.{validate_operation}
use apostas_api.Transaction.Operations.{Accepted, validate_operation_iff}
use apostas_api.Wager.{Operation}
use apostas_api.Database.{Database}
use apostas_api.Store.{Fresh, InboxMessage}
use apostas_api.Requests.{
  Canonical, canonical_operation, lacks_identity, lacks_round, dispatch, process,
}

abbrev pub Written : String → Type 0
Written s = is_blank s ≡ false

-- What a request must have.
pub record Complete ⦃iso : Currencies⦄ (op : Operation) : Type 0 where
  pub provider : Written op.provider_id
  pub external : Written op.external_transaction_id
  pub key : Written op.idempotency_key
  pub round : Written op.round_id
  pub game : Written op.game_id
  pub player : op.player_id ≢ uuid_nil
  pub wallet : op.wallet_id ≢ uuid_nil
  pub currency : valid op.money ≡ true
  pub accepted : Accepted op.kind op.money op.reference_external_transaction_id

not_nil : (id : Uuid) → (id == uuid_nil) ≡ false → id ≢ uuid_nil
not_nil id h e = cc (h, (eqb_iff id uuid_nil).1 e)

nil_not : (id : Uuid) → id ≢ uuid_nil → (id == uuid_nil) ≡ false
nil_not id h = ground (arith, eqb_iff id uuid_nil)

none_of :
    (a b c d e f g : Bool)
    → ((a || b || c || d || e) || (f || g)) ≡ false
    → (a ≡ false)
      × (b ≡ false)
      × (c ≡ false)
      × (d ≡ false)
      × (e ≡ false)
      × (f ≡ false)
      × (g ≡ false)
none_of a b c d e f g h = ground arith

module _ ⦃iso : Currencies⦄ (op : Operation) where
  guards-Complete :
      (lacks_identity op || lacks_round op) ≡ false
      → validate_operation op.kind op.money op.reference_external_transaction_id ≡ ok tt
      → Complete op
  guards-Complete h v =
      let (provider, external, key, player, wallet, round, game) =
        none_of (is_blank op.provider_id) (is_blank op.external_transaction_id)
          (is_blank op.idempotency_key) (op.player_id == uuid_nil) (op.wallet_id == uuid_nil)
          (is_blank op.round_id) (is_blank op.game_id) h in
      let (currency, accepted) =
        (validate_operation_iff op.kind op.money op.reference_external_transaction_id).0 v in
      record {
        provider = provider;
        external = external;
        key = key;
        round = round;
        game = game;
        player = not_nil op.player_id player;
        wallet = not_nil op.wallet_id wallet;
        currency = currency;
        accepted = accepted;
      }

  Complete-guards :
      Complete op
      → ((lacks_identity op || lacks_round op) ≡ false)
        × (validate_operation op.kind op.money op.reference_external_transaction_id ≡ ok tt)
  Complete-guards c = (
    rw
        (
          c.provider,
          c.external,
          c.key,
          nil_not op.player_id c.player,
          nil_not op.wallet_id c.wallet,
          c.round,
          c.game,
        )
        refl,
    (validate_operation_iff op.kind op.money op.reference_external_transaction_id).1
        (c.currency, c.accepted),
  )

  -- Exactly the complete requests go on: where the provider, the external identifier, the key, the
  -- round and the game are not blank, the player and the wallet are set, and the operation is in a
  -- valid currency and accepted by the table of its kind, `process` does what the store does with the
  -- hash of the canonical operation; every other request is refused as invalid input.
  pub process_decides :
      (hash : Canonical → Result String) (fresh : Fresh) (inbox : Option InboxMessage)
      (db : Database)
      → (Complete op
          × (process hash fresh inbox op db
              ≡ (hash (canonical_operation op) >>= λ sum. dispatch fresh inbox op sum db)))
        ⊎ ((Complete op → ⊥) × (process hash fresh inbox op db ≡ err invalid_input))
  unfolding process
  process_decides hash fresh inbox db = elim (Bool-cases (lacks_identity op || lacks_round op)) [
    | inl lacks ↦ inr (λ c. cc (lacks, (Complete-guards c).0), rw lacks refl)
    | inr whole ↦
        elim (Result-cases
          (validate_operation op.kind op.money op.reference_external_transaction_id)) [
            | inl (u, valid_op) ↦ inl (guards-Complete whole valid_op, rw (whole, valid_op) refl)
            | inr (e, refused) ↦
                inr (λ c. cc (refused, (Complete-guards c).1), rw (whole, refused) refl)
          ]
  ]
