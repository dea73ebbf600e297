-- ===== src/WagerTransaction/Transitions.antt =====
-- What `WagerTransaction.Transition` may change, and when it succeeds.
use apostas_api.Prelude.{
  ◌≡◌, ◌≢◌, inl, inr, ◌≤◌, Bool, true, false, not, ◌&&◌, ◌||◌, refl, String, arith, if◌then◌else◌,
}
use apostas_api.Prelude.Eq.{◌==◌, ◌!=◌, string_eq, nat_eq}
use apostas_api.Result.{ok, Result-cases}
use apostas_api.Values.{Uuid, Time}
use apostas_api.Money.{Currencies, Money, valid}
use apostas_api.Transaction.{
  Kind, opening, Status, pending, rejected, failed, is_state, kind_eq, kind_beq_iff, status_eq,
  rehydrate_transaction_state, transition,
}
use apostas_api.Transaction.Machine.{
  Outcome, park, accept, reject, fail, ◌⟶◌, move, transition_sound, transition_complete,
}
use apostas_api.WagerTransaction.{
  WagerTransactionData, WagerTransaction, bad_identity, bad_result, bad_failure, bad_texts,
  validate_opening, validate_wager, validate_wager_transaction, bad_balance, bad_code,
  bad_reference, transition_to,
}
use apostas_api.WagerTransaction.Validity.{Checked, validate-Checked, Checked-validate}

-- The data with an outcome.
abbrev pub settled :
    WagerTransactionData → Status → String → Money → Uuid → Time → WagerTransactionData
settled d s code balance ref now = record d {
  status = s;
  failure_code = code;
  result_balance = balance;
  reference_transaction_id = ref;
  updated_at = now;
}

not_opening : (k : Kind) → k ≢ opening → (k == opening) ≡ false
not_opening k h = ground (arith, kind_beq_iff k opening)

target : {s t : Status} → s ⟶ t → Outcome t
target (move o p) = p

Outcome-is_state : {s : Status} → Outcome s → is_state s ≡ true
Outcome-is_state park = refl
Outcome-is_state accept = refl
Outcome-is_state reject = refl
Outcome-is_state fail = refl

outcome_failure :
    {s : Status}
    → Outcome s
    → (code : String) → bad_code s code ≡ false
    → (if s == rejected || s == failed then code == "" else code != "") ≡ false
unfolding bad_code
outcome_failure park code h = ground arith
outcome_failure accept code h = ground arith
outcome_failure reject code h = ground arith
outcome_failure fail code h = ground arith

result_is_set : (s : Status) (v : Bool) → v ≡ true → (s != pending && not v) ≡ false
result_is_set s v h = ground arith

module _ ⦃iso : Currencies⦄ where
  bad_balance-time :
      (d : WagerTransactionData) (b : Money) (now : Time)
      → bad_balance d b now ≡ false
      → d.updated_at ≤ now
  unfolding bad_balance
  bad_balance-time d b now h = ground arith

  -- A transition that succeeds follows an edge of the diagram, sets the outcome's fields and no
  -- other, and leaves a transaction that is valid again.
  pub transition_to_sound :
      (t : WagerTransaction) (s : Status) (code : String) (balance : Money) (ref : Uuid)
      (now : Time) {t' : WagerTransaction}
      → transition_to t s code balance ref now ≡ ok t'
      → (t.fields.status ⟶ s)
        × (t' ≡ record { fields = settled t.fields s code balance ref now })
        × (validate_wager_transaction t'.fields ≡ ok tt)
        × (t.fields.updated_at ≤ now)
  unfolding transition_to rehydrate_transaction_state
  transition_to_sound t s code balance ref now h =
      elim (Result-cases (transition (record { status = t.fields.status }) s)) [
        | inl (u, e) ↦
            ground (
              arith,
              e,
              transition_sound t.fields.status s e,
              bad_balance-time t.fields balance now,
            )
        | inr (x, e) ↦ ground (arith, e)
      ]

  -- What the outcome's conditions say, for the data `d` and the values of its outcome.
  module _ (d : WagerTransactionData) (s : Status) (code : String) (balance : Money) (ref : Uuid)
      (now : Time) where
    settled_identity :
        bad_identity d ≡ false
        → bad_balance d balance now ≡ false
        → bad_identity (settled d s code balance ref now) ≡ false
    unfolding bad_identity bad_balance
    settled_identity h b = ground arith

    settled_result :
        bad_balance d balance now ≡ false → bad_result (settled d s code balance ref now) ≡ false
    unfolding bad_result bad_balance
    settled_result b = ground arith

    balance_valid : bad_balance d balance now ≡ false → valid balance ≡ true
    unfolding bad_balance
    balance_valid b = ground arith

    settled_failure :
        Outcome s → bad_code s code ≡ false → bad_failure (settled d s code balance ref now) ≡ false
    unfolding bad_failure
    settled_failure o h = outcome_failure o code h

    settled_rules :
        d.kind ≢ opening
        → (if d.kind == opening then validate_opening d else validate_wager d) ≡ ok tt
        → validate_wager (settled d s code balance ref now) ≡ ok tt
    unfolding bad_texts
    settled_rules k h = rw (not_opening d.kind k) at h

  -- A validated transaction that is no opening is valid with any outcome that meets the conditions.
  settled-Checked :
      (d : WagerTransactionData) (s : Status) (code : String) (balance : Money) (ref : Uuid)
      (now : Time)
      → Checked d
      → d.kind ≢ opening
      → Outcome s
      → bad_balance d balance now ≡ false
      → bad_code s code ≡ false
      → Checked (settled d s code balance ref now)
  settled-Checked d s code balance ref now c k o hb hc = record {
    identity = settled_identity d s code balance ref now c.identity hb;
    state = Outcome-is_state o;
    result = settled_result d s code balance ref now hb;
    result_set = result_is_set s (valid balance) (balance_valid d s code balance ref now hb);
    failure = settled_failure d s code balance ref now o hc;
    kind_rules = rw (not_opening d.kind k) (settled_rules d s code balance ref now k c.kind_rules);
  }

  -- A validated transaction that waits for its outcome takes every outcome whose balance is a
  -- valid one of its currency, not earlier than the last change, whose failure code is set exactly
  -- for a rejection or failure, and whose reference is set for a processed one only.
  pub transition_to_complete :
      (t : WagerTransaction) (s : Status) (code : String) (balance : Money) (ref : Uuid)
      (now : Time)
      → validate_wager_transaction t.fields ≡ ok tt
      → t.fields.kind ≢ opening
      → t.fields.status ⟶ s
      → bad_balance t.fields balance now ≡ false
      → bad_code s code ≡ false
      → bad_reference ref s ≡ false
      → transition_to t s code balance ref now
        ≡ ok (record { fields = settled t.fields s code balance ref now })
  unfolding transition_to rehydrate_transaction_state
  transition_to_complete t s code balance ref now v k edge hb hc hr =
      let c = validate-Checked t.fields v in
      rw (
        v,
        c.state,
        transition_complete edge,
        hb,
        hc,
        hr,
        Checked-validate _
            (settled-Checked t.fields s code balance ref now c k (target edge) hb hc),
      )
