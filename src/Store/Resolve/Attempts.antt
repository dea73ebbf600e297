-- ===== src/Store/Resolve/Attempts.antt =====
-- internal/infra/postgres/store.go: the attempts that `ResolvePendingReference` makes, and the loop
-- of internal/worker/workers.go that repeats it until nothing is due.
use mathlib.Core.Path.{subst}
use apostas_api.Prelude.{
  ℕ, suc, ◌+◌, ◌-◌, ◌<◌, ◌≡◌, ◌⊎◌, Bool, true, false, Option, none, some, List, [], ◌∷◌, arith,
  refl, sym, ap, ◌∙◌, Bool-cases, Option-cases, inl, inr, leb, if◌then◌else◌, some-inj, or_eq_false,
}
use apostas_api.Prelude.Eq.{◌==◌, nat_eq, eqb_iff}
use apostas_api.Result.{Result, ok, err, other_error, >>=-eq-ok, ok-inj}
use apostas_api.Values.{Uuid, Time}
use apostas_api.Money.{Currencies}
use apostas_api.Wallet.{Wallet}
use apostas_api.Transaction.{
  Status, pending_reference, rejected, status_eq, status_beq_iff, is_terminal,
  rehydrate_transaction_state, transition, TransactionState,
}
use apostas_api.Transaction.Machine
use apostas_api.Transaction.Machine.{Outcome, ◌⟶◌, transition_sound}
use apostas_api.Wager.{Operation, Decision, decision, decide}
use apostas_api.Database.{TransactionRow, Database, exists, update}
use apostas_api.Database.Wallets.{has_id}
use apostas_api.Store.Rows.{Fresh, load_wallet}
use apostas_api.Store.Calls.{move_funds, reference_row, reference_of}
use apostas_api.Store.Replay.{move_funds-keeps, add_wager_event-keeps}
use apostas_api.Store.Resolve.{
  first_due, is_due, sooner, same_id, update_transaction, rescheduled, settled_row, settle,
  after_attempt, attempt, resolve_pending, operation_of, comes_first,
}

-- What a row may become in one attempt.
abbrev pub Turn : Time → TransactionRow → TransactionRow → Type 0
Turn now t t' =
    ((suc t.attempts < 10) × (t' ≡ rescheduled now t))
    ⊎ ((is_terminal t'.status ≡ true) × (t'.next_attempt_at ≡ none) × (t'.id ≡ t.id))

update_transaction-eq-ok :
    (t : TransactionRow) (db : Database) {db' : Database}
    → update_transaction t db ≡ ok db'
    → db'.transactions ≡ update (same_id t.id) (λ _. t) db.transactions
unfolding update_transaction
update_transaction-eq-ok t db h = ground arith

-- An outcome other than waiting is final.
target_final : {s t : Status} → s ⟶ t → (t == pending_reference) ≡ false → is_terminal t ≡ true
target_final (Machine.move o Machine.park) h = cc
target_final (Machine.move o Machine.accept) h = refl
target_final (Machine.move o Machine.reject) h = refl
target_final (Machine.move o Machine.fail) h = refl

module _ ⦃iso : Currencies⦄ (fresh : Fresh) (op : Operation) (t : TransactionRow)
    (db : Database) where
  settle-Turn :
      (d : Decision) (w : Wallet) {db' : Database}
      → (d.status == pending_reference) ≡ false
      → settle fresh op t d w db ≡ ok db'
      → (db'.transactions
          ≡ update (same_id t.id) (λ _. settled_row fresh.now d w t) db.transactions)
        × (is_terminal d.status ≡ true)
  unfolding settle rehydrate_transaction_state
  settle-Turn d w final h =
      let s : TransactionState = record { status = pending_reference } in
      let (s', reached, h2) = >>=-eq-ok (transition s d.status) _ h in
      let (updated, put, h3) =
        >>=-eq-ok (update_transaction (settled_row fresh.now d w t) db) _ h2 in
      let (moved, posted, told) =
        >>=-eq-ok (move_funds fresh "" op.wallet_id t.id op.money d w updated) _ h3 in
      let (kept, _) = move_funds-keeps fresh "" op.wallet_id t.id op.money d w updated posted in
      let (kept', _) = add_wager_event-keeps fresh "" _ _ _ _ _ _ moved told in
      (
        kept' ∙ kept ∙ update_transaction-eq-ok (settled_row fresh.now d w t) db put,
        target_final (transition_sound pending_reference d.status reached).0 final,
      )

  after_attempt-Turn :
      (d : Decision) (w : Wallet) {db' : Database}
      → after_attempt fresh op t (d, w) db ≡ ok db'
      → (t' : TransactionRow) × (db'.transactions ≡ update (same_id t.id) (λ _. t') db.transactions)
        × Turn fresh.now t t'
  unfolding after_attempt
  after_attempt-Turn d w h = elim (Bool-cases (d.status == pending_reference)) [
    | inl waits ↦ elim (Bool-cases (leb 10 (suc t.attempts))) [
      | inl last ↦
          let given_up : Decision = decision rejected "REFERENCE_NOT_FOUND" in
          let (rows, final) = settle-Turn given_up w refl (rw (waits, last) at h) in
          (settled_row fresh.now given_up w t, rows, inr (final, refl, refl))
      | inr again ↦ (
        rescheduled fresh.now t,
        update_transaction-eq-ok (rescheduled fresh.now t) db (rw (waits, again) at h),
        inl (ground arith, refl),
      )
    ]
    | inr settles ↦
        let (rows, final) = settle-Turn d w settles (rw settles at h) in
        (settled_row fresh.now d w t, rows, inr (final, refl, refl))
  ]

-- The rows that a query finds.
abbrev pub Among : TransactionRow → List TransactionRow → Type 0
Among t [] = ⊥
Among t (u ∷ us) = (t ≡ u) ⊎ Among t us

sooner-either :
    (t u : TransactionRow) (o : Option TransactionRow) → sooner t o ≡ u → (u ≡ t) ⊎ (o ≡ some u)
sooner-either t u none h = inl (sym h)
sooner-either t u (some v) h = elim (Bool-cases (comes_first t v)) [
  | inl first ↦ inl (sym (rw first at h))
  | inr later ↦ inr (ap some (rw later at h))
]

pub first_due-Among :
    (now : Time) (ts : List TransactionRow) (t : TransactionRow)
    → first_due now ts ≡ some t
    → Among t ts × (is_due now t ≡ true)
unfolding first_due
first_due-Among now [] t h = cc
first_due-Among now (u ∷ us) t h = elim (Bool-cases (is_due now u)) [
  | inl due ↦ elim (sooner-either u t (first_due now us) (some-inj (rw due at h))) [
    | inl is ↦ (inl is, rw is due)
    | inr later ↦ let (m, d) = first_due-Among now us t later in (inr m, d)
  ]
  | inr not_due ↦ let (m, d) = first_due-Among now us t (rw not_due at h) in (inr m, d)
]

-- The primary key.
abbrev pub UniqueIds : List TransactionRow → Type 0
UniqueIds [] = Unit {0}
UniqueIds (t ∷ ts) = (exists (same_id t.id) ts ≡ false) × UniqueIds ts

-- The attempts that a waiting row may still take: ten in all, and at least the one that gives up.
abbrev pub turns_left : TransactionRow → ℕ
turns_left t = if t.status == pending_reference then suc (9 - t.attempts) else 0

abbrev pub all_turns : List TransactionRow → ℕ
all_turns [] = 0
all_turns (t ∷ ts) = turns_left t + all_turns ts

final_not_waiting : (s : Status) → is_terminal s ≡ true → (s == pending_reference) ≡ false
final_not_waiting s h = ground arith

pub due_waits :
    (now : Time) (t : TransactionRow) → is_due now t ≡ true → t.status ≡ pending_reference
due_waits now t h = ground (arith, status_beq_iff t.status pending_reference)

Turn-turns_left :
    (now : Time) (t t' : TransactionRow)
    → t.status ≡ pending_reference
    → Turn now t t'
    → (turns_left t' < turns_left t) × (t'.id ≡ t.id)
Turn-turns_left now t t' waits (inl (few, is)) = rw is (rw waits (omega arith), refl)
Turn-turns_left now t t' waits (inr (final, _, id)) =
    (rw (final_not_waiting t'.status final, waits) (omega arith), id)

pub absent-Among :
    (id : Uuid) (t : TransactionRow) (ts : List TransactionRow)
    → exists (same_id id) ts ≡ false
    → Among t ts
    → (t.id == id) ≡ false
unfolding exists
absent-Among id t [] h m = absurd m
absent-Among id t (u ∷ us) h (inl is) = rw is (or_eq_false _ _ h).0
absent-Among id t (u ∷ us) h (inr m) = absent-Among id t us (or_eq_false _ _ h).1 m

apart_ids : (i j : Uuid) → (i == j) ≡ false → (j == i) ≡ false
apart_ids i j h = ground arith

module _ (t t' : TransactionRow) (same : t'.id ≡ t.id) where
  -- No row has the identifier, and nothing changes.
  update_absent :
      (ts : List TransactionRow)
      → exists (same_id t.id) ts ≡ false
      → update (same_id t.id) (λ _. t') ts ≡ ts
  unfolding exists update
  update_absent [] h = refl
  update_absent (u ∷ us) h = ground (arith, update_absent us)

  exists-update :
      (id : Uuid) (ts : List TransactionRow)
      → exists (same_id id) (update (same_id t.id) (λ _. t') ts) ≡ exists (same_id id) ts
  unfolding exists update
  exists-update id [] = refl
  exists-update id (u ∷ us) = ground (arith, exists-update id us)

  update-UniqueIds :
      (ts : List TransactionRow) → UniqueIds ts → UniqueIds (update (same_id t.id) (λ _. t') ts)
  unfolding update
  update-UniqueIds [] h = tt
  update-UniqueIds (u ∷ us) (apart, h) = elim (Bool-cases (u.id == t.id)) [
    | inl here ↦
        let id : t'.id ≡ u.id = same ∙ sym ((eqb_iff u.id t.id).0 here) in
        rw here ((rw id (exists-update u.id us ∙ apart)), update-UniqueIds us h)
    | inr elsewhere ↦ rw elsewhere (exists-update u.id us ∙ apart, update-UniqueIds us h)
  ]

  all_turns-update :
      (ts : List TransactionRow)
      → UniqueIds ts
      → Among t ts
      → turns_left t' < turns_left t
      → all_turns (update (same_id t.id) (λ _. t') ts) < all_turns ts
  unfolding update
  all_turns-update [] h m less = absurd m
  all_turns-update (u ∷ us) (apart, h) (inl is) less =
      subst
        (λ (x : TransactionRow).
          exists (same_id x.id) us ≡ false
          → all_turns (update (same_id t.id) (λ _. t') (x ∷ us)) < all_turns (x ∷ us))
        is
        (λ (alone : exists (same_id t.id) us ≡ false).
          rw ((eqb_iff t.id t.id).1 refl, update_absent us alone) (omega arith))
        apart
  all_turns-update (u ∷ us) (apart, h) (inr m) less =
      let other : (u.id == t.id) ≡ false = apart_ids t.id u.id (absent-Among u.id t us apart m) in
      rw other (omega (arith, all_turns-update us h m less))

module _ ⦃iso : Currencies⦄ where
  -- An attempt that succeeds replaces the row of the transaction and no other row of the table: it
  -- waits again with a count below ten, or has a final status and no further attempt.
  pub attempt-Turn :
      (fresh : Fresh) (t : TransactionRow) (db : Database) {db' : Database}
      → attempt fresh t db ≡ ok db'
      → (t' : TransactionRow) × (db'.transactions ≡ update (same_id t.id) (λ _. t') db.transactions)
        × Turn fresh.now t t'
  unfolding attempt
  attempt-Turn fresh t db h =
      let (op, read, h1) = >>=-eq-ok (operation_of t) _ h in
      let (w, taken, h2) =
        >>=-eq-ok
          (if exists (has_id op.wallet_id) db.wallets
            then load_wallet op.wallet_id db
            else err other_error)
          _ h1 in
      let (ref, referred, h3) =
        >>=-eq-ok
          (reference_of (reference_row op.provider_id op.reference_external_transaction_id db) db) _
          h2 in
      after_attempt-Turn fresh op t db (decide op w ref fresh.now).0 (decide op w ref fresh.now).1
        h3

  -- Progress of one call.
  pub resolve_pending-all_turns :
      (fresh : Fresh) (db : Database) {db' : Database}
      → UniqueIds db.transactions
      → resolve_pending fresh db ≡ ok (true, db')
      → (all_turns db'.transactions < all_turns db.transactions) × UniqueIds db'.transactions
  unfolding resolve_pending
  resolve_pending-all_turns fresh db {db'} unique h =
      elim (Option-cases (first_due fresh.db_now db.transactions)) [
        | inl idle ↦ cc (ap (λ (r : Result (Bool × Database)). r) (rw idle at h))
        | inr (t, due) ↦
            let (db1, done, is) = >>=-eq-ok (attempt fresh t db) _ (rw due at h) in
            let (t', rows, turn) = attempt-Turn fresh t db done in
            let (m, waits) = first_due-Among fresh.db_now db.transactions t due in
            let (less, id) = Turn-turns_left fresh.now t t' (due_waits fresh.db_now t waits) turn in
            let same : db1 ≡ db' = ap (λ (x : Bool × Database). x.1) (ok-inj is) in
            rw⁻¹ same (
              rw rows (
                all_turns-update t t' id db.transactions unique m less,
                update-UniqueIds t t' id db.transactions unique,
              ))
      ]
