-- ===== src/Transaction/Machine.antt =====
-- The state machine of a transaction, as a diagram and as what `Transition` allows.
use apostas_api.Prelude.{◌≡◌, refl, ◌∙◌, ◌++◌, true, arith, List, [], ◌∷◌, inl, inr}
use apostas_api.Result.{Result, ok, err, terminal_transaction, Result-cases}
use apostas_api.Transaction.{
  Status, pending, pending_reference, processed, rejected, failed, TransactionState, is_terminal,
  transition,
}

-- A state that waits for its outcome, and a state that a transition may lead to.
pub data Open : Status → Type 0 where
  new : Open pending
  waits : Open pending_reference

pub data Outcome : Status → Type 0 where
  park : Outcome pending_reference
  accept : Outcome processed
  reject : Outcome rejected
  fail : Outcome failed

infix 40 ◌⟶◌ ◌⟶*◌
pub data ◌⟶◌ : Status → Status → Type 0 where
  move : {s t : Status} → Open s → Outcome t → s ⟶ t

pub data ◌⟶*◌ : Status → Status → Type 0 where
  here : {s : Status} → s ⟶* s
  next : {s t u : Status} → s ⟶ t → t ⟶* u → s ⟶* u

-- A transition that succeeds is an edge of the diagram and sets the new state.
pub transition_sound :
    (s : Status) (t : Status) {u : TransactionState}
    → transition (record { status = s }) t ≡ ok u
    → (s ⟶ t) × (u ≡ record { status = t })
unfolding transition
transition_sound s t h = grind (arith, move, new, waits, park, accept, reject, fail)

-- Every edge of the diagram is a transition that succeeds.
pub transition_complete :
    {s t : Status} → s ⟶ t → transition (record { status = s }) t ≡ ok (record { status = t })
unfolding transition
transition_complete (move new park) = refl
transition_complete (move new accept) = refl
transition_complete (move new reject) = refl
transition_complete (move new fail) = refl
transition_complete (move waits park) = refl
transition_complete (move waits accept) = refl
transition_complete (move waits reject) = refl
transition_complete (move waits fail) = refl

-- A processed, rejected or failed transaction stays as it is, whatever is asked for.
pub terminal_absorbs :
    (s t : Status)
    → is_terminal s ≡ true
    → transition (record { status = s }) t ≡ err terminal_transaction
unfolding transition
terminal_absorbs s t h = ground arith

-- The states of a transaction that is asked for one state after another; a refusal changes nothing.
abbrev pub or_stay : TransactionState → Result TransactionState → TransactionState
or_stay s (ok t) = t
or_stay s (err _) = s

unfoldable pub run_transitions : TransactionState → List Status → TransactionState
run_transitions s [] = s
run_transitions s (t ∷ ts) = run_transitions (or_stay s (transition s t)) ts

step-⟶* :
    (s : TransactionState) (t u : Status) → (or_stay s (transition s t)).status ⟶* u → s.status ⟶* u
step-⟶* s t u r = elim (Result-cases (transition s t)) [
  | inl (v, e) ↦ let (edge, set) = transition_sound s.status t e in next edge (rw (e, set) at r)
  | inr (x, e) ↦ rw e at r
]

-- Whatever states are asked for, one after another, the transaction follows the diagram.
pub run_transitions-⟶* :
    (s : TransactionState) (ts : List Status) → s.status ⟶* (run_transitions s ts).status
unfolding run_transitions
run_transitions-⟶* s [] = here
run_transitions-⟶* s (t ∷ ts) = step-⟶* s t _ (run_transitions-⟶* (or_stay s (transition s t)) ts)

stays :
    (s : TransactionState) (ts : List Status)
    → is_terminal s.status ≡ true
    → run_transitions s ts ≡ s
unfolding run_transitions
stays s [] h = refl
stays s (t ∷ ts) h = rw (terminal_absorbs s.status t h) (stays s ts h)

run_transitions-append :
    (s : TransactionState) (ts us : List Status)
    → run_transitions s (ts ++ us) ≡ run_transitions (run_transitions s ts) us
unfolding run_transitions
run_transitions-append s [] us = refl
run_transitions-append s (t ∷ ts) us = run_transitions-append (or_stay s (transition s t)) ts us

-- The three outcomes that end a transaction.
pub data Settled : Status → Type 0 where
  is_processed : Settled processed
  is_rejected : Settled rejected
  is_failed : Settled failed

Settled-is_terminal : (s : Status) → Settled s → is_terminal s ≡ true
Settled-is_terminal _ is_processed = refl
Settled-is_terminal _ is_rejected = refl
Settled-is_terminal _ is_failed = refl

-- The first outcome is final: once a transaction is processed, rejected or failed, no further
-- requests change its state.
pub outcome_final :
    (s : TransactionState) (ts us : List Status)
    → Settled (run_transitions s ts).status
    → run_transitions s (ts ++ us) ≡ run_transitions s ts
outcome_final s ts us h =
    let reached = run_transitions s ts in
    run_transitions-append s ts us ∙ stays reached us (Settled-is_terminal reached.status h)
