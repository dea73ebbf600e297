-- ===== src/Workers/Consumer/Related.antt =====
-- internal/worker/workers.go: what the consumer does to the database is what its calls of the wager
-- use case do, one after the other.
use mathlib.Core.Path.{subst}
use apostas_api.Prelude.{
  sym, arith, ◌≡◌, not, ◌&&◌, Bool-cases, Option, none, some, List, [], ◌∷◌, String, inl, inr, refl,
  ◌||◌,
}
use apostas_api.Prelude.Int64.{IsInt64}
use apostas_api.Prelude.Eq.{◌==◌, ◌!=◌, string_eq}
use apostas_api.Result.{Error, Result, ok, err}
use apostas_api.Wager.{Operation}
use apostas_api.Database.{Database}
use apostas_api.Store.{WagerResult, InboxMessage}
use apostas_api.Queue.{Message}
use apostas_api.Workers.Consumer.{
  WagerProcessor, QueueCall, Envelope, Codec, Moment, Failure, Handled, answered, failing,
  event_type, handled, handle_request, handle_envelope, handle, fail_request, fail_envelope,
  record_permanent_failure, is_poison, is_exhausted, Step, bury_or_retry, after_record,
  after_failure, after_handle, consume_message, then_messages, consume,
}

-- A decoded amount is an int64, as the field's type says.
abbrev pub Int64Codec : Codec → Type 0
Int64Codec c =
    (text : String) (op : Operation) (key : String)
    → c.request text ≡ some (op, key)
    → IsInt64 op.money.minor

-- The result of a call leaves a related database.
abbrev pub RelatedResult : (Database → Type 0) → Result (WagerResult × Database) → Type 0
RelatedResult R (ok (r, db)) = R db
RelatedResult R (err e) = Unit {0}

abbrev RelatedHandled : (Database → Type 0) → Handled → Type 0
RelatedHandled R (answered r db) = R db
RelatedHandled R (failing e) = Unit {0}

-- A relation of the databases before and after: reflexive and transitive.
pub record Journey (R : Database → Database → Type 0) : Type 0 where
  pub stays : (db : Database) → R db db
  pub joins : (a b c : Database) → R a b → R b c → R a c

-- Both calls of the use case, with an int64 amount, keep to the relation where they succeed.
pub record RelatedProcessor (R : Database → Database → Type 0) (p : WagerProcessor) : Type 0 where
  pub processes :
      (m : InboxMessage) (op : Operation) (db : Database)
      → IsInt64 op.money.minor
      → RelatedResult (R db) (p.process_inbox m op db)
  pub fails :
      (op : Operation) (code : String) (db : Database)
      → IsInt64 op.money.minor
      → RelatedResult (R db) (p.fail op code db)

abbrev pub RelatedMoments : (Database → Database → Type 0) → List (Moment × Message) → Type 0
RelatedMoments R [] = Unit {0}
RelatedMoments R ((m, message) ∷ rest) = RelatedProcessor R m.wager × RelatedMoments R rest

-- An error of the driver rolls the call back.
abbrev pub unless_down :
    Option Error → Result (WagerResult × Database) → Result (WagerResult × Database)
unless_down none r = r
unless_down (some e) r = err e

pub unless_down-RelatedResult :
    (R : Database → Type 0) (e : Option Error) (r : Result (WagerResult × Database))
    → ((x : WagerResult × Database) → r ≡ ok x → R x.1)
    → RelatedResult R (unless_down e r)
unless_down-RelatedResult R none (ok (r, db)) h = h (r, db) refl
unless_down-RelatedResult R none (err x) h = tt
unless_down-RelatedResult R (some e) r h = tt

handled-RelatedHandled :
    (R : Database → Type 0) (r : Result (WagerResult × Database))
    → RelatedResult R r
    → RelatedHandled R (handled r)
handled-RelatedHandled R (ok (r, db)) h = h
handled-RelatedHandled R (err e) h = tt

module _ (c : Codec) (int64 : Int64Codec c) (R : Database → Database → Type 0)
    (journey : Journey R) where
  module _ (p : WagerProcessor) (keeps : RelatedProcessor R p) (db : Database) where
    handle_request-Related :
        (e : Envelope) (body text : String) (o : Option (Operation × String))
        → c.request text ≡ o
        → RelatedHandled (R db) (handle_request c p e body o db)
    handle_request-Related e body text none is = tt
    handle_request-Related e body text (some (op, key)) is =
        handled-RelatedHandled (R db) _ (keeps.processes _ _ db (int64 text op key is))

    handle_envelope-Related :
        (body : String) (o : Option Envelope)
        → RelatedHandled (R db) (handle_envelope c p body o db)
    handle_envelope-Related body none = tt
    handle_envelope-Related body (some e) =
        elim (Bool-cases (e.message_id == "" || e.kind != event_type)) [
          | inl bad ↦ rw bad tt
          | inr good ↦ rw good (handle_request-Related e body e.content (c.request e.content) refl)
        ]

    fail_request-Related :
        (text : String) (o : Option (Operation × String))
        → c.request text ≡ o
        → RelatedResult (R db) (fail_request p o db)
    fail_request-Related text none is = tt
    fail_request-Related text (some (op, key)) is = keeps.fails _ _ db (int64 text op key is)

    fail_envelope-Related :
        (o : Option (String × String)) → RelatedResult (R db) (fail_envelope c p o db)
    fail_envelope-Related none = tt
    fail_envelope-Related (some (kind, content)) = elim (Bool-cases (kind != event_type)) [
      | inl other ↦ rw other tt
      | inr same ↦ rw same (fail_request-Related content (c.request content) refl)
    ]

  module _ (m : Moment) (keeps : RelatedProcessor R m.wager) (message : Message)
      (db : Database) where
    bury_or_retry-database : (e : Failure) → (bury_or_retry m message e db).database ≡ db
    unfolding bury_or_retry
    bury_or_retry-database e = ground arith

    bury_or_retry-Related : (e : Failure) → R db (bury_or_retry m message e db).database
    bury_or_retry-Related e = subst (R db) (sym (bury_or_retry-database e)) (journey.stays db)

    after_record-Related :
        (r : Result (WagerResult × Database)) (e : Failure)
        → RelatedResult (R db) r
        → R db (after_record r m message e db).database
    after_record-Related (ok (r, db')) e h = h
    after_record-Related (err x) e h = bury_or_retry-Related e

    after_failure-Related : (e : Failure) → R db (after_failure c m message e db).database
    unfolding after_failure record_permanent_failure
    after_failure-Related e = elim (Bool-cases (is_exhausted message && not (is_poison e))) [
      | inl last ↦ simp last (
          after_record-Related (record_permanent_failure c m.wager message db) e
            (fail_envelope-Related m.wager keeps db (c.short_envelope message.body)))
      | inr more ↦ simp more (bury_or_retry-Related e)
    ]

    after_handle-Related :
        (h : Handled) → RelatedHandled (R db) h → R db (after_handle c m message h db).database
    after_handle-Related (answered r db') s = elim (Bool-cases m.cancelled) [
      | inl ends ↦ simp ends s
      | inr stays ↦ elim (Bool-cases m.stops) [
        | inl stops ↦ simp (stays, stops) s
        | inr runs ↦ simp (stays, runs) s
      ]
    ]
    after_handle-Related (failing e) s = elim (Bool-cases m.cancelled) [
      | inl ends ↦ simp ends (journey.stays db)
      | inr stays ↦ simp stays (after_failure-Related e)
    ]

    consume_message-Related : R db (consume_message c m message db).database
    unfolding consume_message handle
    consume_message-Related =
        after_handle-Related (handle c m.wager message db)
          (handle_envelope-Related m.wager keeps db message.body (c.envelope message.body))

  then_messages-Related :
      (db : Database) (s : Step) (rest : Database → List QueueCall × Database)
      → R db s.database
      → ((d : Database) → R d (rest d).1)
      → R db (then_messages s rest).1
  then_messages-Related db s rest first h = elim (Bool-cases s.goes_on) [
    | inl on ↦ simp on (journey.joins db s.database _ first (h s.database))
    | inr off ↦ simp off first
  ]

  pub consume-Related :
      (messages : List (Moment × Message)) (db : Database)
      → RelatedMoments R messages
      → R db (consume c messages db).1
  unfolding consume
  consume-Related [] db keeps = journey.stays db
  consume-Related ((m, message) ∷ rest) db (keep, keeps) =
      then_messages-Related db (consume_message c m message db) (λ db'. consume c rest db')
        (consume_message-Related m keep message db) (λ d. consume-Related rest d keeps)
