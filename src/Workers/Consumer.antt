-- ===== src/Workers/Consumer.antt =====
-- internal/worker/workers.go: the input consumer, from the messages of one receive to the calls of
-- the queue. JSON and SHA-256 are Go's; metrics and logs are left out.
pub mod Settled
pub mod Related
pub mod Books
use apostas_api.Prelude.{
  ℕ, Bool, true, false, not, ◌&&◌, ◌||◌, Option, none, some, List, [], ◌∷◌, ◌++◌, String,
  if◌then◌else◌,
}
use apostas_api.Prelude.Int.{pos, ltb_ℤ}
use apostas_api.Prelude.Eq.{◌==◌, ◌!=◌, string_eq}
use apostas_api.Result.{Error, Result, ok, err, invalid_input, conflict, other_error}
use apostas_api.Wager.{Operation}
use apostas_api.Database.{Database}
use apostas_api.Store.{WagerResult, InboxMessage}
use apostas_api.Queue.{Message, retry_delay}

-- `wagerProcessor`, at one moment: what the two calls do with the database.
pub record WagerProcessor : Type 0 where
  pub process_inbox : InboxMessage → Operation → Database → Result (WagerResult × Database)
  pub fail : Operation → String → Database → Result (WagerResult × Database)

pub record Envelope : Type 0 where
  pub message_id : String
  pub kind : String
  pub content : String

-- `json.Unmarshal` of the two envelopes and of a request, where it succeeds, and the hexadecimal
-- SHA-256 of a body. The short envelope has no messageId.
pub record Codec : Type 0 where
  pub envelope : String → Option Envelope
  pub short_envelope : String → Option (String × String)
  pub request : String → Option (Operation × String)
  pub digest : String → String

-- What happens around a message: the wager use case at this time, whether the context is cancelled
-- by the end of `handle`, whether the dead letter queue takes the message, and whether the hook
-- `afterCommit` stops the consumer. In service there is no hook.
pub record Moment : Type 0 where
  pub wager : WagerProcessor
  pub cancelled : Bool
  pub buries : Bool
  pub stops : Bool

-- The calls of the queue.
pub data QueueCall : Type 0 where
  delete : String → QueueCall
  dead_letter : Message → QueueCall
  change_visibility : String → ℕ → QueueCall

-- The error of `handle`: errPermanentMessage, joined or not, or that of the use case.
pub data Failure : Type 0 where
  permanent : Failure
  refused : Error → Failure

pub data Handled : Type 0 where
  answered : WagerResult → Database → Handled
  failing : Failure → Handled

abbrev pub event_type : String
event_type = "WagerTransactionRequested"

abbrev pub consumer_name : String
consumer_name = "wager-transaction-consumer"

-- `request.Operation.IdempotencyKey = request.IdempotencyKey`
abbrev pub with_key : Operation × String → Operation
with_key (op, key) = record op { idempotency_key = key }

abbrev pub inbox_message : Codec → Envelope → String → InboxMessage
inbox_message c e body = record {
  consumer_name = consumer_name;
  message_id = e.message_id;
  payload_hash = c.digest body;
}

abbrev pub handled : Result (WagerResult × Database) → Handled
handled (ok (r, db)) = answered r db
handled (err e) = failing (refused e)

abbrev pub handle_request :
    Codec → WagerProcessor → Envelope → String → Option (Operation × String) → Database → Handled
handle_request c wager e body none db = failing permanent
handle_request c wager e body (some request) db =
    handled (wager.process_inbox (inbox_message c e body) (with_key request) db)

abbrev pub handle_envelope : Codec → WagerProcessor → String → Option Envelope → Database → Handled
handle_envelope c wager body none db = failing permanent
handle_envelope c wager body (some e) db =
    if e.message_id == "" || e.kind != event_type
    then failing permanent
    else handle_request c wager e body (c.request e.content) db

unfoldable pub handle : Codec → WagerProcessor → Message → Database → Handled
handle c wager message db = handle_envelope c wager message.body (c.envelope message.body) db

abbrev pub fail_request :
    WagerProcessor → Option (Operation × String) → Database → Result (WagerResult × Database)
fail_request wager none db = err other_error
fail_request wager (some request) db =
    wager.fail (with_key request) "PROCESSING_RETRIES_EXHAUSTED" db

abbrev pub fail_envelope :
    Codec → WagerProcessor → Option (String × String) → Database → Result (WagerResult × Database)
fail_envelope c wager none db = err other_error
fail_envelope c wager (some (kind, content)) db =
    if kind != event_type then err other_error else fail_request wager (c.request content) db

-- `recordPermanentFailure`; its caller asks only whether there is an error.
unfoldable pub record_permanent_failure :
    Codec → WagerProcessor → Message → Database → Result (WagerResult × Database)
record_permanent_failure c wager message db =
    fail_envelope c wager (c.short_envelope message.body) db

-- errPermanentMessage, ErrInvalidInput or ErrConflict
abbrev pub is_poison : Failure → Bool
is_poison permanent = true
is_poison (refused invalid_input) = true
is_poison (refused conflict) = true
is_poison (refused _) = false

-- `message.ReceiveCount >= 5`
abbrev pub is_exhausted : Message → Bool
is_exhausted message = not (ltb_ℤ message.receive_count (pos 5))

-- After one message: whether the consumer goes on, the calls of the queue, and the database.
pub record Step : Type 0 where
  pub goes_on : Bool
  pub calls : List QueueCall
  pub database : Database

abbrev pub going_on : List QueueCall → Database → Step
going_on calls db = record { goes_on = true; calls = calls; database = db }

abbrev pub returning : List QueueCall → Database → Step
returning calls db = record { goes_on = false; calls = calls; database = db }

-- The dead letter queue, or another try later.
unfoldable pub bury_or_retry : Moment → Message → Failure → Database → Step
bury_or_retry m message e db =
    if is_poison e || is_exhausted message
    then (if m.buries
        then going_on (dead_letter message ∷ delete message.receipt_handle ∷ []) db
        else going_on (dead_letter message ∷ []) db)
    else going_on
        (change_visibility message.receipt_handle (retry_delay message.receive_count) ∷ []) db

abbrev pub after_record :
    Result (WagerResult × Database) → Moment → Message → Failure → Database → Step
after_record (ok (r, db')) m message e db = going_on (delete message.receipt_handle ∷ []) db'
after_record (err _) m message e db = bury_or_retry m message e db

-- `if handleErr != nil { … }`
unfoldable pub after_failure : Codec → Moment → Message → Failure → Database → Step
after_failure c m message e db =
    if is_exhausted message && not (is_poison e)
    then after_record (record_permanent_failure c m.wager message db) m message e db
    else bury_or_retry m message e db

-- The rest of the loop's body, by the result of `handle`.
abbrev pub after_handle : Codec → Moment → Message → Handled → Database → Step
after_handle c m message (answered r db') db =
    if m.cancelled
    then returning (delete message.receipt_handle ∷ []) db'
    else if m.stops
    then returning [] db'
    else going_on (delete message.receipt_handle ∷ []) db'
after_handle c m message (failing e) db =
    if m.cancelled
    then returning (change_visibility message.receipt_handle 0 ∷ []) db
    else after_failure c m message e db

unfoldable pub consume_message : Codec → Moment → Message → Database → Step
consume_message c m message db = after_handle c m message (handle c m.wager message db) db

abbrev pub then_messages : Step → (Database → List QueueCall × Database) → List QueueCall × Database
then_messages s rest =
    if s.goes_on
    then (let (calls, db) = rest s.database in (s.calls ++ calls, db))
    else (s.calls, s.database)

-- `for _, message := range messages { … }`
unfoldable pub consume : Codec → List (Moment × Message) → Database → List QueueCall × Database
consume c [] db = ([], db)
consume c ((m, message) ∷ rest) db =
    then_messages (consume_message c m message db) (λ db'. consume c rest db')
