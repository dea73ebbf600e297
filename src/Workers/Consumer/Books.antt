-- ===== src/Workers/Consumer/Books.antt =====
-- internal/worker/workers.go: the balances and the ledger under the consumer.
use apostas_api.Prelude.{◌≡◌, Option, none, some, List, [], ◌∷◌, String, refl}
use apostas_api.Prelude.Int64.{IsInt64}
use apostas_api.Prelude.Eq.{string_eq}
use apostas_api.Result.{Error, Result, ok, err}
use apostas_api.Money.{Currencies}
use apostas_api.Wager.{Operation}
use apostas_api.Database.{Database}
use apostas_api.Store.{Fresh, WagerResult, InboxMessage}
use apostas_api.Store.Ledger.{SoundDatabase}
use apostas_api.Requests.{Canonical, process, process-Sound, fail_operation, fail_operation-Sound}
use apostas_api.Queue.{Message}
use apostas_api.Workers.Consumer.Related.{
  Int64Codec, unless_down, Journey, RelatedResult, RelatedMoments, consume-Related,
}
use apostas_api.Workers.Consumer.{WagerProcessor, Codec, Moment, consume}

-- The result of a call leaves a sound database.
abbrev pub SoundResult : Result (WagerResult × Database) → Type 0
SoundResult (ok (r, db)) = SoundDatabase db
SoundResult (err e) = Unit {0}

-- What the consumer asks of the use case: a call with an int64 amount that succeeds leaves a sound
-- database sound.
pub record SoundProcessor (p : WagerProcessor) : Type 0 where
  pub processes :
      (m : InboxMessage) (op : Operation) (db : Database)
      → IsInt64 op.money.minor
      → SoundDatabase db
      → SoundResult (p.process_inbox m op db)
  pub fails :
      (op : Operation) (code : String) (db : Database)
      → IsInt64 op.money.minor
      → SoundDatabase db
      → SoundResult (p.fail op code db)

abbrev pub SoundMoments : List (Moment × Message) → Type 0
SoundMoments [] = Unit {0}
SoundMoments ((m, message) ∷ rest) = SoundProcessor m.wager × SoundMoments rest

all-SoundResult :
    (r : Result (WagerResult × Database))
    → ((x : WagerResult × Database) → r ≡ ok x → SoundDatabase x.1)
    → SoundResult r
all-SoundResult (ok (r, db)) h = h (r, db) refl
all-SoundResult (err e) h = tt

unless_down-SoundResult :
    (e : Option Error) (r : Result (WagerResult × Database))
    → SoundResult r
    → SoundResult (unless_down e r)
unless_down-SoundResult none r h = h
unless_down-SoundResult (some e) r h = tt

module _ ⦃iso : Currencies⦄ (hash : Canonical → Result String) where
  -- The wager use case as the consumer's processor: the new identifiers and clocks of the two calls,
  -- and an error of the driver.
  abbrev pub wager_processor : Fresh → Fresh → Option Error → WagerProcessor
  wager_processor fresh fresh' down = record {
    process_inbox = λ m op db. unless_down down (process hash fresh (some m) op db);
    fail = λ op code db. unless_down down (fail_operation hash fresh' op code db);
  }

  -- The wager use case keeps what the consumer asks for: every successful call with an int64 amount,
  -- by `ProcessInbox` or by `Fail`, leaves a sound database sound, also where the driver fails.
  pub wager_processor-SoundProcessor :
      (fresh fresh' : Fresh) (down : Option Error)
      → SoundProcessor (wager_processor fresh fresh' down)
  wager_processor-SoundProcessor fresh fresh' down = record {
    processes = λ m op db amount sound.
        unless_down-SoundResult down _
          (all-SoundResult _ (λ x h. process-Sound hash fresh (some m) op db amount sound h));
    fails = λ op code db amount sound.
        unless_down-SoundResult down _
          (all-SoundResult _ (λ x h. fail_operation-Sound hash fresh' op db code amount sound h));
  }

-- Sound as long as it was sound before.
abbrev KeepsSound : Database → Database → Type 0
KeepsSound db db' = SoundDatabase db → SoundDatabase db'

sound_journey : Journey KeepsSound
sound_journey = record { stays = λ db h. h; joins = λ a b c f g h. g (f h) }

related_result :
    (db : Database) (r : Result (WagerResult × Database))
    → (SoundDatabase db → SoundResult r)
    → RelatedResult (KeepsSound db) r
related_result db (ok (r, db')) h = h
related_result db (err e) h = tt

related_moments :
    (messages : List (Moment × Message))
    → SoundMoments messages
    → RelatedMoments KeepsSound messages
related_moments [] h = tt
related_moments ((m, message) ∷ rest) (keep, keeps) = (
  record {
    processes = λ i op db amount. related_result db _ (keep.processes i op db amount);
    fails = λ op code db amount. related_result db _ (keep.fails op code db amount);
  },
  related_moments rest keeps,
)

module _ (c : Codec) (int64 : Int64Codec c) where
  -- Where a decoded amount is an int64, and each message meets a wager use case that leaves a sound
  -- database sound: the messages of one receive, well formed or not, answered, refused, recorded as
  -- failed or cancelled, leave a sound database sound.
  pub consume-Sound :
      (messages : List (Moment × Message)) (db : Database)
      → SoundMoments messages
      → SoundDatabase db
      → SoundDatabase (consume c messages db).1
  consume-Sound messages db keeps sound =
      consume-Related c int64 KeepsSound sound_journey messages db (related_moments messages keeps)
        sound
