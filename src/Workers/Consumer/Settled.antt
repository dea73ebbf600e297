-- ===== src/Workers/Consumer/Settled.antt =====
-- internal/worker/workers.go: what becomes of a message that the consumer received.
use apostas_api.Prelude.{◌≡◌, Bool, true, false, List, [], ◌∷◌, ℕ, ◌≤◌, ◌*◌, ◌⊎◌}
use apostas_api.Prelude.Int.{pos, ltb_ℤ}
use apostas_api.Result.{Result, ok}
use apostas_api.Database.{Database}
use apostas_api.Store.{WagerResult}
use apostas_api.Queue.{Message, second}
use apostas_api.Workers.Consumer.{
  Codec, Moment, QueueCall, delete, dead_letter, change_visibility, answered, handle,
  record_permanent_failure, is_exhausted, Step,
}

-- Whether the calls delete a message, and hand one to the dead letter queue.
abbrev pub deletes : List QueueCall → Bool
deletes [] = false
deletes (delete _ ∷ rest) = true
deletes (_ ∷ rest) = deletes rest

abbrev pub Buried : Message → List QueueCall → Type 0
Buried message [] = ⊥
Buried message (dead_letter x ∷ rest) = (x ≡ message) ⊎ Buried message rest
Buried message (_ ∷ rest) = Buried message rest

-- A message is accounted for by an answer, by a transaction recorded as failed, or by the dead letter
-- queue; or it stays in the queue.
pub data Accounted (c : Codec) (m : Moment) (message : Message) (db : Database) (s : Step)
    : Type 0 where
  by_answer :
      (r : WagerResult)
      → handle c m.wager message db ≡ answered r s.database
      → deletes s.calls ≡ true
      → Accounted c m message db s
  by_record :
      (r : WagerResult)
      → record_permanent_failure c m.wager message db ≡ ok (r, s.database)
      → is_exhausted message ≡ true
      → deletes s.calls ≡ true
      → Accounted c m message db s
  by_burial :
      Buried message s.calls
      → m.buries ≡ true
      → s.database ≡ db
      → deletes s.calls ≡ true
      → Accounted c m message db s
  left : s.database ≡ db → deletes s.calls ≡ false → Accounted c m message db s

module _ (c : Codec) (m : Moment) (message : Message) (db : Database) where
  -- Where a message may stand after its handling: deleted, refused by the dead letter queue and not
  -- touched, or received fewer than five times and hidden for one second at least and eight at most.
  abbrev pub Placed : List QueueCall → Type 0
  Placed calls =
      (deletes calls ≡ true)
      ⊎ ((calls ≡ dead_letter message ∷ []) × (m.buries ≡ false))
      ⊎ ((delay : ℕ) × (calls ≡ change_visibility message.receipt_handle delay ∷ [])
          × (ltb_ℤ message.receive_count (pos 5) ≡ true)
          × (second ≤ delay)
          × (delay ≤ 8 * second))
