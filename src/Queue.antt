-- ===== src/Queue.antt =====
-- internal/infra/queue/sqs.go: messages, the delay before a retry, and the bounds of a visibility
-- timeout. The queue itself is the AWS SDK's.
pub mod Delay
pub mod Client
use apostas_api.Prelude.{
  ℕ, ◌+◌, ◌-◌, ◌*◌, ◌/◌, ◌%◌, ◌^◌, Bool, true, false, String, if◌then◌else◌, ltb, ◌||◌,
}
use apostas_api.Prelude.Int.{ℤ, pos, ltb_ℤ, ◌-ℤ◌, pos_part}
use apostas_api.Prelude.Eq.{◌==◌, string_eq}

-- `time.Second` and `time.Minute`, in nanoseconds
abbrev pub second : ℕ
second = 1000000000

abbrev pub minute : ℕ
minute = 60000000000

pub record Message : Type 0 where
  pub id : String
  pub receipt_handle : String
  pub body : String
  pub receive_count : ℤ

-- `min`
abbrev pub min_int : ℤ → ℤ → ℤ
min_int a b = if ltb_ℤ a b then a else b

-- `RetryDelay`; the count of the shift is not negative.
unfoldable pub retry_delay : ℤ → ℕ
retry_delay attempt =
    if ltb_ℤ attempt (pos 1)
    then second
    else let delay = second * 2 ^ pos_part (min_int (attempt -ℤ pos 1) (pos 8)) in
      if ltb (5 * minute) delay then 5 * minute else delay

-- `int32(n)`, for a number that is not negative
abbrev pub to_int32 : ℕ → ℤ
to_int32 n = let low = n % 2 ^ 32 in if ltb low (2 ^ 31) then pos low else pos low -ℤ pos (2 ^ 32)

-- The seconds that `ChangeVisibility` asks for.
unfoldable pub visibility_seconds : ℕ → ℤ
visibility_seconds delay =
    let seconds = to_int32 (delay / second) in
    if ltb_ℤ seconds (pos 0)
    then pos 0
    else if ltb_ℤ (pos 43200) seconds
    then pos 43200
    else seconds
