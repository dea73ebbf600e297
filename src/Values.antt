-- ===== src/Values.antt =====
-- uuid.UUID and time.Time, as far as the program looks at them: a UUID is a 128-bit number and
-- uuid.Nil is 0; a time is its distance from Go's zero time. No time lies before that.
use apostas_api.Prelude.{ℕ, Bool, ltb}
use apostas_api.Prelude.Eq.{◌==◌, nat_eq}

abbrev pub Uuid : Type 0
Uuid = ℕ

abbrev pub uuid_nil : Uuid
uuid_nil = 0

abbrev pub Time : Type 0
Time = ℕ

-- `t.IsZero()` and `t.Before(u)`
abbrev pub is_zero_time : Time → Bool
is_zero_time t = t == 0

abbrev pub before : Time → Time → Bool
before t u = ltb t u
