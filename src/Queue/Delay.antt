-- ===== src/Queue/Delay.antt =====
-- internal/infra/queue/sqs.go: the delays before a message or an event is tried again.
use apostas_api.Prelude.{
  ℕ, zero, suc, ◌*◌, ◌/◌, ◌^◌, ◌≤◌, ◌≡◌, arith, refl, Bool-cases, inl, inr, ltb, true, false,
}
use apostas_api.Prelude.Int.{ℤ, pos, negsuc, ◌-ℤ◌, pos_part, ltb_ℤ}
use apostas_api.Queue.{second, minute, min_int, to_int32, retry_delay, visibility_seconds}

pow_double : (k : ℕ) → 2 ^ suc k ≡ 2 * 2 ^ k
pow_double k = omega arith

pow_pos : (k : ℕ) → 1 ≤ 2 ^ k
pow_pos zero = omega arith
pow_pos (suc k) = omega (arith, pow_double k, pow_pos k)

-- The powers of two that a delay may hold.
pow_bound : (k n : ℕ) → k ≤ n → 2 ^ k ≤ 2 ^ n
pow_bound zero n h = pow_pos n
pow_bound (suc k) zero h = absurd (omega arith)
pow_bound (suc k) (suc n) h = omega (arith, pow_double k, pow_double n, pow_bound k n (omega arith))

min_int-le : (a : ℤ) → pos_part (min_int a (pos 8)) ≤ 8
min_int-le a = ground arith

not_capped : (p : ℕ) → p ≤ 256 → ltb (5 * minute) (second * p) ≡ false
not_capped p h = ground arith

retry_delay-power : (a : ℤ) → (k : ℕ) × (k ≤ 8) × (retry_delay a ≡ second * 2 ^ k)
unfolding retry_delay
retry_delay-power a = elim (Bool-cases (ltb_ℤ a (pos 1))) [
  | inl low ↦ (0, omega arith, rw low refl)
  | inr counted ↦
      let k = pos_part (min_int (a -ℤ pos 1) (pos 8)) in
      let small : k ≤ 8 = min_int-le (a -ℤ pos 1) in
      (k, small, rw (counted, not_capped (2 ^ k) (pow_bound k 8 small)) refl)
]

-- Whatever the number of the attempt, the delay lies between one second and 256 seconds: the limit of
-- five minutes is never reached.
pub retry_delay_bounds : (a : ℤ) → (second ≤ retry_delay a) × (retry_delay a ≤ 256 * second)
retry_delay_bounds a =
    let (k, small, is) = retry_delay-power a in
    rw is (omega (arith, pow_pos k), omega (arith, pow_bound k 8 small))

early_shift : (a : ℤ) → ltb_ℤ a (pos 5) ≡ true → pos_part (min_int (a -ℤ pos 1) (pos 8)) ≤ 3
unfolding ◌-ℤ◌
early_shift (pos zero) h = omega arith
early_shift (pos (suc zero)) h = omega arith
early_shift (pos (suc (suc zero))) h = omega arith
early_shift (pos (suc (suc (suc zero)))) h = omega arith
early_shift (pos (suc (suc (suc (suc zero))))) h = omega arith
early_shift (pos (suc (suc (suc (suc (suc n)))))) h = ground arith
early_shift (negsuc n) h = ground arith

-- The delay before the fifth attempt.
pub retry_delay_early : (a : ℤ) → ltb_ℤ a (pos 5) ≡ true → retry_delay a ≤ 8 * second
unfolding retry_delay
retry_delay_early a h = elim (Bool-cases (ltb_ℤ a (pos 1))) [
  | inl low ↦ rw low (omega arith)
  | inr counted ↦
      let k = pos_part (min_int (a -ℤ pos 1) (pos 8)) in
      let small : k ≤ 3 = early_shift a h in
      let bound : 2 ^ k ≤ 256 = pow_bound k 8 (omega arith) in
      rw (counted, not_capped (2 ^ k) bound) (omega (arith, pow_bound k 3 small))
]

small_int32 : (p : ℕ) → p ≤ 256 → to_int32 p ≡ pos p
small_int32 p h = ground arith

small_visibility : (p : ℕ) → p ≤ 256 → visibility_seconds (second * p) ≡ pos p
unfolding visibility_seconds
small_visibility p h =
    let whole : second * p / second ≡ p = omega arith in rw (whole, small_int32 p h) (ground arith)

whole_seconds : (p : ℕ) → p ≤ 256 → pos_part (visibility_seconds (second * p)) * second ≡ second * p
whole_seconds p h = rw (small_visibility p h) (omega arith)

-- A message that is to be tried again becomes visible after exactly the retry delay: it is a whole
-- number of seconds, and neither bound of the timeout cuts it.
pub visibility_seconds-retry_delay :
    (a : ℤ) → pos_part (visibility_seconds (retry_delay a)) * second ≡ retry_delay a
visibility_seconds-retry_delay a =
    let (k, small, is) = retry_delay-power a in rw is (whole_seconds (2 ^ k) (pow_bound k 8 small))
