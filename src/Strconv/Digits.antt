-- ===== src/Strconv/Digits.antt =====
-- `%d` and then `ParseInt`.
use apostas_api.Prelude.{
  ℕ, zero, suc, ◌+◌, ◌/◌, ◌%◌, ◌^◌, ◌≤◌, ◌<◌, ◌≡◌, ◌≢◌, refl, Bool, true, ◌&&◌, ap, some, [], ◌∷◌,
  arith, Bool-cases, inl, inr, Bytes, leb, eqb,
}
use apostas_api.Prelude.Int.{pos}
use apostas_api.Prelude.Eq.{eqb_iff}
use apostas_api.Strconv.{is_digit, parse_digits, parse_int, emit, format_nat, format_int2}

abbrev pub all_digits : Bytes → Bool
all_digits [] = true
all_digits (c ∷ s) = is_digit c && all_digits s

-- A number as `%d` writes it: no leading zero but in "0" itself.
abbrev pub is_decimal : Bytes → Bool
is_decimal [] = Bool.false
is_decimal (c ∷ []) = is_digit c
is_decimal (c ∷ d ∷ s) = leb b'1' c && leb c b'9' && all_digits (d ∷ s)

parse_digits-emit :
    (f n : ℕ) (out : Bytes) → n ≤ f → parse_digits (emit f n out) 0 ≡ parse_digits out n
unfolding emit parse_digits
parse_digits-emit zero n out h = ground arith
parse_digits-emit (suc f) n out h =
    ground (arith, parse_digits-emit f (n / 10) ((b'0' + n % 10) ∷ out))

all_digits-emit : (f n : ℕ) (out : Bytes) → all_digits out ≡ true → all_digits (emit f n out) ≡ true
unfolding emit
all_digits-emit zero n out h = h
all_digits-emit (suc f) n out h = ground (arith, all_digits-emit f (n / 10) ((b'0' + n % 10) ∷ out))

emit-zero : (f : ℕ) (out : Bytes) → emit f 0 out ≡ out
unfolding emit
emit-zero zero out = refl
emit-zero (suc f) out = refl

is_decimal-cons :
    (n : ℕ) (out : Bytes)
    → n / 10 ≡ 0
    → n ≢ 0
    → all_digits out ≡ true
    → is_decimal ((b'0' + n % 10) ∷ out) ≡ true
is_decimal-cons n [] z p d = ground arith
is_decimal-cons n (c ∷ out) z p d = ground arith

is_decimal-emit :
    (f n : ℕ) (out : Bytes)
    → n ≤ f
    → n ≢ 0
    → all_digits out ≡ true
    → is_decimal (emit f n out) ≡ true
unfolding emit
is_decimal-emit zero n out h p d = absurd (p (omega arith))
is_decimal-emit (suc f) n out h p d = elim (Bool-cases (eqb (n / 10) 0)) [
  | inl last ↦ ground (
    arith,
    last,
    ap (λ m. emit f m ((b'0' + n % 10) ∷ out)) ((eqb_iff (n / 10) 0).0 last),
    emit-zero f ((b'0' + n % 10) ∷ out),
    is_decimal-cons n out,
  )
  | inr more ↦ ground (arith, more, is_decimal-emit f (n / 10) ((b'0' + n % 10) ∷ out))
]

pub parse_digits-format_nat : (n : ℕ) → parse_digits (format_nat n) 0 ≡ some n
unfolding format_nat parse_digits
parse_digits-format_nat n = ground (arith, parse_digits-emit n n [])

pub is_decimal-format_nat : (n : ℕ) → is_decimal (format_nat n) ≡ true
unfolding format_nat
is_decimal-format_nat n = ground (arith, is_decimal-emit n n [])

pub all_digits_of_decimal : (s : Bytes) → is_decimal s ≡ true → all_digits s ≡ true
all_digits_of_decimal [] h = refl
all_digits_of_decimal (c ∷ []) h = ground arith
all_digits_of_decimal (c ∷ d ∷ s) h = ground arith

emit-digit : (f n : ℕ) (out : Bytes) → n < 10 → n ≢ 0 → n ≤ f → emit f n out ≡ (b'0' + n) ∷ out
unfolding emit
emit-digit zero n out d p h = absurd (omega arith)
emit-digit (suc f) n out d p h = ground (
  arith,
  ap (λ m. emit f m ((b'0' + n % 10) ∷ out)) (div_zero n d),
  emit-zero f ((b'0' + n % 10) ∷ out),
)
  where
    div_zero : (n : ℕ) → n < 10 → n / 10 ≡ 0
    div_zero n d = omega arith

emit_two :
    (f n : ℕ) → n < 100 → 10 ≤ n → n ≤ f → emit f n [] ≡ (b'0' + n / 10) ∷ (b'0' + n % 10) ∷ []
unfolding emit
emit_two zero n d p h = absurd (omega arith)
emit_two (suc f) n d p h = ground (arith, emit-digit f (n / 10) ((b'0' + n % 10) ∷ []))

-- `%02d` of a number below 100 is its two digits.
pub format_int2_two :
    (n : ℕ) → n < 100 → format_int2 (pos n) ≡ (b'0' + n / 10) ∷ (b'0' + n % 10) ∷ []
unfolding format_int2
format_int2_two n h = ground (arith, emit_two n n, emit-digit n n [])

-- `ParseInt` reads a text of digits at its value, where an int64 holds it.
pub parse_int_digits :
    (s : Bytes) (n : ℕ)
    → is_decimal s ≡ true
    → parse_digits s 0 ≡ some n
    → n < 2 ^ 63
    → parse_int s ≡ some (pos n)
unfolding parse_int
parse_int_digits [] n d h lt = cc
parse_int_digits (c ∷ []) n d h lt = ground arith
parse_int_digits (c ∷ e ∷ s) n d h lt = ground arith

-- What `%d` writes of a non-negative int64, `ParseInt` reads back.
pub parse_int-format_nat : (n : ℕ) → n < 2 ^ 63 → parse_int (format_nat n) ≡ some (pos n)
parse_int-format_nat n h =
    parse_int_digits (format_nat n) n (is_decimal-format_nat n) (parse_digits-format_nat n) h
