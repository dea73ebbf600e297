-- ===== src/Money/RoundTrip.antt =====
-- internal/model/money.go: `ParseMoney` after `Amount`.
use apostas_api.Prelude.{
  ℕ, ◌+◌, ◌*◌, ◌/◌, ◌%◌, ◌<◌, ◌≡◌, refl, true, false, ◌&&◌, some, [], ◌∷◌, ◌++◌, String, arith,
  Bytes, if◌then◌else◌,
}
use apostas_api.Prelude.Int.{ℤ, pos, negsuc, quot, rem, ltb_ℤ, ◌≤ℤ◌}
use apostas_api.Prelude.Int64.{max_int64, add64, mul64, mul64_pos, add64_pos}
use apostas_api.Result.{Result, ok, ◌>>=◌, ◌>>◌, fail_if, overflow}
use apostas_api.Prelude.Eq.{◌==◌, int_eq}
use apostas_api.Strconv.{parse_int, format_nat, format_int}
use apostas_api.Strconv.Digits.{
  is_decimal, all_digits, all_digits_of_decimal, is_decimal-format_nat, parse_int-format_nat,
  format_int2_two,
}
use apostas_api.Money.Defs.{Currencies, Money, valid_currency, valid}
use apostas_api.Money.Text.{
  matches_fraction, matches_rest, matches_amount, find_point, is_empty, whole_part, fraction_part,
  parse_money, amount,
}

matches_rest-append :
    (s t : Bytes) → all_digits s ≡ true → matches_rest (s ++ b'.' ∷ t) ≡ matches_fraction (b'.' ∷ t)
unfolding matches_rest
matches_rest-append [] t h = refl
matches_rest-append (c ∷ s) t h = ground (arith, matches_rest-append s t)

matches_amount-append :
    (s t : Bytes)
    → is_decimal s ≡ true
    → matches_fraction (b'.' ∷ t) ≡ true
    → matches_amount (s ++ b'.' ∷ t) ≡ true
unfolding matches_amount
matches_amount-append [] t h f = cc
matches_amount-append (c ∷ []) t h f = ground (arith, matches_rest-append [] t)
matches_amount-append (c ∷ d ∷ s) t h f = ground (arith, matches_rest-append (d ∷ s) t)

find_point-append : (s t : Bytes) → all_digits s ≡ true → find_point (s ++ b'.' ∷ t) ≡ some (s, t)
unfolding find_point
find_point-append [] t h = refl
find_point-append (c ∷ s) t h = ground (arith, find_point-append s t)

decimal_not_empty : (s t : Bytes) → is_decimal s ≡ true → (if is_empty s then t else s) ≡ s
decimal_not_empty [] t h = cc
decimal_not_empty (c ∷ s) t h = refl

-- A whole part `s` and two fraction digits.
module _ (s : Bytes) (d e : ℕ) (dec : is_decimal s ≡ true) where
  abbrev text : Bytes
  text = s ++ b'.' ∷ (b'0' + d) ∷ (b'0' + e) ∷ []

  matches_text : d < 10 → e < 10 → matches_amount text ≡ true
  unfolding matches_fraction
  matches_text hd he = matches_amount-append s ((b'0' + d) ∷ (b'0' + e) ∷ []) dec (ground arith)

  find_point-text : find_point text ≡ some (s, (b'0' + d) ∷ (b'0' + e) ∷ [])
  find_point-text = find_point-append s _ (all_digits_of_decimal s dec)

  whole_text : whole_part text ≡ s
  whole_text = rw find_point-text (decimal_not_empty s text dec)

  fraction_text : fraction_part text ≡ (b'0' + d) ∷ (b'0' + e) ∷ []
  fraction_text = rw find_point-text

parse_int_two :
    (d e : ℕ) → d < 10 → e < 10 → parse_int ((b'0' + d) ∷ (b'0' + e) ∷ []) ≡ some (pos (10 * d + e))
unfolding parse_int
parse_int_two d e hd he = ground arith

-- The text that `Amount` writes of a non-negative amount.
abbrev pub decimal_text : ℕ → Bytes
decimal_text k = format_nat (k / 100) ++ b'.' ∷ (b'0' + k % 100 / 10) ∷ (b'0' + k % 100 % 10) ∷ []

nonneg_test : (k : ℕ) → ltb_ℤ (pos k) (pos 0) ≡ false
nonneg_test k = ground arith

format_int-pos : (n : ℕ) → format_int (pos n) ≡ format_nat n
unfolding format_int
format_int-pos n = refl

-- The checks and the sum after both parts are read.
abbrev join_parts : ℕ → ℕ → String → Result Money
join_parts w f c = do
  fail_if (ltb_ℤ (quot max_int64 100) (pos w)) overflow
  fail_if (pos w == quot max_int64 100 && ltb_ℤ (rem max_int64 100) (pos f)) overflow
  ok (record { minor = add64 (mul64 (pos w) (pos 100)) (pos f); currency = c })

join_parts_exact :
    (w f k : ℕ) (c : String)
    → f < 100
    → w * 100 + f ≡ k
    → pos k ≤ℤ max_int64
    → join_parts w f c ≡ ok (record { minor = pos k; currency = c })
unfolding quot rem
join_parts_exact w f k c hf sum h = ground (arith, mul64_pos w 100, add64_pos (w * 100) f, sum)

module _ ⦃iso : Currencies⦄ where
  pub amount_nonneg :
      (k : ℕ) (c : String)
      → valid_currency c ≡ true
      → amount (record { minor = pos k; currency = c }) ≡ ok (decimal_text k)
  unfolding amount quot rem
  amount_nonneg k c v =
      rw (v, nonneg_test k, format_int-pos (k / 100), format_int2_two (k % 100) (omega arith))

  pub parse_money-text :
      (k : ℕ) (c : String)
      → valid_currency c ≡ true
      → pos k ≤ℤ max_int64
      → parse_money (decimal_text k) c ≡ ok (record { minor = pos k; currency = c })
  unfolding parse_money
  parse_money-text k c v h =
      let dec = is_decimal-format_nat (k / 100) in
      let d : ℕ = k % 100 / 10 in
      let e : ℕ = k % 100 % 10 in
      rw
        (
          v,
          matches_text (format_nat (k / 100)) d e dec (omega arith) (omega arith),
          whole_text (format_nat (k / 100)) d e dec,
          fraction_text (format_nat (k / 100)) d e dec,
          parse_int-format_nat (k / 100) (omega arith),
          parse_int_two d e (omega arith) (omega arith),
        )
        (join_parts_exact (k / 100) (10 * d + e) k c (omega arith) (omega arith) h)

  parse_money-amount_minor :
      (a : ℤ) (c : String)
      → valid_currency c ≡ true
      → pos 0 ≤ℤ a
      → a ≤ℤ max_int64
      → (amount (record { minor = a; currency = c }) >>= λ s. parse_money s c)
        ≡ ok (record { minor = a; currency = c })
  parse_money-amount_minor (pos k) c v lo hi = rw (amount_nonneg k c v) (parse_money-text k c v hi)
  parse_money-amount_minor (negsuc k) c v lo hi = absurd (omega arith)

  -- A non-negative int64 amount in a valid currency is written by `Amount` without an error, and
  -- `ParseMoney` reads that text back as the same amount.
  pub parse_money-amount :
      (m : Money)
      → valid m ≡ true
      → pos 0 ≤ℤ m.minor
      → m.minor ≤ℤ max_int64
      → (amount m >>= λ s. parse_money s m.currency) ≡ ok m
  parse_money-amount m v lo hi = parse_money-amount_minor m.minor m.currency v lo hi
