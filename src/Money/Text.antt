-- ===== src/Money/Text.antt =====
-- `ParseMoney` and `Amount`: amounts of money as decimal texts with two fraction digits.
use apostas_api.Prelude.{
  Bool, true, false, not, ◌&&◌, ◌||◌, Option, none, some, [], ◌∷◌, ◌++◌, String, Bytes, leb, eqb,
  if◌then◌else◌, length,
}
use apostas_api.Prelude.Int.{ℤ, pos, quot, rem, ltb_ℤ}
use apostas_api.Prelude.Int64.{max_int64, add64, sub64, mul64}
use apostas_api.Prelude.Eq.{◌==◌, int_eq}
use apostas_api.Result.{Result, ok, err, overflow, invalid_money, fail_if, ◌>>◌, ◌>>=◌}
use apostas_api.Strconv.{is_digit, parse_int, format_int, format_int2}
use apostas_api.Money.Defs.{Currencies, Money, valid_currency, valid}

-- amountPattern, `^(0|[1-9][0-9]*)(\.[0-9]{1,2})?$`
unfoldable pub matches_fraction : Bytes → Bool
matches_fraction [] = true
matches_fraction (c ∷ d ∷ []) = eqb c b'.' && is_digit d
matches_fraction (c ∷ d ∷ e ∷ []) = eqb c b'.' && is_digit d && is_digit e
matches_fraction _ = false

unfoldable pub matches_rest : Bytes → Bool
unfolding matches_fraction
matches_rest [] = true
matches_rest (c ∷ s) = if is_digit c then matches_rest s else matches_fraction (c ∷ s)

unfoldable pub matches_amount : Bytes → Bool
unfolding matches_rest
matches_amount [] = false
matches_amount (c ∷ s) =
    if eqb c b'0' then matches_fraction s else leb b'1' c && leb c b'9' && matches_rest s

-- The loop over `amount` that cuts it at the first '.'; without one both parts stay empty.
unfoldable pub find_point : Bytes → Option (Bytes × Bytes)
find_point [] = none
find_point (c ∷ s) =
    if eqb c b'.'
    then some ([], s)
    else elim (find_point s) [ none ↦ none | some (whole, fraction) ↦ some (c ∷ whole, fraction) ]

abbrev pub parts_or_empty : Option (Bytes × Bytes) → Bytes × Bytes
parts_or_empty none = ([], [])
parts_or_empty (some parts) = parts

abbrev pub split_amount : Bytes → Bytes × Bytes
split_amount amount = parts_or_empty (find_point amount)

abbrev pub is_empty : Bytes → Bool
is_empty [] = true
is_empty (_ ∷ _) = false

-- `whole`, which is the whole text where there is no point.
abbrev pub whole_part : Bytes → Bytes
whole_part amount = let (whole, _) = split_amount amount in if is_empty whole then amount else whole

-- `fraction`, padded to two digits.
abbrev pub fraction_part : Bytes → Bytes
fraction_part amount =
    let (_, fraction) = split_amount amount in
    if eqb (length fraction) 1 then fraction ++ b'0' ∷ [] else fraction

abbrev pub value_or_zero : Option ℤ → ℤ
value_or_zero none = pos 0
value_or_zero (some f) = f

-- `f, _ = strconv.ParseInt(…)`: the error is dropped, which the two digits here never cause.
abbrev pub fraction_minor : Bytes → ℤ
fraction_minor [] = pos 0
fraction_minor (c ∷ s) = value_or_zero (parse_int (c ∷ s))

abbrev pub int_or_overflow : Option ℤ → Result ℤ
int_or_overflow none = err overflow
int_or_overflow (some w) = ok w

module _ ⦃iso : Currencies⦄ where
  unfoldable pub parse_money : Bytes → String → Result Money
  parse_money amount currency = do
    fail_if (not (valid_currency currency) || not (matches_amount amount)) invalid_money
    w ← int_or_overflow (parse_int (whole_part amount))
    fail_if (ltb_ℤ (quot max_int64 100) w) overflow
    let f = fraction_minor (fraction_part amount)
    fail_if (w == quot max_int64 100 && ltb_ℤ (rem max_int64 100) f) overflow
    ok (record { minor = add64 (mul64 w (pos 100)) f; currency = currency })

  -- `Amount`: the text with a '-' in front of a negative amount. Go's `/` and `%` truncate.
  unfoldable pub amount : Money → Result Bytes
  amount m = do
    fail_if (not (valid m)) invalid_money
    ok (
        if ltb_ℤ m.minor (pos 0)
        then b'-'
          ∷ (format_int (sub64 (pos 0) (quot m.minor 100))
              ++ b'.' ∷ format_int2 (sub64 (pos 0) (rem m.minor 100)))
        else format_int (quot m.minor 100) ++ b'.' ∷ format_int2 (rem m.minor 100))
