-- ===== src/Strconv.antt =====
-- What the program uses of Go's strconv and fmt: `ParseInt(s, 10, 64)`, `%d` and `%02d`.
pub mod Digits
use apostas_api.Prelude.{
  ℕ, zero, suc, ◌+◌, ◌-◌, ◌*◌, ◌/◌, ◌%◌, ◌^◌, ◌≡◌, refl, Bool, ◌&&◌, Option, none, some, [], ◌∷◌,
  Bytes, codes, leb, ltb, eqb, if◌then◌else◌,
}
use apostas_api.Prelude.Int.{ℤ, pos, negsuc, sub_ℕ}

abbrev pub is_digit : ℕ → Bool
is_digit c = leb b'0' c && leb c b'9'

unfoldable pub parse_digits : Bytes → ℕ → Option ℕ
parse_digits [] n = some n
parse_digits (c ∷ s) n = if is_digit c then parse_digits s (n * 10 + (c - b'0')) else none

abbrev magnitude : Bytes → Option ℕ
magnitude [] = none
magnitude (c ∷ s) = parse_digits (c ∷ s) 0

abbrev positive : Option ℕ → Option ℤ
positive none = none
positive (some n) = if ltb n (2 ^ 63) then some (pos n) else none

abbrev negative : Option ℕ → Option ℤ
negative none = none
negative (some n) = if leb n (2 ^ 63) then some (sub_ℕ 0 n) else none

-- `strconv.ParseInt(s, 10, 64)`; `none` is a syntax or range error.
unfoldable pub parse_int : Bytes → Option ℤ
unfolding parse_digits
parse_int [] = none
parse_int (c ∷ s) =
    if eqb c b'-'
    then negative (magnitude s)
    else if eqb c b'+'
    then positive (magnitude s)
    else positive (magnitude (c ∷ s))

-- The digits of `n` in front of `out`; `fuel ≥ n` is enough.
unfoldable pub emit : ℕ → ℕ → Bytes → Bytes
emit zero n out = out
emit (suc f) n out =
    let more = emit f (n / 10) ((b'0' + n % 10) ∷ out) in if eqb n 0 then out else more

unfoldable pub format_nat : ℕ → Bytes
unfolding emit
format_nat n = if eqb n 0 then b'0' ∷ [] else emit n n []

-- `%d`
unfoldable pub format_int : ℤ → Bytes
unfolding format_nat
format_int (pos n) = format_nat n
format_int (negsuc n) = b'-' ∷ format_nat (suc n)

-- `%02d`
unfoldable pub format_int2 : ℤ → Bytes
unfolding format_int
format_int2 (pos n) = if ltb n 10 then b'0' ∷ format_nat n else format_nat n
format_int2 (negsuc n) = format_int (negsuc n)

format_int_test : format_int (negsuc 1233) ≡ codes "-1234"
unfolding format_int
format_int_test = refl

parse_int_test : parse_int (codes "9223372036854775808") ≡ none
unfolding parse_int
parse_int_test = refl

parse_int_min_test : parse_int (codes "-9223372036854775808") ≡ some (negsuc 9223372036854775807)
unfolding parse_int
parse_int_min_test = refl
