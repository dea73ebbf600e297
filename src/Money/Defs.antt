-- ===== src/Money/Defs.antt =====
-- The type `Money` and its arithmetic (internal/model/money.go).
use apostas_api.Prelude.{
  ℕ, ◌≡◌, ◌↔◌, Bool, true, false, not, ◌&&◌, ◌||◌, String, [], ◌∷◌, Bytes, codes, leb, arith,
  if◌then◌else◌,
}
use apostas_api.Prelude.Int.{ℤ, pos, negsuc, ltb_ℤ}
use apostas_api.Prelude.Int64.{max_int64, min_int64, add64, sub64}
use apostas_api.Prelude.Eq.{Eq, ◌==◌, ◌!=◌, string_eq, int_eq, int_beq_iff}
use apostas_api.Result.{Result, ok, currency_mismatch, invalid_money, overflow, fail_if, ◌>>◌}
use text.Mathlib.TextEquality.{eq_iff}

-- `currency.ParseISO(code)` without an error.
pub record Currencies : Type 0 where
  pub parse_iso : String → Bool

pub record Money : Type 0 where
  pub minor : ℤ  -- int64
  pub currency : String

abbrev pub money_beq : Money → Money → Bool
money_beq m n = m.minor == n.minor && m.currency == n.currency

pub money_beq_iff : (m n : Money) → (money_beq m n ≡ true) ↔ (m ≡ n)
money_beq_iff m n = ground (arith, int_beq_iff m.minor n.minor, eq_iff m.currency n.currency)

-- Go's `==` on the struct.
instance abbrev pub money_eq : Eq Money
money_eq = record { same = money_beq; same_iff = money_beq_iff _ _ }

-- `Money{}`, the zero value: no currency.
abbrev pub no_money : Money
no_money = record { minor = pos 0; currency = "" }

abbrev is_upper : ℕ → Bool
is_upper c = leb b'A' c && leb c b'Z'

-- currencyPattern, `^[A-Z]{3}$`
abbrev matches_upper3 : Bytes → Bool
matches_upper3 (a ∷ b ∷ c ∷ []) = is_upper a && is_upper b && is_upper c
matches_upper3 _ = false

unfoldable pub matches_currency : String → Bool
matches_currency code = matches_upper3 (codes code)

module _ ⦃iso : Currencies⦄ where
  unfoldable pub valid_currency : String → Bool
  unfolding matches_currency
  valid_currency code = matches_currency code && iso.parse_iso code

  unfoldable pub money_from_minor : ℤ → String → Result Money
  money_from_minor minor currency = do
    fail_if (not (valid_currency currency)) invalid_money
    ok (record { minor = minor; currency = currency })

  unfoldable pub zero_money : String → Result Money
  unfolding money_from_minor
  zero_money currency = money_from_minor (pos 0) currency

  -- `Money.Valid`
  abbrev pub valid : Money → Bool
  valid m = valid_currency m.currency

  abbrev pub is_positive : Money → Bool
  is_positive m = valid m && ltb_ℤ (pos 0) m.minor

  abbrev pub is_zero : Money → Bool
  is_zero m = valid m && m.minor == pos 0

  unfoldable pub add : Money → Money → Result Money
  add m n = do
    fail_if (not (valid m) || not (valid n) || m.currency != n.currency) currency_mismatch
    fail_if
        (ltb_ℤ (pos 0) n.minor && ltb_ℤ (sub64 max_int64 n.minor) m.minor
          || ltb_ℤ n.minor (pos 0) && ltb_ℤ m.minor (sub64 min_int64 n.minor))
        overflow
    ok (record { minor = add64 m.minor n.minor; currency = m.currency })

  unfoldable pub negate : Money → Result Money
  negate m = do
    fail_if (not (valid m)) invalid_money
    fail_if (m.minor == min_int64) overflow
    ok (record { minor = sub64 (pos 0) m.minor; currency = m.currency })

  unfoldable pub sub : Money → Money → Result Money
  sub m n = do
    fail_if (not (valid m) || not (valid n) || m.currency != n.currency) currency_mismatch
    fail_if
        (ltb_ℤ (pos 0) n.minor && ltb_ℤ m.minor (add64 min_int64 n.minor)
          || ltb_ℤ n.minor (pos 0) && ltb_ℤ (add64 max_int64 n.minor) m.minor)
        overflow
    ok (record { minor = sub64 m.minor n.minor; currency = m.currency })

  unfoldable pub compare : Money → Money → Result ℤ
  compare m n = do
    fail_if (not (valid m) || not (valid n) || m.currency != n.currency) currency_mismatch
    ok (if ltb_ℤ m.minor n.minor then negsuc 0 else if ltb_ℤ n.minor m.minor then pos 1 else pos 0)
