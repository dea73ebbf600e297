-- ===== src/Money/Arithmetic.antt =====
-- `Add`, `Sub`, `Negate` and `Compare` against the arithmetic of the unbounded integers.
use apostas_api.Prelude.{◌≡◌, ◌↔◌, Bool, true, not, ◌&&◌, ◌||◌, arith, if◌then◌else◌}
use text.Mathlib.TextEquality.{eq_iff}
use apostas_api.Prelude.Int.{ℤ, pos, ◌+ℤ◌, ◌-ℤ◌, ltb_ℤ, +ℤ_parts, -ℤ_parts, +ℤ_cancel, -ℤ_cancel}
use apostas_api.Prelude.Int64.{
  max_int64, min_int64, IsInt64, fits_int64, add64, sub64, add64_exact, sub64_exact,
}
use apostas_api.Prelude.Eq.{◌!=◌, string_eq}
use apostas_api.Result.{Result, ok, err, currency_mismatch, invalid_money, overflow}
use apostas_api.Money.Defs.{Currencies, Money, valid, add, negate, sub, compare}

-- A sum or a difference as a mathematician computes it, refused when an int64 cannot hold it.
abbrev pub in_currency : ℤ → Money → Result Money
in_currency a m =
    if fits_int64 a then ok (record { minor = a; currency = m.currency }) else err overflow

module _ ⦃iso : Currencies⦄ where
  abbrev pub same_currency : Money → Money → Bool
  same_currency m n = not (not (valid m) || not (valid n) || m.currency != n.currency)

  add_guard :
      (a b : ℤ)
      → IsInt64 a
      → IsInt64 b
      → (ltb_ℤ (pos 0) b && ltb_ℤ (sub64 max_int64 b) a
          || ltb_ℤ b (pos 0) && ltb_ℤ a (sub64 min_int64 b))
        ≡ not (fits_int64 (a +ℤ b))
  add_guard a b ha hb = ground (
    arith,
    sub64_exact max_int64 b,
    sub64_exact min_int64 b,
    -ℤ_parts max_int64 b,
    -ℤ_parts min_int64 b,
    +ℤ_parts a b,
  )

  sub_guard :
      (a b : ℤ)
      → IsInt64 a
      → IsInt64 b
      → (ltb_ℤ (pos 0) b && ltb_ℤ a (add64 min_int64 b)
          || ltb_ℤ b (pos 0) && ltb_ℤ (add64 max_int64 b) a)
        ≡ not (fits_int64 (a -ℤ b))
  sub_guard a b ha hb = ground (
    arith,
    add64_exact max_int64 b,
    add64_exact min_int64 b,
    +ℤ_parts max_int64 b,
    +ℤ_parts min_int64 b,
    -ℤ_parts a b,
  )

  -- On int64 amounts `Add` is addition of integers: it answers with the exact sum in the common
  -- currency if an int64 holds it, with the overflow error if not, and with the mismatch error
  -- if a currency is invalid or the two differ. The guards and the sum never wrap.
  pub add_exact :
      (m n : Money)
      → IsInt64 m.minor
      → IsInt64 n.minor
      → add m n
        ≡ (if same_currency m n then in_currency (m.minor +ℤ n.minor) m else err currency_mismatch)
  unfolding add
  add_exact m n hm hn =
      rw (add_guard m.minor n.minor hm hn) (ground (arith, add64_exact m.minor n.minor))

  -- On int64 amounts `Sub` is subtraction of integers: it answers with the exact difference in the
  -- common currency if an int64 holds it, with the overflow error if not, and with the mismatch
  -- error if a currency is invalid or the two differ.
  pub sub_exact :
      (m n : Money)
      → IsInt64 m.minor
      → IsInt64 n.minor
      → sub m n
        ≡ (if same_currency m n then in_currency (m.minor -ℤ n.minor) m else err currency_mismatch)
  unfolding sub
  sub_exact m n hm hn =
      rw (sub_guard m.minor n.minor hm hn) (ground (arith, sub64_exact m.minor n.minor))

  -- On int64 amounts `Negate` is negation of integers: refused as invalid in an invalid currency and
  -- as an overflow for the least int64.
  pub negate_exact :
      (m : Money)
      → IsInt64 m.minor
      → negate m ≡ (if valid m then in_currency (pos 0 -ℤ m.minor) m else err invalid_money)
  unfolding negate
  negate_exact m hm = ground (arith, sub64_exact (pos 0) m.minor, -ℤ_parts (pos 0) m.minor)

  -- What an accepted sum is.
  pub add-eq-ok :
      (m n : Money) {t : Money}
      → IsInt64 m.minor
      → IsInt64 n.minor
      → add m n ≡ ok t
      → (same_currency m n ≡ true)
        × (t.minor ≡ m.minor +ℤ n.minor)
        × (t.currency ≡ m.currency)
        × (fits_int64 (m.minor +ℤ n.minor) ≡ true)
  add-eq-ok m n hm hn h = ground (arith, add_exact m n hm hn)

  pub sub-eq-ok :
      (m n : Money) {t : Money}
      → IsInt64 m.minor
      → IsInt64 n.minor
      → sub m n ≡ ok t
      → (same_currency m n ≡ true)
        × (t.minor ≡ m.minor -ℤ n.minor)
        × (t.currency ≡ m.currency)
        × (fits_int64 (m.minor -ℤ n.minor) ≡ true)
  sub-eq-ok m n hm hn h = ground (arith, sub_exact m n hm hn)

  -- An accepted sum of two int64 amounts is taken back by `Sub`.
  pub sub-add_self :
      (m n : Money) {t : Money}
      → IsInt64 m.minor
      → IsInt64 n.minor
      → add m n ≡ ok t
      → sub t n ≡ ok m
  sub-add_self m n {t} hm hn h =
      let (same, sum, cur, fits) = add-eq-ok m n hm hn h in
      let undo : t.minor -ℤ n.minor ≡ m.minor = rw sum (+ℤ_cancel m.minor n.minor) in
      ground (arith, sub_exact t n, undo, same, cur, sum, fits)

  -- An accepted difference of two int64 amounts is taken back by `Add`.
  pub add-sub_self :
      (m n : Money) {t : Money}
      → IsInt64 m.minor
      → IsInt64 n.minor
      → sub m n ≡ ok t
      → add t n ≡ ok m
  add-sub_self m n {t} hm hn h =
      let (same, diff, cur, fits) = sub-eq-ok m n hm hn h in
      let undo : t.minor +ℤ n.minor ≡ m.minor = rw diff (-ℤ_cancel m.minor n.minor) in
      ground (arith, add_exact t n, undo, same, cur, diff, fits)

  -- For two amounts in one valid currency `Compare` answers 0 exactly if they are equal.
  pub compare-zero_iff :
      (m n : Money) → same_currency m n ≡ true → (compare m n ≡ ok (pos 0)) ↔ (m ≡ n)
  unfolding compare
  compare-zero_iff m n h = ground (arith, eq_iff m.currency n.currency)
