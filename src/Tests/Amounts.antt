-- ===== src/Tests/Amounts.antt =====
-- internal/model/money.go at concrete amounts.
use apostas_api.Prelude.{◌≡◌, ◌↔◌, true, arith, refl}
use apostas_api.Prelude.Int.{pos, negsuc}
use apostas_api.Prelude.Int64.{IsInt64}
use apostas_api.Result.{err, overflow}
use apostas_api.Money.{valid, matches_currency, valid_currency, add}
use apostas_api.Money.Arithmetic.{add_exact}
use apostas_api.Tests.{one_currency, reais}

fits_300 : IsInt64 (pos 300)
fits_300 = ground arith

fits_max : IsInt64 (pos 9223372036854775807)
fits_max = ground arith

fits_min : IsInt64 (negsuc 9223372036854775807)
fits_min = ground arith

pub valid-reais : valid (reais (pos 300)) ≡ true
unfolding valid_currency matches_currency
valid-reais = refl

-- The greatest int64 and one more.
add_exact_example : add (reais (pos 9223372036854775807)) (reais (pos 300)) ≡ err overflow
unfolding valid_currency matches_currency apostas_api.Prelude.Int.◌+ℤ◌
add_exact_example = add_exact (reais (pos 9223372036854775807)) (reais (pos 300)) fits_max fits_300
