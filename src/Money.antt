-- ===== src/Money.antt =====
-- internal/model/money.go: an amount of minor units in a currency. `currency.ParseISO` belongs to
-- golang.org/x/text and is the instance argument `Currencies`. Amount texts are bytes.
mod Defs
pub mod Text
pub mod RoundTrip
pub mod Arithmetic
pub mod Json
pub use Defs.{Currencies, Money, no_money, money_eq, money_beq, money_beq_iff}
unfoldable pub use Defs.{
  matches_currency, valid_currency, money_from_minor, zero_money, valid, is_positive, is_zero, add,
  negate, sub, compare,
}
