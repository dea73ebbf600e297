-- ===== src/Wallet/Laws.antt =====
-- internal/model/wallet.go: `Credit` and `Debit` against exact arithmetic.
use text.Mathlib.TextEquality.{eq_iff}
use apostas_api.Prelude.{
  ◌≤◌, ◌≡◌, ◌≢◌, refl, ◌∙◌, Bool, true, false, not, ◌&&◌, arith, if◌then◌else◌,
}
use apostas_api.Prelude.Int.{ℤ, pos, ◌+ℤ◌, ◌-ℤ◌, ◌≤ℤ◌, ◌<ℤ◌, leb_ℤ, +ℤ_parts, -ℤ_parts, +ℤ_cancel}
use apostas_api.Prelude.Int64.{max_int64, IsInt64, fits_int64, add64, add64_exact}
use apostas_api.Prelude.Eq.{◌==◌, ◌!=◌, nat_eq, int_eq, string_eq}
use apostas_api.Result.{ok, err, is_ok, overflow, insufficient_funds}
use apostas_api.Money.{Currencies, Money, valid, is_positive}
use apostas_api.Money.Arithmetic.{add_exact, sub_exact, same_currency}
use apostas_api.Values.{Time, is_zero_time, before}
use apostas_api.Wallet.{Wallet, is_valid, credit, debit}

-- The stored numbers are int64 values.
abbrev pub Fits : Wallet → Type 0
Fits w = IsInt64 w.balance.minor × IsInt64 w.version

module _ ⦃iso : Currencies⦄ where
  -- What validity says, field by field.
  pub record Facts (w : Wallet) : Type 0 where
    pub id_set : w.id ≢ 0
    pub player_set : w.player_id ≢ 0
    pub currency_valid : valid w.balance ≡ true
    pub balance_nonneg : pos 0 ≤ℤ w.balance.minor
    pub version_pos : pos 1 ≤ℤ w.version
    pub created_set : w.created_at ≢ 0
    pub updated_set : w.updated_at ≢ 0
    pub ordered : w.created_at ≤ w.updated_at

  pub is_valid-Facts : (w : Wallet) → is_valid w ≡ true → Facts w
  unfolding is_valid
  is_valid-Facts w h = ground arith

  pub Facts-is_valid : (w : Wallet) → Facts w → is_valid w ≡ true
  unfolding is_valid
  Facts-is_valid w f = ground arith

-- The wallet with a new balance, at the next version.
abbrev pub moved : Wallet → ℤ → Time → Wallet
moved w b now = record w {
  balance = record { minor = b; currency = w.balance.currency };
  version = w.version +ℤ pos 1;
  updated_at = now;
}

next_version : (v : ℤ) → IsInt64 v → (v == max_int64) ≡ false → add64 v (pos 1) ≡ v +ℤ pos 1
next_version v h ne = ground (arith, add64_exact v (pos 1), +ℤ_parts v (pos 1))

sum_fits : (a b : ℤ) → pos 0 ≤ℤ a → pos 0 ≤ℤ b → fits_int64 (a +ℤ b) ≡ leb_ℤ (a +ℤ b) max_int64
sum_fits a b ha hb = ground (arith, +ℤ_parts a b)

difference_fits : (a b : ℤ) → IsInt64 a → pos 0 ≤ℤ b → b ≤ℤ a → fits_int64 (a -ℤ b) ≡ true
difference_fits a b ha hb h = ground (arith, -ℤ_parts a b)

module _ ⦃iso : Currencies⦄ where
  -- The checks that both operations make before they look at the balance.
  abbrev pub allowed : Wallet → Money → Time → Bool
  allowed w a now =
      is_valid w
      && not (before now w.updated_at)
      && is_positive a
      && not (is_zero_time now)
      && w.version != max_int64
      && w.balance.currency == a.currency

  allowed-same_currency :
      (w : Wallet) (a : Money) (now : Time)
      → allowed w a now ≡ true
      → (same_currency w.balance a ≡ true) × (pos 0 ≤ℤ w.balance.minor) × (pos 1 ≤ℤ a.minor)
  allowed-same_currency w a now h =
      ground (arith, is_valid-Facts w, eq_iff w.balance.currency a.currency)

  -- A credit that passes the checks adds the exact amount, sets the next version and the time, and
  -- answers with the balance before; it fails only if the sum is no int64, with the overflow error.
  pub credit_exact :
      (w : Wallet) (a : Money) (now : Time)
      → Fits w
      → IsInt64 a.minor
      → allowed w a now ≡ true
      → credit w a now ≡ (
          if leb_ℤ (w.balance.minor +ℤ a.minor) max_int64
          then ok (w.balance, moved w (w.balance.minor +ℤ a.minor) now)
          else err overflow)
  unfolding credit
  credit_exact w a now f ha h =
      let (same, lo, la) = allowed-same_currency w a now h in
      ground (
        arith,
        add_exact w.balance a f.0 ha,
        sum_fits w.balance.minor a.minor lo,
        next_version w.version f.1,
        same,
      )

  -- A debit that passes the checks takes the exact amount, sets the next version and the time, and
  -- answers with the balance before; it fails only if the balance is below the amount, with the
  -- error for insufficient funds, and never by an overflow.
  pub debit_exact :
      (w : Wallet) (a : Money) (now : Time)
      → Fits w
      → IsInt64 a.minor
      → allowed w a now ≡ true
      → debit w a now ≡ (
          if leb_ℤ a.minor w.balance.minor
          then ok (w.balance, moved w (w.balance.minor -ℤ a.minor) now)
          else err insufficient_funds)
  unfolding debit
  debit_exact w a now f ha h =
      let (same, lo, la) = allowed-same_currency w a now h in
      ground (
        arith,
        sub_exact w.balance a f.0 ha,
        difference_fits w.balance.minor a.minor f.0,
        next_version w.version f.1,
        same,
      )

  -- Where a check fails, neither operation succeeds.
  pub not_allowed :
      (w : Wallet) (a : Money) (now : Time)
      → allowed w a now ≡ false
      → (is_ok (credit w a now) ≡ false) × (is_ok (debit w a now) ≡ false)
  unfolding credit debit
  not_allowed w a now h = ground arith

module _ ⦃iso : Currencies⦄ where
  allowed-Facts :
      (w : Wallet) (a : Money) (now : Time)
      → allowed w a now ≡ true
      → Facts w × (w.updated_at ≤ now) × (now ≢ 0) × ((w.version == max_int64) ≡ false)
  allowed-Facts w a now h =
      (is_valid-Facts w (ground arith), ground arith, ground arith, ground arith)

  moved-Facts :
      (w : Wallet) (b : ℤ) (now : Time)
      → Facts w
      → w.updated_at ≤ now
      → now ≢ 0
      → pos 0 ≤ℤ b
      → Facts (moved w b now)
  moved-Facts w b now f later set nonneg = ground (arith, f, +ℤ_parts w.version (pos 1))

  next_version-Fits : (v : ℤ) → IsInt64 v → (v == max_int64) ≡ false → IsInt64 (v +ℤ pos 1)
  next_version-Fits v h ne = ground (arith, +ℤ_parts v (pos 1))

  moved_good :
      (w : Wallet) (a : Money) (b : ℤ) (now : Time)
      → Fits w
      → allowed w a now ≡ true
      → pos 0 ≤ℤ b
      → b ≤ℤ max_int64
      → (is_valid (moved w b now) ≡ true) × Fits (moved w b now)
  moved_good w a b now f h lo hi =
      let (facts, later, set, room) = allowed-Facts w a now h in
      (
        Facts-is_valid _ (moved-Facts w b now facts later set lo),
        ((omega arith, hi), next_version-Fits w.version f.1 room),
      )

  -- Where an operation succeeds the checks have passed, the answer is the
  -- balance before, and the wallet has the exact new balance.
  pub credit-eq-ok :
      (w : Wallet) (a : Money) (now : Time) {b : Money} {w' : Wallet}
      → Fits w
      → IsInt64 a.minor
      → credit w a now ≡ ok (b, w')
      → (allowed w a now ≡ true)
        × (b ≡ w.balance)
        × (w' ≡ moved w (w.balance.minor +ℤ a.minor) now)
        × (w.balance.minor +ℤ a.minor ≤ℤ max_int64)
  credit-eq-ok w a now f ha done = grind (arith, credit_exact w a now f ha, not_allowed w a now)

  pub debit-eq-ok :
      (w : Wallet) (a : Money) (now : Time) {b : Money} {w' : Wallet}
      → Fits w
      → IsInt64 a.minor
      → debit w a now ≡ ok (b, w')
      → (allowed w a now ≡ true)
        × (b ≡ w.balance)
        × (w' ≡ moved w (w.balance.minor -ℤ a.minor) now)
        × (a.minor ≤ℤ w.balance.minor)
  debit-eq-ok w a now f ha done = grind (arith, debit_exact w a now f ha, not_allowed w a now)

  -- A credit that succeeds leaves a valid wallet whose numbers are int64 values.
  pub credit-is_valid :
      (w : Wallet) (a : Money) (now : Time) {b : Money} {w' : Wallet}
      → Fits w
      → IsInt64 a.minor
      → credit w a now ≡ ok (b, w')
      → (is_valid w' ≡ true) × Fits w'
  credit-is_valid w a now f ha done =
      let (h, before_eq, new, hi) = credit-eq-ok w a now f ha done in
      let (same, lo, la) = allowed-same_currency w a now h in
      rw new (
        moved_good w a (w.balance.minor +ℤ a.minor) now f h
          (omega (arith, +ℤ_parts w.balance.minor a.minor)) hi)

  -- A debit that succeeds leaves a valid wallet: its balance is not negative.
  pub debit-is_valid :
      (w : Wallet) (a : Money) (now : Time) {b : Money} {w' : Wallet}
      → Fits w
      → IsInt64 a.minor
      → debit w a now ≡ ok (b, w')
      → (is_valid w' ≡ true) × Fits w'
  debit-is_valid w a now f ha done =
      let (h, before_eq, new, hi) = debit-eq-ok w a now f ha done in
      let (same, lo, la) = allowed-same_currency w a now h in
      rw new (
        moved_good w a (w.balance.minor -ℤ a.minor) now f h
          (omega (arith, -ℤ_parts w.balance.minor a.minor))
          (omega (arith, f.0, la, -ℤ_parts w.balance.minor a.minor)))

  covered : (x y : ℤ) → pos 0 ≤ℤ x → leb_ℤ y (x +ℤ y) ≡ true
  covered x y h = ground (arith, +ℤ_parts x y)

  allowed_again :
      (w : Wallet) (a : Money) (b : ℤ) (now later : Time)
      → allowed w a now ≡ true
      → is_valid (moved w b now) ≡ true
      → now ≤ later
      → w.version +ℤ pos 1 <ℤ max_int64
      → allowed (moved w b now) a later ≡ true
  allowed_again w a b now later h v t room = ground arith

  -- A credit and then, no earlier, a debit of the same amount bring the balance back and raise the
  -- version by two, as long as the version stays below the greatest int64.
  pub debit-credit :
      (w : Wallet) (a : Money) (now later : Time) {b : Money} {w' : Wallet}
      → Fits w
      → IsInt64 a.minor
      → credit w a now ≡ ok (b, w')
      → now ≤ later
      → w.version +ℤ pos 1 <ℤ max_int64
      → debit w' a later
        ≡ ok (
          w'.balance,
          record w {
            balance = w.balance;
            version = w.version +ℤ pos 1 +ℤ pos 1;
            updated_at = later;
          },
        )
  debit-credit w a now later f ha done t room =
      let (h, before_eq, new, hi) = credit-eq-ok w a now f ha done in
      let (valid', fits') = credit-is_valid w a now f ha done in
      let (same, lo, la) = allowed-same_currency w a now h in
      let mid = moved w (w.balance.minor +ℤ a.minor) now in
      let ready : allowed mid a later ≡ true =
        allowed_again w a (w.balance.minor +ℤ a.minor) now later h (rw new at valid') t room in
      rw new (
        debit_exact mid a later (rw new at fits') ha ready
        ∙ rw (covered w.balance.minor a.minor lo, +ℤ_cancel w.balance.minor a.minor) refl)
