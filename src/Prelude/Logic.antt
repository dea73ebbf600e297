-- ===== src/Prelude/Logic.antt =====
-- Case lemmas that keep the equation of a computed value.
use mathlib.Core.Path.{◌≡◌, refl}
use mathlib.Core.Logic.{◌⊎◌, inl, inr}
use mathlib.Core.Bool.{Bool, true, false, ◌||◌, ◌&&◌}
use apostas_api.Prelude.Tests.{if◌then◌else◌}
use mathlib.Core.Option.{Option, none, some}

pub Bool-cases : (b : Bool) → (b ≡ true) ⊎ (b ≡ false)
Bool-cases true = inl refl
Bool-cases false = inr refl

pub Option-cases {ℓ} : {A : Type ℓ} (o : Option A) → (o ≡ none) ⊎ ((a : A) × (o ≡ some a))
Option-cases none = inl refl
Option-cases (some a) = inr (a, refl)

pub or_true : (a : Bool) → (a || true) ≡ true
or_true true = refl
or_true false = refl

-- A property of both branches holds of the conditional.
pub if_elim {ℓ κ} :
    {A : Type ℓ} (P : A → Type κ) (b : Bool) {x y : A} → P x → P y → P (if b then x else y)
if_elim P true px py = px
if_elim P false px py = py

pub and_eq_true : (a b : Bool) → (a && b) ≡ true → (a ≡ true) × (b ≡ true)
and_eq_true true b h = (refl, h)
and_eq_true false b h = cc

pub or_eq_false : (a b : Bool) → (a || b) ≡ false → (a ≡ false) × (b ≡ false)
or_eq_false true b h = cc
or_eq_false false b h = (refl, h)

-- Two early returns that were not taken.
pub goes_on {ℓ} :
    {A : Type ℓ} (a b : Bool) (x y : A)
    → (if a then some x else if b then some y else none) ≡ none
    → (a ≡ false) × (b ≡ false)
goes_on true b x y h = cc
goes_on false true x y h = cc
goes_on false false x y h = (refl, refl)

pub some-inj {ℓ} : {A : Type ℓ} {x y : A} → some x ≡ some y → x ≡ y
some-inj h = cc
