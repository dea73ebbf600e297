-- ===== src/Money/Json.antt =====
-- `MarshalJSON` and `UnmarshalJSON`: encoding/json is a parameter.
use apostas_api.Prelude.{◌≡◌, Bool, true, false, not, Option, none, some, Bytes, String, refl}
use apostas_api.Prelude.Int.{pos, ◌≤ℤ◌}
use apostas_api.Prelude.Int64.{max_int64}
use apostas_api.Result.{Result, ok, err, invalid_money, other_error, fail_if, ◌>>◌, ◌>>=◌}
use apostas_api.Money.Defs.{Currencies, Money, valid}
use apostas_api.Money.Text.{amount, parse_money}
use apostas_api.Money.RoundTrip.{parse_money-amount}

-- `wire`
pub record Wire : Type 0 where
  pub amount_text : Bytes
  pub currency : String

-- `json.Marshal` of a wire; and the first value of a document where it is a wire without unknown
-- fields, with the flag that the document ends there.
pub record Json {ℓ} (Document : Type ℓ) : Type ℓ where
  pub marshal : Wire → Document
  pub decode : Document → Option (Wire × Bool)

-- A wire that is written is read again, and nothing follows it.
abbrev pub ReadsBack {ℓ} : {Document : Type ℓ} → Json Document → Type 0
ReadsBack json = (w : Wire) → json.decode (json.marshal w) ≡ some (w, true)

module _ {ℓ} ⦃iso : Currencies⦄ {Document : Type ℓ} (json : Json Document) where
  unfoldable pub marshal_json : Money → Result Document
  marshal_json m = do
    fail_if (not (valid m)) invalid_money
    text ← amount m
    ok (json.marshal (record { amount_text = text; currency = m.currency }))

  abbrev pub parsed : Option (Wire × Bool) → Result Money
  parsed none = err other_error
  parsed (some (w, false)) = err invalid_money
  parsed (some (w, true)) = parse_money w.amount_text w.currency

  -- `*m = parsed`: the receiver's new value.
  unfoldable pub unmarshal_json : Document → Result Money
  unmarshal_json document = parsed (json.decode document)

  written :
      (m : Money)
      → ReadsBack json
      → valid m ≡ true
      → (marshal_json m >>= λ document. unmarshal_json document)
        ≡ (amount m >>= λ text. parse_money text m.currency)
  unfolding marshal_json unmarshal_json
  written m reads v = rw v (after_amount (amount m))
    where
      after_amount :
          (r : Result Bytes)
          → (r
              >>= (λ text. ok (json.marshal (record { amount_text = text; currency = m.currency })))
              >>= λ document. parsed (json.decode document))
            ≡ (r >>= λ text. parse_money text m.currency)
      after_amount (err e) = refl
      after_amount (ok text) =
          rw (reads (record { amount_text = text; currency = m.currency })) refl

  -- Where encoding/json reads back what it writes: a non-negative int64 amount in a valid currency is
  -- written by `MarshalJSON` without an error, and `UnmarshalJSON` reads the document back as the same
  -- money.
  pub unmarshal_json-marshal_json :
      (m : Money)
      → ReadsBack json
      → valid m ≡ true
      → pos 0 ≤ℤ m.minor
      → m.minor ≤ℤ max_int64
      → (marshal_json m >>= λ document. unmarshal_json document) ≡ ok m
  unmarshal_json-marshal_json m reads v lo hi =
      rw (written m reads v) (parse_money-amount m v lo hi)
