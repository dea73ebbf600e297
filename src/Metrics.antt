-- ===== src/Metrics.antt =====
-- internal/infra/metrics/metrics.go: the registry of counters. The mutex makes each call one step.
use text.Mathlib.TextEquality.{eq_iff}
use text.Mathlib.TextPositions.{eq_refl}
use apostas_api.Prelude.{
  ℕ, ◌<◌, ◌≡◌, ◌+◌, ◌^◌, ◌%◌, Bool, true, false, List, [], ◌∷◌, ◌++◌, Bytes, String, codes, arith,
  refl, ap, ◌∙◌, inl, inr, Bool-cases, if◌then◌else◌,
}
use apostas_api.Prelude.Eq.{◌==◌, nat_eq, string_eq}
use apostas_api.Database.Query.{sort_by}
use apostas_api.Migrate.{comes_before}
use apostas_api.Strconv.{format_nat}

-- `map[string]uint64`: the value of a name that is missing is 0.
abbrev pub Registry : Type 0
Registry = List (String × ℕ)

abbrev pub registry : Registry
registry =
    ("apostas_wager_duplicates_total", 0)
    ∷ ("apostas_sqs_retries_total", 0)
    ∷ ("apostas_sqs_dlq_total", 0)
    ∷ ("apostas_concurrency_conflicts_total", 0)
    ∷ ("apostas_outbox_retries_total", 0)
    ∷ ("apostas_outbox_published_total", 0)
    ∷ ("apostas_outbox_delay_milliseconds_total", 0)
    ∷ ("apostas_sqs_processing_latency_milliseconds_total", 0)
    ∷ ("apostas_reconciliation_divergences_total", 0)
    ∷ ("apostas_wager_results_total{status=\"PROCESSED\"}", 0)
    ∷ ("apostas_wager_results_total{status=\"REJECTED\"}", 0)
    ∷ ("apostas_wager_results_total{status=\"PENDING_REFERENCE\"}", 0)
    ∷ []

-- `registry.values[name]`
unfoldable pub value_of : String → Registry → ℕ
value_of name [] = 0
value_of name ((key, value) ∷ rest) =
    let later = value_of name rest in if key == name then value else later

-- `Add`
unfoldable pub add : String → ℕ → Registry → Registry
add name n [] = (name, n % 2 ^ 64) ∷ []
add name n ((key, value) ∷ rest) =
    let later = add name n rest in
    if key == name then (key, (value + n) % 2 ^ 64) ∷ rest else (key, value) ∷ later

-- `Inc`
unfoldable pub inc : String → Registry → Registry
inc name r = add name 1 r

-- `"%s %d\n"`
abbrev pub line : String × ℕ → Bytes
line (key, value) = codes key ++ b' ' ∷ format_nat value ++ 10 ∷ []

abbrev pub key_before : String × ℕ → String × ℕ → Bool
key_before (key, _) (other, _) = comes_before (codes key) (codes other)

-- The writes up to the first that the writer refuses, and whether there was no error.
unfoldable pub write_lines : (Bytes → Bool) → Registry → List Bytes × Bool
write_lines accepts [] = ([], true)
write_lines accepts (entry ∷ rest) =
    let (lines, fine) = write_lines accepts rest in
    if accepts (line entry) then (line entry ∷ lines, fine) else ([], false)

-- `WritePrometheus`
unfoldable pub write_prometheus : (Bytes → Bool) → Registry → List Bytes × Bool
write_prometheus accepts r = write_lines accepts (sort_by key_before r)

-- Several calls of `Add`, one after the other.
abbrev pub add_all : List (String × ℕ) → Registry → Registry
add_all [] r = r
add_all ((name, n) ∷ rest) r = add_all rest (add name n r)

-- What the calls add to a name.
abbrev pub total : String → List (String × ℕ) → ℕ
total name [] = 0
total name ((key, n) ∷ rest) = if key == name then n + total name rest else total name rest

zero_first : (n : ℕ) → n % 2 ^ 64 ≡ (0 + n) % 2 ^ 64
zero_first n = omega arith

value-add :
    (name : String) (n : ℕ) (r : Registry)
    → value_of name (add name n r) ≡ (value_of name r + n) % 2 ^ 64
unfolding value_of add
value-add name n [] = rw (eq_refl name) (zero_first n)
value-add name n ((key, value) ∷ rest) = elim (Bool-cases (key == name)) [
  | inl here ↦ rw (here, here) refl
  | inr apart ↦ rw (apart, apart) (value-add name n rest)
]

value-add_other :
    (name key : String) (n : ℕ) (r : Registry)
    → (key == name) ≡ false
    → value_of name (add key n r) ≡ value_of name r
unfolding value_of add
value-add_other name key n [] differs = rw differs refl
value-add_other name key n ((k, value) ∷ rest) differs = elim (Bool-cases (k == key)) [
  | inl here ↦ rw (here, (eq_iff k key).0 here, differs) refl
  | inr apart ↦ rw (apart, value-add_other name key n rest differs) refl
]

wraps : (v n t : ℕ) → ((v + n) % 2 ^ 64 + t) % 2 ^ 64 ≡ (v + (n + t)) % 2 ^ 64
wraps v n t = omega arith

below : (v n : ℕ) → (v + n) % 2 ^ 64 < 2 ^ 64
below v n = omega arith

-- However the calls of `Add` are ordered, the value of a counter is what it was and the sum of what
-- was added to it, modulo 2^64, where it was a uint64 before.
pub value-add_all :
    (name : String) (adds : List (String × ℕ)) (r : Registry)
    → value_of name r < 2 ^ 64
    → value_of name (add_all adds r) ≡ (value_of name r + total name adds) % 2 ^ 64
value-add_all name [] r h = omega arith
value-add_all name ((key, n) ∷ rest) r h = elim (Bool-cases (key == name)) [
  | inl here ↦
      let same : key ≡ name = (eq_iff key name).0 here in
      let added : value_of name (add key n r) ≡ (value_of name r + n) % 2 ^ 64 =
        ap (λ k. value_of name (add k n r)) same ∙ value-add name n r in
      rw (here, value-add_all name rest (add key n r) (rw added (below (value_of name r) n)), added)
        (wraps (value_of name r) n (total name rest))
  | inr apart ↦
      rw
        (
          apart,
          value-add_all name rest (add key n r) (rw (value-add_other name key n r apart) h),
          value-add_other name key n r apart,
        )
        refl
]
