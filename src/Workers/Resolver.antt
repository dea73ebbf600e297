-- ===== src/Workers/Resolver.antt =====
-- internal/worker/workers.go: `ReferenceResolver.Run`, from one tick of its ticker to the next.
use apostas_api.Prelude.{ℕ, zero, suc, ◌<◌, ◌≡◌, Bool, true, false, Option, none, some, arith, refl}
use apostas_api.Result.{Result, ok, err}
use apostas_api.Money.{Currencies}
use apostas_api.Database.{Database}
use apostas_api.Store.{Fresh}
use apostas_api.Store.Resolve.{resolve_pending}
use apostas_api.Store.Resolve.Attempts.{UniqueIds, all_turns, resolve_pending-all_turns}

-- `if processed { continue }`; an error is logged and the tick waited for.
abbrev pub next_round :
    Result (Bool × Database) → Database → (Database → Option Database) → Option Database
next_round (ok (true, db')) db again = again db'
next_round (ok (false, db')) db again = some db'
next_round (err e) db again = some db

module _ ⦃iso : Currencies⦄ where
  -- The calls of `ResolvePendingReference` up to the wait for the ticker, on fuel; the n-th call from
  -- the last has the values `clock n`.
  unfoldable pub run_resolver : ℕ → (ℕ → Fresh) → Database → Option Database
  run_resolver zero clock db = none
  run_resolver (suc n) clock db =
      next_round (resolve_pending (clock n) db) db (λ db'. run_resolver n clock db')

  next_round_ends :
      (r : Result (Bool × Database)) (db : Database) (again : Database → Option Database)
      → ((db' : Database) → r ≡ ok (true, db') → (x : Database) × (again db' ≡ some x))
      → (x : Database) × (next_round r db again ≡ some x)
  next_round_ends (ok (true, db')) db again go = go db' refl
  next_round_ends (ok (false, db')) db again go = (db', refl)
  next_round_ends (err e) db again go = (db, refl)

  -- Where the identifiers of the transactions are unique, the resolver waits for its ticker after at
  -- most one call for each attempt that the waiting transactions have left (ten less those made, and
  -- one where ten were made), and one more, whatever the clock and the identifiers of the calls.
  pub run_resolver_ends :
      (n : ℕ) (clock : ℕ → Fresh) (db : Database)
      → UniqueIds db.transactions
      → all_turns db.transactions < n
      → (db' : Database) × (run_resolver n clock db ≡ some db')
  unfolding run_resolver
  run_resolver_ends zero clock db unique enough = absurd (omega arith)
  run_resolver_ends (suc n) clock db unique enough =
      next_round_ends (resolve_pending (clock n) db) db (λ db'. run_resolver n clock db')
        (λ db' h.
          let (less, unique') = resolve_pending-all_turns (clock n) db unique h in
          run_resolver_ends n clock db' unique' (omega arith))
