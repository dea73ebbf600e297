-- ===== src/Workers/Manager.antt =====
-- internal/worker/workers.go: `Manager` and `Register`, the start and the stop of the workers.
use apostas_api.Prelude.{
  ◌≡◌, Bool, true, false, Option, none, some, List, [], ◌∷◌, ◌++◌, String, refl, sym, ap, ◌∙◌,
  some-inj, if◌then◌else◌,
}

-- `cancel` is set by the start; `done` is closed when the group of goroutines is empty.
pub record Manager : Type 0 where
  pub started : Bool
  pub cancelled : Bool
  pub running : List String
  pub done : Bool

-- One turn of the loop of OnStart: whether the queues are ready, whether the context is done then, and
-- whether the second of waiting passes.
pub record Attempt : Type 0 where
  pub ready : Bool
  pub expired : Bool
  pub waits : Bool

-- The goroutines by the names of their runners.
abbrev pub launched : List String → Manager
launched names = record { started = true; cancelled = false; running = names; done = false }

-- `OnStart`: the flag says that there is no error; `none` where the attempts do not end the loop.
unfoldable pub on_start : List String → List Attempt → Manager → Option (Bool × Manager)
on_start names [] m = none
on_start names (a ∷ rest) m =
    let later = on_start names rest m in
    if a.ready
    then some (true, launched names)
    else if a.expired
    then some (false, m)
    else if a.waits
    then later
    else some (false, m)

-- What the goroutines do once they are launched: one returns, the last one closes `done`, and the
-- stop cancels their context.
pub data Life (names : List String) : Manager → Type 0 where
  begins : Life names (launched names)
  returns :
      (m : Manager) (before after : List String) (name : String)
      → Life names m
      → m.running ≡ before ++ name ∷ after
      → Life names (record m { running = before ++ after })
  closes : (m : Manager) → Life names m → m.running ≡ [] → Life names (record m { done = true })
  cancels : (m : Manager) → Life names m → Life names (record m { cancelled = true })

-- The branch that the `select` of OnStop takes.
pub data Branch : Type 0 where
  by_done by_context : Branch

-- The answer of OnStop by the branch; `none` where the branch is not ready.
abbrev pub selected : Branch → Bool → Manager → Option (Bool × Manager)
selected by_done expired m = if m.done then some (true, m) else none
selected by_context expired m = if expired then some (false, m) else none

-- `OnStop`, whose context may be done
unfoldable pub on_stop : Branch → Bool → Manager → Option (Bool × Manager)
on_stop branch expired m =
    if m.started then selected branch expired (record m { cancelled = true }) else some (true, m)

not_empty : (before after : List String) (name : String) → [] ≡ before ++ name ∷ after → ⊥
not_empty [] after name h = cc
not_empty (b ∷ before) after name h = cc

done_empty : (names : List String) (m : Manager) → Life names m → m.done ≡ true → m.running ≡ []
done_empty names _ begins h = cc
done_empty names _ (returns m before after name life split) h =
    absurd (not_empty before after name (sym (done_empty names m life h) ∙ split))
done_empty names _ (closes m life empty) h = empty
done_empty names _ (cancels m life) h = done_empty names m life h

stays_started : (names : List String) (m : Manager) → Life names m → m.started ≡ true
stays_started names _ begins = refl
stays_started names _ (returns m before after name life split) = stays_started names m life
stays_started names _ (closes m life empty) = stays_started names m life
stays_started names _ (cancels m life) = stays_started names m life

first_branch {ℓ} : {A : Type ℓ} (b : Bool) (x y z : A) → b ≡ true → (if b then x else y) ≡ z → x ≡ z
first_branch true x y z on h = h
first_branch false x y z on h = cc

guarded :
    (b : Bool) (m m' : Manager)
    → if◌then◌else◌ {A = Option (Bool × Manager)} b (some (true, m)) none ≡ some (true, m')
    → (b ≡ true) × (m ≡ m')
guarded true m m' h = (refl, ap (λ (x : Bool × Manager). x.1) (some-inj h))
guarded false m m' h = cc

never_clean :
    (b : Bool) (m m' : Manager)
    → if◌then◌else◌ {A = Option (Bool × Manager)} b (some (false, m)) none ≡ some (true, m')
    → ⊥
never_clean true m m' h =
    let differ : false ≡ true = ap (λ (x : Bool × Manager). x.0) (some-inj h) in cc differ
never_clean false m m' h = cc

selected-true :
    (branch : Branch) (expired : Bool) (m m' : Manager)
    → selected branch expired m ≡ some (true, m')
    → (m.done ≡ true) × (m ≡ m')
selected-true by_done expired m m' h = guarded m.done m m' h
selected-true by_context expired m m' h = absurd (never_clean expired m m' h)

-- Whatever the goroutines did since the start: when `OnStop` ends without an error, their context is
-- cancelled and every worker has returned.
pub on_stop_complete :
    (names : List String) (branch : Branch) (expired : Bool) (m m' : Manager)
    → Life names m
    → on_stop branch expired m ≡ some (true, m')
    → (m'.cancelled ≡ true) × (m'.running ≡ [])
unfolding on_stop
on_stop_complete names branch expired m m' life h =
    let stopped : Manager = record m { cancelled = true } in
    let ended : selected branch expired stopped ≡ some (true, m') =
      first_branch m.started _ _ _ (stays_started names m life) h in
    let (closed, same) = selected-true branch expired stopped m' ended in
    (
      ap (λ (x : Manager). x.cancelled) (sym same),
      ap (λ (x : Manager). x.running) (sym same) ∙ done_empty names m life closed,
    )
