-- ===== src/Migrate/Applied.antt =====
-- cmd/migrate/main.go: what `migrate up` leaves.
use apostas_api.Prelude.{
  ◌≡◌, true, Option, none, some, List, [], ◌∷◌, Bytes, String, arith, refl, inl, inr, Bool-cases,
  Option-cases,
}
use mathlib.Core.Path.{subst}
use apostas_api.Prelude.Int.{ℤ}
use apostas_api.Prelude.Eq.{int_eq, int_beq_iff}
use apostas_api.Database.{exists}
use apostas_api.Database.Query.{sort_by, insert_by}
use apostas_api.Migrate.{
  up, Site, Schema, completed, Turn, goes_on, fails, turn, after_turn, migrate_all, register_legacy,
  migrate, in_order, version_of, recorded, fits_integer, executed, opened, numbered, comes_before,
  legacy,
}

-- The file's version is recorded.
abbrev pub Recorded : Bytes → List ℤ → Type 0
Recorded path versions = (v : ℤ) × (version_of path ≡ some v) × (recorded v versions ≡ true)

abbrev pub AllRecorded : List Bytes → List ℤ → Type 0
AllRecorded [] versions = Unit {0}
AllRecorded (p ∷ ps) versions = Recorded p versions × AllRecorded ps versions

-- Nothing that was recorded is gone.
abbrev pub Grown : List ℤ → List ℤ → Type 0
Grown vs ws = (v : ℤ) → recorded v vs ≡ true → recorded v ws ≡ true

record-more : (v w : ℤ) (vs : List ℤ) → recorded v vs ≡ true → recorded v (w ∷ vs) ≡ true
unfolding exists
record-more v w vs h = ground arith

recorded_first : (v : ℤ) (vs : List ℤ) → recorded v (v ∷ vs) ≡ true
unfolding exists
recorded_first v vs = rw ((int_beq_iff v v).1 refl) refl

pub completed-inj {ℓ} : {D : Type ℓ} {s s' : Schema D} → completed s ≡ completed s' → s ≡ s'
completed-inj h = cc

module _ {ℓ} {D : Type ℓ} (site : Site D) where
  -- What a turn on the way up may be.
  data Climb (path : Bytes) (s : Schema D) : Turn D → Type ℓ where
    stumbles : Climb path s (fails s)
    stays : Recorded path s.versions → Climb path s (goes_on s)
    applies :
        (v : ℤ) (d : D)
        → version_of path ≡ some v
        → Climb path s (goes_on (record { versions = v ∷ s.versions; tables = d }))

  executed-Climb :
      (path : Bytes) (s : Schema D) (v : ℤ) (o : Option D)
      → version_of path ≡ some v
      → Climb path s (executed up v o s)
  executed-Climb path s v none h = stumbles
  executed-Climb path s v (some d) h = elim (Bool-cases (fits_integer v)) [
    | inl fits ↦ rw fits (applies v d h)
    | inr large ↦ rw large stumbles
  ]

  opened-Climb :
      (path : Bytes) (s : Schema D) (v : ℤ) (o : Option String)
      → version_of path ≡ some v
      → Climb path s (opened site up v o s)
  opened-Climb path s v none h = stumbles
  opened-Climb path s v (some sql) h = executed-Climb path s v (site.exec sql s.tables) h

  numbered-Climb :
      (path : Bytes) (s : Schema D) (o : Option ℤ)
      → version_of path ≡ o
      → Climb path s (numbered site up path o s)
  numbered-Climb path s none h = stumbles
  numbered-Climb path s (some v) h = elim (Bool-cases (recorded v s.versions)) [
    | inl known ↦ rw known (stays (v, h, known))
    | inr new ↦ rw new (opened-Climb path s v (site.read_file path) h)
  ]

  turn-Climb : (path : Bytes) (s : Schema D) → Climb path s (turn site up path s)
  unfolding turn
  turn-Climb path s = numbered-Climb path s (version_of path) refl

  climbs :
      (path : Bytes) (ps : List Bytes) (s s' : Schema D) (t : Turn D)
      → Climb path s t
      → after_turn t (λ d. migrate_all site up ps d) ≡ completed s'
      → ((d : Schema D)
          → migrate_all site up ps d ≡ completed s'
          → AllRecorded ps s'.versions × Grown d.versions s'.versions)
      → AllRecorded (path ∷ ps) s'.versions × Grown s.versions s'.versions
  climbs path ps s s' _ stumbles h rest = cc
  climbs path ps s s' _ (stays (v, is, known)) h rest =
      let (all, more) = rest s h in (((v, is, more v known), all), more)
  climbs path ps s s' _ (applies v d is) h rest =
      let (all, more) = rest (record { versions = v ∷ s.versions; tables = d }) h in
      (
        ((v, is, more v (recorded_first v s.versions)), all),
        λ w known. more w (record-more w v s.versions known),
      )

  migrate_all-Recorded :
      (ps : List Bytes) (s s' : Schema D)
      → migrate_all site up ps s ≡ completed s'
      → AllRecorded ps s'.versions × Grown s.versions s'.versions
  unfolding migrate_all
  migrate_all-Recorded [] s s' h = (
    tt,
    subst (λ (x : Schema D). Grown s.versions x.versions) (completed-inj h) (λ v known. known),
  )
  migrate_all-Recorded (p ∷ ps) s s' h =
      climbs p ps s s' (turn site up p s) (turn-Climb p s) h (λ d k. migrate_all-Recorded ps d s' k)

  -- Over files whose versions are recorded, nothing happens.
  turn_skipped :
      (path : Bytes) (s : Schema D) → Recorded path s.versions → turn site up path s ≡ goes_on s
  unfolding turn
  turn_skipped path s (v, is, known) = rw (is, known) refl

  migrate_all_skipped :
      (ps : List Bytes) (s : Schema D)
      → AllRecorded ps s.versions
      → migrate_all site up ps s ≡ completed s
  unfolding migrate_all
  migrate_all_skipped [] s h = refl
  migrate_all_skipped (p ∷ ps) s (here, rest) =
      rw (turn_skipped p s here) (migrate_all_skipped ps s rest)

  register_again :
      (s : Schema D) → register_legacy site (register_legacy site s) ≡ register_legacy site s
  unfolding register_legacy
  register_again s = again s.versions refl
    where
      again :
          (vs : List ℤ)
          → s.versions ≡ vs
          → register_legacy site (legacy site s vs) ≡ legacy site s vs
      again (v ∷ vs) is = rw is refl
      again [] is = elim (Bool-cases (site.has_wallets s.tables)) [
        | inl old ↦ elim (Bool-cases (site.has_wallet_version s.tables)) [
          | inl second ↦ rw (old, second) refl
          | inr first ↦ rw (old, first) refl
        ]
        | inr new ↦ rw (new, is, new) refl
      ]

  legacy-Grown : (s : Schema D) → Grown s.versions (register_legacy site s).versions
  unfolding register_legacy exists
  legacy-Grown s v known = grown s.versions refl
    where
      grown : (vs : List ℤ) → s.versions ≡ vs → recorded v (legacy site s vs).versions ≡ true
      grown (w ∷ ws) is = known
      grown [] is = cc (rw is at known)

all_inserted :
    (p : Bytes) (ps : List Bytes) (versions : List ℤ)
    → AllRecorded (insert_by comes_before p ps) versions
    → AllRecorded (p ∷ ps) versions
unfolding insert_by
all_inserted p [] versions h = h
all_inserted p (q ∷ ps) versions h = elim (Bool-cases (comes_before p q)) [
  | inl first ↦ rw first at h
  | inr later ↦
      let (there, rest) = rw later at h in
      let (here, all) = all_inserted p ps versions rest in (here, (there, all))
]

all_sorted :
    (ps : List Bytes) (versions : List ℤ)
    → AllRecorded (sort_by comes_before ps) versions
    → AllRecorded ps versions
unfolding sort_by
all_sorted [] versions h = h
all_sorted (p ∷ ps) versions h =
    let (here, all) = all_inserted p (sort_by comes_before ps) versions h in
    (here, all_sorted ps versions all)

module _ {ℓ} {D : Type ℓ} (site : Site D) where
  -- A schema that a run left has nothing more to register.
  registered_already :
      (ps : List Bytes) (s s' : Schema D)
      → migrate_all site up ps (register_legacy site s) ≡ completed s'
      → AllRecorded ps s'.versions
      → register_legacy site s' ≡ s'
  unfolding register_legacy migrate_all exists
  registered_already [] s s' h all =
      subst (λ (x : Schema D). register_legacy site x ≡ x) (completed-inj h) (register_again site s)
  registered_already (p ∷ ps) s s' h ((v, is, known), all) = some_version s'.versions refl
    where
      some_version : (vs : List ℤ) → s'.versions ≡ vs → legacy site s' s'.versions ≡ s'
      some_version (w ∷ ws) same = rw same refl
      some_version [] same = cc (rw same at known)

  -- When `migrate up` ends without an error: the version of every file is recorded, no version that
  -- was recorded is gone, and to call it again changes nothing.
  pub up_completes :
      (s s' : Schema D)
      → migrate site up s ≡ completed s'
      → (paths : List Bytes) × (site.glob up ≡ some paths)
        × AllRecorded paths s'.versions
        × Grown s.versions s'.versions
        × (migrate site up s' ≡ completed s')
  unfolding migrate in_order
  up_completes s s' h = elim (Option-cases (site.glob up)) [
    | inl none_found ↦ cc (rw none_found at h)
    | inr (paths, found) ↦
        let order = sort_by comes_before paths in
        let done : migrate_all site up order (register_legacy site s) ≡ completed s' =
          rw found at h in
        let (all, more) = migrate_all-Recorded site order (register_legacy site s) s' done in
        (
          paths,
          found,
          all_sorted paths s'.versions all,
          λ v known. more v (legacy-Grown site s v known),
          rw (found, registered_already order s s' done all)
              (migrate_all_skipped site order s' all),
        )
  ]
