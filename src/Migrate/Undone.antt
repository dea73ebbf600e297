-- ===== src/Migrate/Undone.antt =====
-- cmd/migrate/main.go: what `migrate down` leaves.
use mathlib.Core.Path.{subst}
use apostas_api.Prelude.{
  ◌≡◌, ◌⊎◌, true, false, Option, none, some, List, [], ◌∷◌, ◌++◌, Bytes, String, refl, sym, ap, inl,
  inr, Bool-cases, Option-cases,
}
use apostas_api.Prelude.Int.{ℤ}
use apostas_api.Migrate.{
  down, Site, Schema, completed, Turn, goes_on, ends, fails, turn, after_turn, migrate_all,
  register_legacy, migrate, in_order, version_of, recorded, without, executed, opened, numbered,
}
use apostas_api.Migrate.Applied.{completed-inj}

-- The files' versions are not recorded.
abbrev pub NoneRecorded : List Bytes → List ℤ → Type 0
NoneRecorded [] versions = Unit {0}
NoneRecorded (p ∷ ps) versions =
    ((v : ℤ) × (version_of p ≡ some v) × (recorded v versions ≡ false)) × NoneRecorded ps versions

module _ {ℓ} {D : Type ℓ} (site : Site D) where
  -- The SQL of the file is executed, and its version, which was recorded, is recorded no more.
  abbrev pub Undoes : Bytes → Schema D → Schema D → Type ℓ
  Undoes path s s' =
      (v : ℤ) × (sql : String) × (version_of path ≡ some v)
      × (recorded v s.versions ≡ true)
      × (site.read_file path ≡ some sql)
      × (site.exec sql s.tables ≡ some s'.tables)
      × (s'.versions ≡ without v s.versions)

  -- One file is undone, the first in the order that is recorded, or none is recorded.
  abbrev pub UndoesFirst : List Bytes → Schema D → Schema D → Type ℓ
  UndoesFirst order s s' =
      ((s' ≡ s) × NoneRecorded order s.versions)
      ⊎ ((before : List Bytes) × (path : Bytes) × (later : List Bytes) × (order
            ≡ before ++ path ∷ later)
          × NoneRecorded before s.versions
          × Undoes path s s')

  data Descent (path : Bytes) (s : Schema D) : Turn D → Type ℓ where
    stumbles : Descent path s (fails s)
    passes :
        (v : ℤ)
        → version_of path ≡ some v
        → recorded v s.versions ≡ false
        → Descent path s (goes_on s)
    undoes : (s' : Schema D) → Undoes path s s' → Descent path s (ends s')

  opened-Descent :
      (path : Bytes) (s : Schema D) (v : ℤ) (o : Option String)
      → version_of path ≡ some v
      → recorded v s.versions ≡ true
      → site.read_file path ≡ o
      → Descent path s (opened site down v o s)
  opened-Descent path s v none is known read = stumbles
  opened-Descent path s v (some sql) is known read = run_it (site.exec sql s.tables) refl
    where
      run_it : (o : Option D) → site.exec sql s.tables ≡ o → Descent path s (executed down v o s)
      run_it none done = stumbles
      run_it (some d) done =
          undoes (record { versions = without v s.versions; tables = d })
            (v, sql, is, known, read, done, refl)

  numbered-Descent :
      (path : Bytes) (s : Schema D) (o : Option ℤ)
      → version_of path ≡ o
      → Descent path s (numbered site down path o s)
  numbered-Descent path s none is = stumbles
  numbered-Descent path s (some v) is = elim (Bool-cases (recorded v s.versions)) [
    | inl known ↦ rw known (opened-Descent path s v (site.read_file path) is known refl)
    | inr new ↦ rw new (passes v is new)
  ]

  turn-Descent : (path : Bytes) (s : Schema D) → Descent path s (turn site down path s)
  unfolding turn
  turn-Descent path s = numbered-Descent path s (version_of path) refl

  UndoesFirst-cons :
      (path : Bytes) (ps : List Bytes) (s s' : Schema D) (v : ℤ)
      → version_of path ≡ some v
      → recorded v s.versions ≡ false
      → UndoesFirst ps s s'
      → UndoesFirst (path ∷ ps) s s'
  UndoesFirst-cons path ps s s' v is new (inl (same, rest)) = inl (same, ((v, is, new), rest))
  UndoesFirst-cons path ps s s' v is new (inr (before, p, later, order, none_known, undone)) =
      inr (path ∷ before, p, later, ap (λ l. path ∷ l) order, ((v, is, new), none_known), undone)

  descends :
      (path : Bytes) (ps : List Bytes) (s s' : Schema D) (t : Turn D)
      → Descent path s t
      → after_turn t (λ d. migrate_all site down ps d) ≡ completed s'
      → (migrate_all site down ps s ≡ completed s' → UndoesFirst ps s s')
      → UndoesFirst (path ∷ ps) s s'
  descends path ps s s' _ stumbles h rest = cc
  descends path ps s s' _ (passes v is new) h rest = UndoesFirst-cons path ps s s' v is new (rest h)
  descends path ps s s' _ (undoes s1 did) h rest =
      inr ([], path, ps, refl, tt, subst (Undoes path s) (completed-inj h) did)

  migrate_all-UndoesFirst :
      (ps : List Bytes) (s s' : Schema D)
      → migrate_all site down ps s ≡ completed s'
      → UndoesFirst ps s s'
  unfolding migrate_all
  migrate_all-UndoesFirst [] s s' h = inl (sym (completed-inj h), tt)
  migrate_all-UndoesFirst (p ∷ ps) s s' h =
      descends p ps s s' (turn site down p s) (turn-Descent p s) h
        (λ k. migrate_all-UndoesFirst ps s s' k)

  -- When `migrate down` ends without an error, at most one migration is undone: from the last file in
  -- the order of the names backwards, the first whose version is recorded has its SQL executed and its
  -- version removed; where no version is recorded, nothing happens but the registration of a legacy
  -- schema.
  pub down_completes :
      (s s' : Schema D)
      → migrate site down s ≡ completed s'
      → (paths : List Bytes) × (site.glob down ≡ some paths)
        × UndoesFirst (in_order down paths) (register_legacy site s) s'
  unfolding migrate
  down_completes s s' h = elim (Option-cases (site.glob down)) [
    | inl none_found ↦ cc (rw none_found at h)
    | inr (paths, found) ↦ (
      paths,
      found,
      migrate_all-UndoesFirst (in_order down paths) (register_legacy site s) s' (rw found at h),
    )
  ]
