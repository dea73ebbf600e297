-- ===== src/Migrate.antt =====
-- cmd/migrate/main.go: the migrations that `run` applies or undoes. The files, what their SQL does to
-- the tables, and the two questions about the tables' columns are parameters; errors of the
-- connection, and of the statements on `schema_migrations` other than a version that is too large for
-- the column, are not modelled.
pub mod Applied
pub mod Undone
use apostas_api.Prelude.{
  ℕ, Bool, true, false, not, ◌&&◌, ◌||◌, Option, none, some, List, [], ◌∷◌, ◌^◌, Bytes, String,
  codes, eqb, ltb, if◌then◌else◌,
}
use apostas_api.Prelude.Int.{ℤ, pos, negsuc}
use apostas_api.Prelude.Eq.{◌==◌, string_eq, int_eq}
use apostas_api.Database.{exists}
use apostas_api.Database.Query.{sort_by}
use apostas_api.Strconv.{parse_int}

pub data Way : Type 0 where
  up down : Way

-- The order of `sort.Strings`.
unfoldable pub comes_before : Bytes → Bytes → Bool
comes_before [] t = true
comes_before (c ∷ s) [] = false
comes_before (c ∷ s) (d ∷ t) =
    let rest = comes_before s t in if ltb c d then true else if ltb d c then false else rest

-- `filepath.Base` of a path that ends in a name
abbrev pub last_part : Bytes → Bytes → Bytes
last_part whole [] = whole
last_part whole (c ∷ s) = last_part (if eqb c b'/' then s else whole) s

-- `strings.SplitN(name, "_", 2)[0]`
abbrev pub first_part : Bytes → Bytes
first_part [] = []
first_part (c ∷ s) = let rest = first_part s in if eqb c b'_' then [] else c ∷ rest

-- The version in a file's name.
unfoldable pub version_of : Bytes → Option ℤ
version_of path = parse_int (first_part (last_part path path))

abbrev pub reversed : List Bytes → List Bytes → List Bytes
reversed [] done = done
reversed (p ∷ ps) done = reversed ps (p ∷ done)

-- The order of the loop over the paths.
unfoldable pub in_order : Way → List Bytes → List Bytes
in_order up paths = sort_by comes_before paths
in_order down paths = reversed (sort_by comes_before paths) []

-- `WHERE version=$1`
abbrev pub recorded : ℤ → List ℤ → Bool
recorded v versions = exists (λ (w : ℤ). w == v) versions

-- `DELETE FROM schema_migrations WHERE version=$1`
unfoldable pub without : ℤ → List ℤ → List ℤ
without v [] = []
without v (w ∷ ws) = let rest = without v ws in if w == v then rest else w ∷ rest

-- The column `version integer`.
abbrev pub fits_integer : ℤ → Bool
fits_integer (pos n) = ltb n (2 ^ 31)
fits_integer (negsuc n) = ltb n (2 ^ 31)

-- `schema_migrations`, and the other tables.
pub record Schema {ℓ} (D : Type ℓ) : Type ℓ where
  pub versions : List ℤ
  pub tables : D

-- `filepath.Glob`, `os.ReadFile`, what a file's SQL does in a transaction, and whether there is a
-- table `wallets`, and in it a column `wallet_version` of the ledger.
pub record Site {ℓ} (D : Type ℓ) : Type ℓ where
  pub glob : Way → Option (List Bytes)
  pub read_file : Bytes → Option String
  pub exec : String → D → Option D
  pub has_wallets : D → Bool
  pub has_wallet_version : D → Bool

-- The schema that the command leaves, and whether it ends without an error.
pub data Outcome {ℓ} (D : Type ℓ) : Type ℓ where
  completed failed : Schema D → Outcome D

-- One turn of the loop: `continue` and the end of its body, `break`, or an error.
pub data Turn {ℓ} (D : Type ℓ) : Type ℓ where
  goes_on ends fails : Schema D → Turn D

abbrev pub skips : Way → Bool → Bool
skips up applied = applied
skips down applied = not applied

module _ {ℓ} {D : Type ℓ} where
  abbrev pub noted : Way → ℤ → D → Schema D → Turn D
  noted up v d s =
      if fits_integer v then goes_on (record { versions = v ∷ s.versions; tables = d }) else fails s
  noted down v d s = ends (record { versions = without v s.versions; tables = d })

  abbrev pub executed : Way → ℤ → Option D → Schema D → Turn D
  executed way v none s = fails s
  executed way v (some d) s = noted way v d s

  abbrev pub opened : Site D → Way → ℤ → Option String → Schema D → Turn D
  opened site way v none s = fails s
  opened site way v (some sql) s = executed way v (site.exec sql s.tables) s

  abbrev pub numbered : Site D → Way → Bytes → Option ℤ → Schema D → Turn D
  numbered site way path none s = fails s
  numbered site way path (some v) s =
      if skips way (recorded v s.versions)
      then goes_on s
      else opened site way v (site.read_file path) s

  unfoldable pub turn : Site D → Way → Bytes → Schema D → Turn D
  turn site way path s = numbered site way path (version_of path) s

  abbrev pub after_turn : Turn D → (Schema D → Outcome D) → Outcome D
  after_turn (goes_on s) rest = rest s
  after_turn (ends s) rest = completed s
  after_turn (fails s) rest = failed s

  -- `for _, path := range paths { … }`
  unfoldable pub migrate_all : Site D → Way → List Bytes → Schema D → Outcome D
  migrate_all site way [] s = completed s
  migrate_all site way (p ∷ ps) s =
      after_turn (turn site way p s) (λ s'. migrate_all site way ps s')

  -- A schema without recorded versions.
  abbrev pub legacy : Site D → Schema D → List ℤ → Schema D
  legacy site s (v ∷ vs) = s
  legacy site s [] =
      if site.has_wallets s.tables
      then (if site.has_wallet_version s.tables
          then record s { versions = pos 2 ∷ pos 1 ∷ [] }
          else record s { versions = pos 1 ∷ [] })
      else s

  -- `registerLegacy`
  unfoldable pub register_legacy : Site D → Schema D → Schema D
  register_legacy site s = legacy site s s.versions

  abbrev pub over_paths : Site D → Way → Option (List Bytes) → Schema D → Outcome D
  over_paths site way none s = failed s
  over_paths site way (some paths) s = migrate_all site way (in_order way paths) s

  unfoldable pub migrate : Site D → Way → Schema D → Outcome D
  migrate site way s = over_paths site way (site.glob way) (register_legacy site s)

  -- `run`, on the first argument of the command line
  unfoldable pub run : Site D → Option String → Schema D → Outcome D
  run site none s = migrate site up s
  run site (some direction) s =
      if direction == "up"
      then migrate site up s
      else if direction == "down"
      then migrate site down s
      else failed s
