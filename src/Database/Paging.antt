-- ===== src/Database/Paging.antt =====
-- Rows in a strict order, and what a query finds behind one of them.
use apostas_api.Prelude.{
  ◌≡◌, ◌⊎◌, Bool, true, false, not, ◌&&◌, List, [], ◌∷◌, ◌++◌, arith, refl, ◌∙◌, inl, inr,
  if◌then◌else◌, Bool-cases,
}
use apostas_api.Database.Query.{select, insert_by, sort_by}

module _ {ℓ} {A : Type ℓ} where
  pub select_and :
      (p q : A → Bool) (xs : List A) → select (λ x. p x && q x) xs ≡ select q (select p xs)
  unfolding select
  select_and p q [] = refl
  select_and p q (x ∷ xs) = ground (arith, select_and p q xs)

module _ {A : Type 0} (lt : A → A → Bool) where
  -- `ORDER BY` with the strict order
  abbrev pub may_precede : A → A → Bool
  may_precede x y = not (lt y x)

  abbrev pub AllAfter : A → List A → Type 0
  AllAfter x [] = Unit {0}
  AllAfter x (y ∷ ys) = (lt x y ≡ true) × AllAfter x ys

  abbrev pub Ascending : List A → Type 0
  Ascending [] = Unit {0}
  Ascending (x ∷ xs) = AllAfter x xs × Ascending xs

  -- The order tells the row apart from all of them.
  abbrev pub Apart : A → List A → Type 0
  Apart x [] = Unit {0}
  Apart x (y ∷ ys) = ((lt x y ≡ true) ⊎ (lt y x ≡ true)) × Apart x ys

  abbrev pub AllApart : List A → Type 0
  AllApart [] = Unit {0}
  AllApart (x ∷ xs) = Apart x xs × AllApart xs

module _ {A : Type 0} (lt : A → A → Bool)
    (trans : (x y z : A) → lt x y ≡ true → lt y z ≡ true → lt x z ≡ true)
    (asym : (x y : A) → lt x y ≡ true → lt y x ≡ false) where
  AllAfter-trans : (x y : A) (ys : List A) → lt x y ≡ true → AllAfter lt y ys → AllAfter lt x ys
  AllAfter-trans x y [] h all = tt
  AllAfter-trans x y (z ∷ zs) h (first, rest) = (trans x y z h first, AllAfter-trans x y zs h rest)

  AllAfter-insert_by :
      (z x : A) (ys : List A)
      → lt z x ≡ true
      → AllAfter lt z ys
      → AllAfter lt z (insert_by (may_precede lt) x ys)
  unfolding insert_by
  AllAfter-insert_by z x [] h all = (h, tt)
  AllAfter-insert_by z x (y ∷ ys) h (first, rest) = elim (Bool-cases (lt y x)) [
    | inl later ↦ rw later (first, AllAfter-insert_by z x ys h rest)
    | inr here ↦ rw here (h, (first, rest))
  ]

  insert_by-Ascending :
      (x : A) (ys : List A)
      → Apart lt x ys
      → Ascending lt ys
      → Ascending lt (insert_by (may_precede lt) x ys)
  unfolding insert_by
  insert_by-Ascending x [] apart up = (tt, tt)
  insert_by-Ascending x (y ∷ ys) (inl before, apart) (first, up) =
      rw (asym x y before) ((before, AllAfter-trans x y ys before first), (first, up))
  insert_by-Ascending x (y ∷ ys) (inr after, apart) (first, up) =
      rw after (AllAfter-insert_by y x ys after first, insert_by-Ascending x ys apart up)

  Apart-insert_by :
      (z x : A) (ys : List A)
      → (lt z x ≡ true) ⊎ (lt x z ≡ true)
      → Apart lt z ys
      → Apart lt z (insert_by (may_precede lt) x ys)
  unfolding insert_by
  Apart-insert_by z x [] h apart = (h, tt)
  Apart-insert_by z x (y ∷ ys) h (first, rest) = elim (Bool-cases (lt y x)) [
    | inl later ↦ rw later (first, Apart-insert_by z x ys h rest)
    | inr here ↦ rw here (h, (first, rest))
  ]

  Apart-sort_by : (z : A) (ys : List A) → Apart lt z ys → Apart lt z (sort_by (may_precede lt) ys)
  unfolding sort_by
  Apart-sort_by z [] h = tt
  Apart-sort_by z (y ∷ ys) (first, rest) =
      Apart-insert_by z y (sort_by (may_precede lt) ys) first (Apart-sort_by z ys rest)

  pub sort_by-Ascending :
      (xs : List A) → AllApart lt xs → Ascending lt (sort_by (may_precede lt) xs)
  unfolding sort_by
  sort_by-Ascending [] h = tt
  sort_by-Ascending (x ∷ xs) (first, rest) =
      insert_by-Ascending x (sort_by (may_precede lt) xs) (Apart-sort_by x xs first)
        (sort_by-Ascending xs rest)

  AllAfter-select :
      (q : A → Bool) (x : A) (ys : List A) → AllAfter lt x ys → AllAfter lt x (select q ys)
  unfolding select
  AllAfter-select q x [] h = tt
  AllAfter-select q x (y ∷ ys) (first, rest) = elim (Bool-cases (q y)) [
    | inl kept ↦ rw kept (first, AllAfter-select q x ys rest)
    | inr dropped ↦ rw dropped (AllAfter-select q x ys rest)
  ]

  insert_first : (x : A) (ys : List A) → AllAfter lt x ys → insert_by (may_precede lt) x ys ≡ x ∷ ys
  unfolding insert_by
  insert_first x [] h = refl
  insert_first x (y ∷ ys) (first, rest) = rw (asym x y first) refl

  select-insert_by :
      (q : A → Bool) (x : A) (ys : List A)
      → Apart lt x ys
      → Ascending lt ys
      → select q (insert_by (may_precede lt) x ys)
        ≡ (if q x then insert_by (may_precede lt) x (select q ys) else select q ys)
  unfolding insert_by select
  select-insert_by q x [] apart up = refl
  select-insert_by q x (y ∷ ys) (inl before, apart) (first, up) =
      let behind : AllAfter lt x (select q (y ∷ ys)) =
        AllAfter-select q x (y ∷ ys) (before, AllAfter-trans x y ys before first) in
      rw (asym x y before, insert_first x (select q (y ∷ ys)) behind) refl
  select-insert_by q x (y ∷ ys) (inr after, apart) (first, up) =
      ground (arith, select-insert_by q x ys apart up)

  pub select-sort_by :
      (q : A → Bool) (xs : List A)
      → AllApart lt xs
      → select q (sort_by (may_precede lt) xs) ≡ sort_by (may_precede lt) (select q xs)
  unfolding sort_by select
  select-sort_by q [] h = refl
  select-sort_by q (x ∷ xs) (first, rest) =
      let sorted = sort_by (may_precede lt) xs in
      select-insert_by q x sorted (Apart-sort_by x xs first) (sort_by-Ascending xs rest)
      ∙ ground (arith, select-sort_by q xs rest)

  select_all : (x : A) (ys : List A) → AllAfter lt x ys → select (lt x) ys ≡ ys
  unfolding select
  select_all x [] h = refl
  select_all x (y ∷ ys) (first, rest) = rw (first, select_all x ys rest) refl

  not_itself : (x : A) → lt x x ≡ false
  not_itself x = elim (Bool-cases (lt x x)) [
    | inl before ↦ asym x x before
    | inr not_before ↦ not_before
  ]

  AllAfter-middle :
      (p x : A) (before rest : List A) → AllAfter lt p (before ++ x ∷ rest) → lt p x ≡ true
  AllAfter-middle p x [] rest h = h.0
  AllAfter-middle p x (y ∷ ys) rest h = AllAfter-middle p x ys rest h.1

  -- What stands behind a row of the ordered rows is what the strict order selects.
  pub select-suffix :
      (before : List A) (x : A) (rest : List A)
      → Ascending lt (before ++ x ∷ rest)
      → select (lt x) (before ++ x ∷ rest) ≡ rest
  unfolding select
  select-suffix [] x rest (first, up) = rw (not_itself x, select_all x rest first) refl
  select-suffix (p ∷ ps) x rest (first, up) =
      rw (asym p x (AllAfter-middle p x ps rest first)) (select-suffix ps x rest up)
