-- ===== src/Database/Query.antt =====
-- The parts of a query with ORDER BY and LIMIT: the rows that fit, in order, and the first of them.
-- Rows that the order does not tell apart keep the order of the table.
use apostas_api.Prelude.{
  ℕ, zero, suc, ◌≤◌, ◌≡◌, Bool, true, ◌&&◌, ◌||◌, List, [], ◌∷◌, arith, refl, length, if◌then◌else◌,
}
use apostas_api.Database.{exists}

module _ {ℓ} {A : Type ℓ} where
  -- `WHERE …`
  unfoldable pub select : (A → Bool) → List A → List A
  select p [] = []
  select p (x ∷ xs) = let rest = select p xs in if p x then x ∷ rest else rest

  -- `ORDER BY …`, where `le x y` says that `x` may stand before `y`
  unfoldable pub insert_by : (A → A → Bool) → A → List A → List A
  insert_by le x [] = x ∷ []
  insert_by le x (y ∷ ys) = let rest = insert_by le x ys in if le x y then x ∷ y ∷ ys else y ∷ rest

  unfoldable pub sort_by : (A → A → Bool) → List A → List A
  unfolding insert_by
  sort_by le [] = []
  sort_by le (x ∷ xs) = insert_by le x (sort_by le xs)

  -- `LIMIT n`
  unfoldable pub take : List A → ℕ → List A
  take [] n = []
  take (x ∷ xs) zero = []
  take (x ∷ xs) (suc n) = x ∷ take xs n

  pub length-take-le : (xs : List A) (n : ℕ) → length (take xs n) ≤ n
  unfolding take
  length-take-le [] n = omega arith
  length-take-le (x ∷ xs) zero = omega arith
  length-take-le (x ∷ xs) (suc n) = omega (arith, length-take-le xs n)

  pub exists-take :
      (q : A → Bool) (xs : List A) (n : ℕ) → exists q (take xs n) ≡ true → exists q xs ≡ true
  unfolding take exists
  exists-take q [] n h = h
  exists-take q (x ∷ xs) zero h = cc
  exists-take q (x ∷ xs) (suc n) h = ground (arith, exists-take q xs n)

  exists-insert_by :
      (q : A → Bool) (le : A → A → Bool) (x : A) (ys : List A)
      → exists q (insert_by le x ys) ≡ (q x || exists q ys)
  unfolding insert_by exists
  exists-insert_by q le x [] = refl
  exists-insert_by q le x (y ∷ ys) = ground (arith, exists-insert_by q le x ys)

  pub exists-sort_by :
      (q : A → Bool) (le : A → A → Bool) (xs : List A) → exists q (sort_by le xs) ≡ exists q xs
  unfolding sort_by exists
  exists-sort_by q le [] = refl
  exists-sort_by q le (x ∷ xs) =
      ground (arith, exists-sort_by q le xs, exists-insert_by q le x (sort_by le xs))

  pub exists-select :
      (q p : A → Bool) (xs : List A) → exists q (select p xs) ≡ exists (λ x. p x && q x) xs
  unfolding select exists
  exists-select q p [] = refl
  exists-select q p (x ∷ xs) = ground (arith, exists-select q p xs)
