-- ===== src/Prelude/Rows.antt =====
-- A table of the database as the list of its rows, and the query builder's calls on it.
use mathlib.Core.Path.{◌≡◌, refl}
use mathlib.Core.Logic.{inl, inr}
use mathlib.Core.Bool.{Bool, true, false}
use mathlib.Core.Option.{Option, none, some}
use mathlib.Core.List.{List, [], ◌∷◌, ◌++◌, map}
use native.Mathlib.Omega.{arith}
use nest_js_project.Prelude.Lists.{All}
use nest_js_project.Prelude.Tests.{if◌then◌else◌, is_some, Bool-cases}

abbrev pub map_option {ℓ κ} : {A : Type ℓ} {B : Type κ} → (A → B) → Option A → Option B
map_option f none = none
map_option f (some a) = some (f a)

module _ {ℓ} {A : Type ℓ} where
  -- `select … where test … getRawOne()`, and `findOne`: the first row that meets the test.
  abbrev pub find_one : (A → Bool) → List A → Option A
  find_one test [] = none
  find_one test (r ∷ rs) = if test r then some r else find_one test rs

  -- `find({ where })`.
  abbrev pub find_all : (A → Bool) → List A → List A
  find_all test [] = []
  find_all test (r ∷ rs) = let rest = find_all test rs in if test r then r ∷ rest else rest

  -- `update … set … where test`.
  abbrev pub update_where : (A → Bool) → (A → A) → List A → List A
  update_where test set [] = []
  update_where test set (r ∷ rs) = (if test r then set r else r) ∷ update_where test set rs

  -- What a query finds meets the query's test.
  pub find_one-test :
      (test : A → Bool) (rs : List A) (r : A) → find_one test rs ≡ some r → test r ≡ true
  find_one-test test [] r h = cc
  find_one-test test (x ∷ rs) r h = ground (arith, find_one-test test rs r)

  -- An update that leaves the query's test alone changes the row that is found, and not which.
  pub find_one-update_where :
      (test p : A → Bool) (set : A → A)
      → ((r : A) → test (set r) ≡ test r)
      → (rs : List A)
      → find_one test (update_where p set rs)
        ≡ map_option (λ r. if p r then set r else r) (find_one test rs)
  find_one-update_where test p set keep [] = refl
  find_one-update_where test p set keep (r ∷ rs) =
      ground (arith, keep r, find_one-update_where test p set keep rs)

  pub find_all-append :
      (test : A → Bool) (xs ys : List A)
      → find_all test (xs ++ ys) ≡ find_all test xs ++ find_all test ys
  find_all-append test [] ys = refl
  find_all-append test (x ∷ xs) ys = ground (arith, find_all-append test xs ys)

  -- A query for one row that finds nothing matches no row.
  pub find_all-none :
      (test : A → Bool) (rs : List A) → is_some (find_one test rs) ≡ false → find_all test rs ≡ []
  find_all-none test [] h = refl
  find_all-none test (r ∷ rs) h = ground (arith, find_all-none test rs)

  -- Rows that are added later do not hide those that were there, and are found where there was none.
  pub find_one-append :
      (test : A → Bool) (xs ys : List A)
      → find_one test xs ≡ none
      → find_one test (xs ++ ys) ≡ find_one test ys
  find_one-append test [] ys h = refl
  find_one-append test (x ∷ xs) ys h = ground (arith, find_one-append test xs ys)

  -- An update that leaves a column alone keeps the whole column.
  pub map-update_where {κ} :
      {B : Type κ} (column : A → B) (p : A → Bool) (set : A → A)
      → ((r : A) → column (set r) ≡ column r)
      → (rs : List A) → map column (update_where p set rs) ≡ map column rs
  map-update_where column p set keep [] = refl
  map-update_where column p set keep (r ∷ rs) = elim (Bool-cases (p r)) [
    | inl hit ↦ rw (hit, keep r, map-update_where column p set keep rs)
    | inr miss ↦ rw (miss, map-update_where column p set keep rs)
  ]

  -- An update that keeps a property of a row keeps it of all rows.
  pub All-update_where {κ} :
      (P : A → Type κ) (p : A → Bool) (set : A → A)
      → ((r : A) → P r → P (set r))
      → (rs : List A) → All P rs
      → All P (update_where p set rs)
  All-update_where P p set keep [] h = h
  All-update_where P p set keep (r ∷ rs) (first, rest) = elim (Bool-cases (p r)) [
    | inl hit ↦ rw hit (keep r first, All-update_where P p set keep rs rest)
    | inr miss ↦ rw miss (first, All-update_where P p set keep rs rest)
  ]

-- A query whose test fails at every row finds none.
pub find_one-never :
    {A : Type 0} (test : A → Bool)
    → ((a : A) → test a ≡ false)
    → (rows : List A) → find_one test rows ≡ none
find_one-never test never [] = refl
find_one-never test never (r ∷ rs) = rw (never r) (find_one-never test never rs)

pub find_all-never :
    {A : Type 0} (test : A → Bool)
    → ((a : A) → test a ≡ false)
    → (rows : List A) → find_all test rows ≡ []
find_all-never test never [] = refl
find_all-never test never (r ∷ rs) = rw (never r) (find_all-never test never rs)
