-- ===== src/Prelude/Keyed.antt =====
-- Tables with a key: a loop over the rows that a query found, which updates each by its key.
use Prim.Native.Nat.{ℕ}
use mathlib.Core.Path.{◌≡◌, refl, sym, ap, subst, ◌∙◌}
use mathlib.Core.Logic.{inl, inr}
use mathlib.Core.Bool.{Bool, false}
use mathlib.Core.List.{List, [], ◌∷◌, map}
use native.Mathlib.Omega.{arith}
use nest_js_project.Prelude.Lists.{All}
use nest_js_project.Prelude.Tests.{◌==◌, if◌then◌else◌, Bool-cases, beq_self}
use nest_js_project.Prelude.Rows.{find_all, update_where, All-update_where}

pub map-pointwise {ℓ} :
    {A : Type ℓ} (f g : A → A) → ((x : A) → f x ≡ g x) → (rs : List A) → map f rs ≡ map g rs
map-pointwise f g e [] = refl
map-pointwise f g e (r ∷ rs) = rw (e r, map-pointwise f g e rs) refl

-- Two passes that come to the same on each row.
pub map-twice {ℓ} :
    {A : Type ℓ} (f g h : A → A)
    → ((x : A) → f (g x) ≡ h x)
    → (rs : List A) → map f (map g rs) ≡ map h rs
map-twice f g h e [] = refl
map-twice f g h e (r ∷ rs) = rw (e r, map-twice f g h e rs) refl

not_beq_sym : (a b : ℕ) → (a == b) ≡ false → (b == a) ≡ false
not_beq_sym a b h = ground arith

module _ {ℓ} {A : Type ℓ} (key : A → ℕ) where
  -- `for (const row of rows) await repo.update(row.id, step(row))`.
  abbrev pub update_each : (A → A → A) → List A → List A → List A
  update_each step [] table = table
  update_each step (r ∷ rs) table =
      update_each step rs (update_where (λ x. key x == key r) (step r) table)

  abbrev Differs : ℕ → List A → Type 0
  Differs k = All (λ x. (key x == k) ≡ false)

  -- The key is unique.
  abbrev pub UniqueKeys : List A → Type 0
  UniqueKeys [] = Unit
  UniqueKeys (r ∷ rs) = Differs (key r) rs × UniqueKeys rs

  Differs-map :
      (k : ℕ) (f : A → A)
      → ((x : A) → key (f x) ≡ key x)
      → (rs : List A) → Differs k rs
      → Differs k (map f rs)
  Differs-map k f keep [] h = h
  Differs-map k f keep (r ∷ rs) (d, h) = (ap (λ n. n == k) (keep r) ∙ d, Differs-map k f keep rs h)

  pub UniqueKeys-map :
      (f : A → A)
      → ((x : A) → key (f x) ≡ key x)
      → (rs : List A) → UniqueKeys rs
      → UniqueKeys (map f rs)
  UniqueKeys-map f keep [] h = h
  UniqueKeys-map f keep (r ∷ rs) (d, h) = (
    subst (λ k. Differs k (map f rs)) (sym (keep r)) (Differs-map (key r) f keep rs d),
    UniqueKeys-map f keep rs h,
  )

  update_where-Differs :
      (k : ℕ) (set : A → A) (rs : List A)
      → Differs k rs
      → update_where (λ x. key x == k) set rs ≡ rs
  update_where-Differs k set [] h = refl
  update_where-Differs k set (r ∷ rs) (d, h) = rw (d, update_where-Differs k set rs h) refl

  Differs-find_all :
      (k : ℕ) (test : A → Bool) (rs : List A) → Differs k rs → Differs k (find_all test rs)
  Differs-find_all k test [] h = h
  Differs-find_all k test (r ∷ rs) (d, h) = elim (Bool-cases (test r)) [
    | inl hit ↦ rw hit (d, Differs-find_all k test rs h)
    | inr miss ↦ rw miss (Differs-find_all k test rs h)
  ]

  -- A row that none of the loop's rows is stays as it is.
  update_each-front :
      (step : A → A → A) (rs : List A) (x : A) (table : List A)
      → Differs (key x) rs
      → update_each step rs (x ∷ table) ≡ x ∷ update_each step rs table
  update_each-front step [] x table h = refl
  update_each-front step (r ∷ rs) x table (d, h) =
      rw (not_beq_sym (key r) (key x) d)
        (update_each-front step rs x (update_where (λ y. key y == key r) (step r) table) h)

  update_each-head :
      (step : A → A → A) (r : A) (rs table : List A)
      → Differs (key r) table
      → update_each step (r ∷ rs) (r ∷ table) ≡ update_each step rs (step r r ∷ table)
  update_each-head step r rs table d =
      ap (update_each step rs)
        (rw (beq_self (key r), update_where-Differs (key r) (step r) table d) refl)

  -- The loop is one pass over the table, as the keys are unique and the updates keep them.
  pub update_each-map :
      (step : A → A → A) (test : A → Bool)
      → ((r x : A) → key (step r x) ≡ key x)
      → (rs : List A) → UniqueKeys rs
      → update_each step (find_all test rs) rs ≡ map (λ r. if test r then step r r else r) rs
  update_each-map step test keep [] unique = refl
  update_each-map step test keep (r ∷ rs) (d, unique) = elim (Bool-cases (test r)) [
    | inl hit ↦ rw hit (
        update_each-head step r (find_all test rs) rs d
        ∙ update_each-front step (find_all test rs) (step r r) rs (
            subst (λ k. Differs k (find_all test rs)) (sym (keep r r))
              (Differs-find_all (key r) test rs d))
        ∙ ap (λ xs. step r r ∷ xs) (update_each-map step test keep rs unique))
    | inr miss ↦ rw miss (
        update_each-front step (find_all test rs) r rs (Differs-find_all (key r) test rs d)
        ∙ ap (λ xs. r ∷ xs) (update_each-map step test keep rs unique))
  ]

  -- The loop keeps what each update keeps of a row.
  pub All-update_each {κ} :
      (P : A → Type κ) (step : A → A → A)
      → ((r x : A) → P x → P (step r x))
      → (rs table : List A) → All P table
      → All P (update_each step rs table)
  All-update_each P step keep [] table h = h
  All-update_each P step keep (r ∷ rs) table h =
      All-update_each P step keep rs (update_where (λ x. key x == key r) (step r) table)
        (All-update_where P (λ x. key x == key r) (step r) (keep r) table h)
