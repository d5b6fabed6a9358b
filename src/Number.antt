-- ===== src/Number.antt =====
-- The numbers of the program's run time: JavaScript's doubles, and the FLOAT columns that hold
-- them. The carrier and its operations are parameters; a client states which law it rests on.
use nest_js_project.Prelude.{
  ℕ, ◌≡◌, Bool, true, false, not, ◌&&◌, Option, none, some, if◌then◌else◌,
}

pub record Number {ℓ} (W : Type ℓ) : Type ℓ where
  pub of_ℕ : ℕ → W  -- an integer literal
  pub add : W → W → W
  pub sub : W → W → W
  pub mul : W → W → W
  pub div : W → W → W
  pub lt : W → W → Bool  -- `a < b`, which is `b > a`
  pub le : W → W → Bool  -- `a <= b`, which is `b >= a`
  pub eq : W → W → Bool  -- `a === b`
  pub max : W → W → W  -- `Math.max(a, b)`
  pub min : W → W → W  -- `Math.min(a, b)`
  pub to_fixed : ℕ → W → W  -- `Number(x.toFixed(digits))`
  pub parse_int : W → W  -- `parseInt(String(x))`

module _ {ℓ} {W : Type ℓ} ⦃num : Number W⦄ where
  open num use {of_ℕ, lt, eq}

  -- `x > 0 ? x : 0`.
  abbrev pub or_zero_if_not_positive : W → W
  or_zero_if_not_positive x = if lt (of_ℕ 0) x then x else of_ℕ 0

  -- A number is falsy if it is zero, or NaN, which no number equals.
  abbrev pub is_truthy : W → Bool
  is_truthy x = not (eq x (of_ℕ 0)) && eq x x

  -- `Number(x || 0)` for a value that may be null or absent.
  abbrev pub number_or_zero : Option W → W
  number_or_zero none = of_ℕ 0
  number_or_zero (some x) = if is_truthy x then x else of_ℕ 0

-- `Number(x)` of a nullable column: null is 0.
module _ {ℓ} {W : Type ℓ} ⦃num : Number W⦄ where
  abbrev pub as_number : Option W → W
  as_number none = num.of_ℕ 0
  as_number (some x) = x

-- Laws of IEEE comparison and subtraction that hold for every double, NaN and the infinities too.
pub record IsNumber {ℓ} (W : Type ℓ) ⦃num : Number W⦄ : Type ℓ where
  pub lt_irrefl : (a : W) → num.lt a a ≡ false
  pub lt_trans : (a b c : W) → num.lt a b ≡ true → num.lt b c ≡ true → num.lt a c ≡ true
  pub le_of_lt : (a b : W) → num.lt a b ≡ true → num.le a b ≡ true
  pub le_trans : (a b c : W) → num.le a b ≡ true → num.le b c ≡ true → num.le a c ≡ true
  pub lt_of_lt_of_le : (a b c : W) → num.lt a b ≡ true → num.le b c ≡ true → num.lt a c ≡ true
  pub not_lt_of_le : (a b : W) → num.le a b ≡ true → num.lt b a ≡ false
  pub literal_refl : (k : ℕ) → num.le (num.of_ℕ k) (num.of_ℕ k) ≡ true
  pub min_not_above : (a b : W) → num.lt b (num.min a b) ≡ false
  pub max_not_below : (a b : W) → num.lt (num.max a b) a ≡ false
  pub sub_pos : (a b : W) → num.lt b a ≡ true → num.lt (num.of_ℕ 0) (num.sub a b) ≡ true
  pub sub_le :
      (a d b : W)
      → num.lt (num.of_ℕ 0) d ≡ true
      → num.lt b a ≡ false
      → num.lt b (num.sub a d) ≡ false
