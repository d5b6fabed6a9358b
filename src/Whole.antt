-- ===== src/Whole.antt =====
-- Whole numbers as an instance of the number interface, for the tests and the witnesses:
-- `toFixed` and `parseInt` have nothing to do on them.
use nest_js_project.Prelude.{arith, if◌then◌else◌, ◌&&◌}
use nest_js_project.Prelude.Int.{ℤ, pos, ◌+ℤ◌, ◌-ℤ◌, ◌*ℤ◌, ◌/ℤ◌, ltb_ℤ, leb_ℤ}
use nest_js_project.Number.{Number, IsNumber}

instance abbrev pub whole_number : Number ℤ
whole_number = record {
  of_ℕ = pos;
  add = ◌+ℤ◌;
  sub = ◌-ℤ◌;
  mul = ◌*ℤ◌;
  div = ◌/ℤ◌;
  lt = ltb_ℤ;
  le = leb_ℤ;
  eq = λ a b. leb_ℤ a b && leb_ℤ b a;
  max = λ a b. if ltb_ℤ a b then b else a;
  min = λ a b. if ltb_ℤ a b then a else b;
  to_fixed = λ digits a. a;
  parse_int = λ a. a;
}

pub whole-IsNumber : IsNumber ℤ
whole-IsNumber = record {
  lt_irrefl = λ a. ground arith;
  lt_trans = λ a b c p q. ground arith;
  le_of_lt = λ a b p. ground arith;
  le_trans = λ a b c p q. ground arith;
  lt_of_lt_of_le = λ a b c p q. ground arith;
  not_lt_of_le = λ a b p. ground arith;
  literal_refl = λ k. ground arith;
  min_not_above = λ a b. ground arith;
  max_not_below = λ a b. ground arith;
  sub_pos = λ a b p. ground arith;
  sub_le = λ a d b p q. ground arith;
}
