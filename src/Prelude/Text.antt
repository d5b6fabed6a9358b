-- ===== src/Prelude/Text.antt =====
-- Joining, comparing and taking apart texts.
use Prim.Native.Nat.{ℕ, ◌+◌}
use Prim.Native.String.{String, ◌++◌, len, slice, compare}
use mathlib.Core.Bool.{Bool}
use mathlib.Core.Option.{Option, none, some}
use text.Mathlib.Text.{find?, is_le}
pub use text.Mathlib.Text.{starts_with}

-- `${a}${b}`.
infixr 65 ◌<>◌
abbrev pub ◌<>◌ : String → String → String
a <> b = a ++ b

abbrev pub leb_text : String → String → Bool
leb_text a b = is_le (compare a b)

abbrev before : String → Option ℕ → String
before s none = s
before s (some k) = slice s 0 k

abbrev second : String → Option ℕ → Option String
second s none = none
second s (some k) = let rest = slice s (k + 1) (len s) in some (before rest (find? rest ":"))

-- `s.split(':')[1]`.
unfoldable pub second_part : String → Option String
second_part s = second s (find? s ":")
