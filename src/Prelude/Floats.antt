-- ===== src/Prelude/Floats.antt =====
-- The arithmetic of `f64` as an interface. Its comparison is read as total where the code sorts or
-- takes a minimum, since none of the values that it compares is NaN.
use Prim.Native.Nat.{ℕ}
use mathlib.Core.Bool.{Bool}

-- `tenths` gives a constant of so many tenths; `at_most` is `<=`.
pub record Floats (F : Type 0) : Type 0 where
  pub of_nat : ℕ → F
  pub tenths : ℕ → F
  pub plus : F → F → F
  pub minus : F → F → F
  pub times : F → F → F
  pub over : F → F → F
  pub smaller : F → F → F
  pub at_most : F → F → Bool

-- The functions of an angle, and the square root.
pub record Angles (F : Type 0) : Type 0 where
  pub to_radians : F → F
  pub sin : F → F
  pub cos : F → F
  pub asin : F → F
  pub sqrt : F → F

-- A constant of so many hundredths, and the cast to an unsigned integer.
pub record Casts (F : Type 0) : Type 0 where
  pub hundredths : ℕ → F
  pub truncate : F → ℕ
