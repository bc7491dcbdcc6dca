-- ===== src/Common/Numbers.antt =====
-- The finite numbers of JavaScript, as the program computes costs with them, and SQLite's SUM over
-- them. A number is given by its code; the operations are those of the platform, which round, so no
-- law of arithmetic is stated but that a number less itself is zero.
use Prim.Native.Nat.{ℕ}
use mathlib.Core.Path.{◌≡◌}
use mathlib.Core.Bool.{Bool, true}
use mathlib.Core.List.{List}

pub record Floats : Type 0 where
  pub zero_cost : ℕ
  pub add : ℕ → ℕ → ℕ
  pub sub : ℕ → ℕ → ℕ
  pub is_negative : ℕ → Bool
  pub is_zero : ℕ → Bool
  pub sum : List ℕ → ℕ
  pub sub_self : (n : ℕ) → is_zero (sub n n) ≡ true
