-- ===== src/Prelude/Double.antt =====
-- The numbers of JavaScript, which are IEEE doubles: an interface, since their rounding is no part
-- of the program.
use Prim.Native.Nat.{ℕ}
use Prim.Native.String.{String}
use mathlib.Core.Bool.{Bool}

pub record Double : Type 1 where
  pub Number : Type 0
  -- The number that a decimal literal denotes: `literal 9238 4` is 0.9238.
  pub literal : (digits places : ℕ) → Number
  pub add : Number → Number → Number
  pub sub : Number → Number → Number
  pub mul : Number → Number → Number
  pub div : Number → Number → Number
  pub less : Number → Number → Bool
  pub less_eq : Number → Number → Bool
  pub is_finite : Number → Bool
  -- `Number(text)`, `x.toFixed(n)`, `Math.round(x)` and `x.toString()`
  pub of_text : String → Number
  pub fixed : Number → ℕ → String
  pub round : Number → Number
  pub show : Number → String
