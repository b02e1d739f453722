-- ===== src/Prelude/Numbers.antt =====
-- Python's `int | float` as a type `V` with the operations and tests that the program uses. What they
-- compute is a parameter; a theorem that needs a law of them states it.
use mathlib.Core.Bool.{Bool}
use geopilot_hvac.Prelude.Int.{ℤ}

pub record Numbers (V : Type 0) : Type 0 where
  pub of_int : ℤ → V
  pub plus : V → V → V
  pub minus : V → V → V
  pub times : V → V → V
  pub divided : V → V → V
  pub is_finite : V → Bool
  pub same : V → V → Bool
