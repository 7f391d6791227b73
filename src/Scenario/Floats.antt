-- ===== src/Scenario/Floats.antt =====
-- The float64 operations that the code uses, which the language of the proofs does not have: a value
-- of `FloatOps` is a parameter of what computes with them.
use onfire.Prelude.{Bool, Option}
use onfire.Prelude.Int.{ℤ}
use onfire.Prelude.Text.{Text}

pub record FloatOps (R : Type 0) : Type 0 where
  -- Duration.Seconds() of a number of nanoseconds
  pub seconds : ℤ → R
  -- x * y
  pub mul : R → R → R
  -- int(x)
  pub to_int : R → ℤ
  -- x < y
  pub lt : R → R → Bool
  -- strconv.ParseFloat(s, 64), none on an error
  pub parse : Text → Option R
  -- the constant 0.05
  pub five_hundredths : R
