-- ===== src/Scenario/Score.antt =====
-- Score and its method Current of scenario/types.go, at int64 with its wrap-around. The elapsed time
-- is in nanoseconds.
pub mod Exact
use onfire.Prelude.{if◌then◌else◌}
use onfire.Prelude.Int.{ℤ, pos, ◌-ℤ◌, ◌*ℤ◌, ltb_ℤ, wrap64}
use onfire.Scenario.Floats.{FloatOps}

pub record Score (R : Type 0) : Type 0 where
  pub base : ℤ
  pub elapsed : ℤ
  pub hints_used : ℤ
  pub hint_penalty : ℤ
  pub time_penalty_per_second : R

module _ {R : Type 0} (fl : FloatOps R) where
  abbrev pub time_penalty : Score R → ℤ
  time_penalty s = fl.to_int (fl.mul (fl.seconds s.elapsed) s.time_penalty_per_second)

  unfoldable pub current : Score R → ℤ
  unfolding ◌-ℤ◌ ◌*ℤ◌ wrap64
  current s =
      let hint_points = wrap64 (s.hints_used *ℤ s.hint_penalty) in
      let result = wrap64 (wrap64 (s.base -ℤ time_penalty s) -ℤ hint_points) in
      if ltb_ℤ result (pos 0) then pos 0 else result
