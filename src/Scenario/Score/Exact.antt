-- ===== src/Scenario/Score/Exact.antt =====
-- Where no product or difference leaves int64, the score is the one that one reads off the formula.
use onfire.Prelude.{ℕ, ◌-◌, ◌*◌, ◌<◌, ◌≡◌, arith, if◌then◌else◌}
use onfire.Prelude.Int.{pos, ◌-ℤ◌, ◌*ℤ◌, ltb_ℤ, wrap64}
use onfire.Scenario.Floats.{FloatOps}
use onfire.Scenario.Score.{Score, time_penalty, current}

pos-*ℤ : (a b : ℕ) → pos a *ℤ pos b ≡ pos (a * b)
unfolding ◌*ℤ◌
pos-*ℤ a b = grind arith

clamped_sub :
    (b t q : ℕ)
    → b < 4611686018427387904
    → t < 4611686018427387904
    → q < 4611686018427387904
    → (let result = wrap64 (wrap64 (pos b -ℤ pos t) -ℤ wrap64 (pos q)) in
        if ltb_ℤ result (pos 0) then pos 0 else result)
      ≡ pos (b - t - q)
unfolding wrap64 ◌-ℤ◌
clamped_sub b t q hb ht hq = ground arith

module _ {R : Type 0} (fl : FloatOps R) where
  -- With a base, a number of hints and a penalty per hint that are not negative, a time penalty that
  -- is not negative, and base, time penalty and hint penalty below 2^62: the score is the base less
  -- both penalties, and 0 where they exceed it. In particular it never exceeds the base.
  pub current-eq_sub :
      (s : Score R) (base time hints penalty : ℕ)
      → s.base ≡ pos base
      → time_penalty fl s ≡ pos time
      → s.hints_used ≡ pos hints
      → s.hint_penalty ≡ pos penalty
      → base < 4611686018427387904
      → time < 4611686018427387904
      → hints * penalty < 4611686018427387904
      → current fl s ≡ pos (base - time - hints * penalty)
  unfolding current
  current-eq_sub s base time hints penalty b t h p lb lt lh =
      rw (b, t, h, p, pos-*ℤ) (clamped_sub base time (hints * penalty) lb lt lh)
