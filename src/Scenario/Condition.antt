-- ===== src/Scenario/Condition.antt =====
-- evalCondition of scenario/runner.go, on the metrics that an agent has reported.
use onfire.Prelude.{[], ◌∷◌, Bool, false, Option, none, some, ◌==◌, if◌then◌else◌}
use onfire.Prelude.Text.{Text, codes, text_eq, trim_space, trim_suffix}
use onfire.Scenario.Floats.{FloatOps}

pub record AgentMetrics (R : Type 0) : Type 0 where
  pub cpu_pct : R
  pub mem_used_pct : R
  pub disk_used_pct : R
  pub disk_free_mb : R
  pub load_avg_1 : R

-- The value of a metric by its name, none for any other name.
unfoldable pub metric_value : {R : Type 0} → AgentMetrics R → Text → Option R
metric_value m metric =
    if text_eq metric (codes "cpu_pct")
    then some m.cpu_pct
    else if text_eq metric (codes "mem_used_pct")
    then some m.mem_used_pct
    else if text_eq metric (codes "disk_used_pct")
    then some m.disk_used_pct
    else if text_eq metric (codes "disk_free_mb")
    then some m.disk_free_mb
    else if text_eq metric (codes "load_avg_1")
    then some m.load_avg_1
    else none

-- The condition without surrounding space and a percent sign.
unfoldable pub normal_condition : Text → Text
unfolding trim_space trim_suffix
normal_condition condition = trim_space (trim_suffix (trim_space condition) (codes "%"))

module _ {R : Type 0} (fl : FloatOps R) where
  abbrev below : R → Option R → Bool
  below val none = false
  below val (some thresh) = fl.lt val thresh

  abbrev beyond : R → Option R → Bool
  beyond val none = false
  beyond val (some thresh) = fl.lt thresh val

  -- The comparison with what stands behind the sign.
  unfoldable pub compare_with : R → Text → Bool
  unfolding trim_space
  compare_with val [] = false
  compare_with val (c ∷ rest) =
      if c == b'<'
      then below val (fl.parse (trim_space rest))
      else if c == b'>'
      then beyond val (fl.parse (trim_space rest))
      else false

  abbrev pub eval_value : Text → Option R → Bool
  eval_value condition none = false
  eval_value condition (some val) = compare_with val (normal_condition condition)

  unfoldable pub eval_condition : AgentMetrics R → Text → Text → Bool
  unfolding metric_value normal_condition compare_with
  eval_condition m metric condition = eval_value condition (metric_value m metric)
