-- ===== src/Scenario/Objectives/Healthy.antt =====
-- What the check of an objective asks of a VM: checkObjective and evalCondition of scenario/runner.go.
pub mod Checks
use onfire.Prelude.{
  ◌≡◌, ◌≢◌, ◌↔◌, ◌⊎◌, refl, inl, inr, List, [], ◌∷◌, ◌++◌, ◌&&◌, Bool, true, false, Option, none,
  some, arith, Bool-cases, Option-cases, some_eq_some, subst, sym, ap, ◌∙◌, ==_iff, ◌==◌,
  if◌then◌else◌,
}
use onfire.Prelude.Int.{ℤ, pos, negsuc}
use onfire.Prelude.Text.{Text, codes, text_eq, text_eq_iff, decimal, trim_space, trim_suffix}
use onfire.Scenario.Floats.{FloatOps}
use onfire.Scenario.Types.{ObjectiveCheck, VmEntry, agent_url}
use onfire.Scenario.Condition.{
  AgentMetrics, metric_value, normal_condition, compare_with, eval_value, eval_condition,
}
use onfire.Scenario.Objectives.{
  Network, AgentService, http_url, wanted_status, int_eq, status_ok, metrics_ok, is_active,
  service_ok, fetch_metrics, fetch_services, check_vm,
}

-- The metrics that a condition can be on.
pub data IsMetric {R : Type 0} (m : AgentMetrics R) : Text → R → Type 0 where
  cpu : IsMetric m (codes "cpu_pct") m.cpu_pct
  memory : IsMetric m (codes "mem_used_pct") m.mem_used_pct
  disk : IsMetric m (codes "disk_used_pct") m.disk_used_pct
  free : IsMetric m (codes "disk_free_mb") m.disk_free_mb
  load : IsMetric m (codes "load_avg_1") m.load_avg_1

-- A service of the name is active.
abbrev pub Runs : Text → List AgentService → Type 0
Runs service [] = ⊥
Runs service (svc ∷ svcs) = ((svc.name ≡ service) × (svc.active ≡ true)) ⊎ Runs service svcs

module _ {R : Type 0} (fl : FloatOps R) where
  -- The value is below, or above, the number that stands behind the sign; a percent sign at the end is
  -- dropped.
  abbrev pub Satisfies : R → Text → Type 0
  Satisfies v condition =
      (rest : Text) × (limit : R) × (fl.parse (trim_space rest) ≡ some limit)
      × (((trim_space (trim_suffix (trim_space condition) (codes "%")) ≡ b'<' ∷ rest)
            × (fl.lt v limit ≡ true))
          ⊎ ((trim_space (trim_suffix (trim_space condition) (codes "%")) ≡ b'>' ∷ rest)
              × (fl.lt limit v ≡ true)))

module _ {R : Type 0} (fl : FloatOps R) (net : Network R) (check : ObjectiveCheck)
    (e : VmEntry) where
  -- The page is answered with the status that is expected, which is 200 if none is given.
  abbrev pub IsUp : Type 0
  IsUp =
      (code : ℤ) × (net.get_status
          (codes "http://172.16." ++ (decimal e.index ++ (codes ".2" ++ check.path)))
        ≡ some code)
      × (((check.expected_status ≡ pos 0) × (code ≡ pos 200))
          ⊎ ((check.expected_status ≢ pos 0) × (code ≡ check.expected_status)))

  -- The agent reports the metric, and the condition holds of it.
  abbrev pub IsWithin : Type 0
  IsWithin =
      (m : AgentMetrics R) × (v : R) × (net.get_metrics (agent_url e ++ codes "/metrics") ≡ some m)
      × IsMetric m check.metric v
      × Satisfies fl v check.condition

  -- The agent reports that the service is active.
  abbrev pub IsServing : Type 0
  IsServing =
      (svcs : List AgentService) × (net.get_services (agent_url e ++ codes "/services") ≡ some svcs)
      × Runs check.service svcs

  -- By the type of the check; one of another type, and file-exists among them, asks for nothing.
  abbrev pub IsHealthy : Type 0
  IsHealthy =
      ((check.check_type ≡ codes "http") × IsUp)
      ⊎ ((check.check_type ≡ codes "agent-metric") × IsWithin)
      ⊎ ((check.check_type ≡ codes "process-running") × IsServing)
      ⊎ ((check.check_type ≢ codes "http")
          × (check.check_type ≢ codes "agent-metric")
          × (check.check_type ≢ codes "process-running"))
