-- ===== src/Scenario/Objectives.antt =====
-- checkAllObjectives, checkObjective, fetchMetrics and fetchServices of scenario/runner.go. What a GET
-- of a URL comes to is an argument: the status, and the value that encoding/json makes of an agent's
-- reply, none where http.Get or the decoder fails.
pub mod Healthy
pub mod Met
use onfire.Prelude.{
  ℕ, List, [], ◌∷◌, ◌++◌, Bool, true, false, ◌&&◌, Option, none, some, Result, ok, err, get_elem?,
  if◌then◌else◌, ◌==◌,
}
use onfire.Prelude.Int.{ℤ, pos, negsuc}
use onfire.Prelude.Text.{Text, codes, text_eq, decimal}
use onfire.Scenario.Floats.{FloatOps}
use onfire.Scenario.Types.{ObjectiveCheck, Objective, VmEntry, VmPlan, agent_url}
use onfire.Scenario.Targets.{TargetError, index_panic, resolve_targets}
use onfire.Scenario.Condition.{AgentMetrics, eval_condition}

pub record AgentService : Type 0 where
  pub name : Text
  pub active : Bool

pub record Network (R : Type 0) : Type 0 where
  pub get_status : Text → Option ℤ
  pub get_metrics : Text → Option (AgentMetrics R)
  pub get_services : Text → Option (List AgentService)

-- `panic` is an index out of range.
pub data Verdict : Type 0 where
  pass fail panic : Verdict

abbrev pub to_verdict : Bool → Verdict
to_verdict true = pass
to_verdict false = fail

abbrev pub int_eq : ℤ → ℤ → Bool
int_eq (pos a) (pos b) = a == b
int_eq (negsuc a) (negsuc b) = a == b
int_eq _ _ = false

-- 0 stands for 200.
abbrev pub wanted_status : ℤ → ℤ
wanted_status (pos n) = if n == 0 then pos 200 else pos n
wanted_status n = n

abbrev pub status_ok : ℤ → Option ℤ → Bool
status_ok expected none = false
status_ok expected (some code) = int_eq code (wanted_status expected)

unfoldable pub is_active : Text → List AgentService → Bool
is_active service [] = false
is_active service (svc ∷ svcs) =
    let rest = is_active service svcs in
    if text_eq svc.name service && svc.active then true else rest

abbrev pub service_ok : Text → Option (List AgentService) → Bool
service_ok service none = false
service_ok service (some svcs) = is_active service svcs

unfoldable pub http_url : VmEntry → Text → Text
http_url e path = codes "http://172.16." ++ (decimal e.index ++ (codes ".2" ++ path))

module _ {R : Type 0} (fl : FloatOps R) (net : Network R) where
  abbrev pub metrics_ok : Text → Text → Option (AgentMetrics R) → Bool
  metrics_ok metric condition none = false
  metrics_ok metric condition (some m) = eval_condition fl m metric condition

  unfoldable pub fetch_metrics : VmEntry → Option (AgentMetrics R)
  unfolding agent_url
  fetch_metrics e = net.get_metrics (agent_url e ++ codes "/metrics")

  unfoldable pub fetch_services : VmEntry → Option (List AgentService)
  unfolding agent_url
  fetch_services e = net.get_services (agent_url e ++ codes "/services")

  -- The switch on the type of the check, for one VM: a type with no case passes, and so does
  -- "file-exists", whose case is empty.
  unfoldable pub check_vm : ObjectiveCheck → VmEntry → Bool
  unfolding http_url is_active eval_condition fetch_metrics fetch_services
  check_vm check e =
      if text_eq check.check_type (codes "http")
      then status_ok check.expected_status (net.get_status (http_url e check.path))
      else if text_eq check.check_type (codes "agent-metric")
      then metrics_ok check.metric check.condition (fetch_metrics e)
      else if text_eq check.check_type (codes "process-running")
      then service_ok check.service (fetch_services e)
      else true

  abbrev check_entry : ObjectiveCheck → Option VmEntry → Verdict → Verdict
  check_entry check none rest = panic
  check_entry check (some e) rest = if check_vm check e then rest else fail

  unfoldable pub check_targets : ObjectiveCheck → List VmEntry → List ℕ → Verdict
  unfolding check_vm
  check_targets check vms [] = pass
  check_targets check vms (i ∷ is) =
      check_entry check (get_elem? vms i) (check_targets check vms is)

  abbrev pub check_resolved : ObjectiveCheck → List VmEntry → Result TargetError (List ℕ) → Verdict
  check_resolved check vms (err index_panic) = panic
  check_resolved check vms (err e) = fail
  check_resolved check vms (ok is) = check_targets check vms is

  unfoldable pub check_objective : VmPlan → Objective → Verdict
  unfolding check_targets resolve_targets
  check_objective plan obj =
      check_resolved obj.check plan.vms (resolve_targets obj.check.target plan)

  abbrev pub and_then : Verdict → Verdict → Verdict
  and_then pass v = v
  and_then fail v = fail
  and_then panic v = panic

  unfoldable pub check_each : VmPlan → List Objective → Verdict
  unfolding check_objective
  check_each plan [] = pass
  check_each plan (obj ∷ objs) = and_then (check_objective plan obj) (check_each plan objs)

abbrev pub is_nonempty : List Objective → Bool
is_nonempty [] = false
is_nonempty (obj ∷ objs) = true

module _ {R : Type 0} (fl : FloatOps R) (net : Network R) where
  abbrev pub all_met : List Objective → Verdict → Verdict
  all_met objs pass = to_verdict (is_nonempty objs)
  all_met objs v = v

  unfoldable pub check_all_objectives : VmPlan → List Objective → Verdict
  unfolding check_each
  check_all_objectives plan objs = all_met objs (check_each fl net plan objs)
