-- ===== src/Examples/Deliveries.antt =====
-- Fault delivery, objectives and packages at the sample.
use onfire.Prelude.{
  ◌==◌, true, false, ◌≡◌, ◌≢◌, ◌↔◌, refl, List, [], ◌∷◌, Option, none, some, All, map,
}
use onfire.Prelude.Int.{ℤ, pos}
use onfire.Prelude.Text.{Text, codes}
use onfire.Scenario.Types.{Objective, VmEntry}
use onfire.Scenario.Objectives.{Network, pass, panic, check_all_objectives}
use onfire.Scenario.Objectives.Met.{IsMet, with_window, check_all_objectives_iff}
use onfire.Scenario.Provision.{Ssh, provision_vm, all_commands}
use onfire.Scenario.Provision.Exact.{IsReachable, Succeeds, provision_vm_iff}
use onfire.Scenario.Targets.{resolve_targets}
use onfire.Scenario.Delivery.{Post, start_at, stop_at, panicked, sent, inject_fault, stop_fault}
use onfire.Scenario.Delivery.Reach.{IsAt, IsTaken, inject_fault-reaches-All}
use onfire.Examples.Sample.{thousandths, disk_fault, web_target, sample_options}
use onfire.Examples.Scenarios.{valid_sample, sample_plan, plan_sample}

-- Two services that share a package, and one that the table does not have.
abbrev services : List Text
services = codes "postgres" ∷ codes "postgresql" ∷ codes "cron" ∷ []

-- A VM that answers the second dial.
abbrev late_ssh : Ssh
late_ssh = record {
  interrupted = λ i. false;
  dials = λ i. i == 1;
  opens = λ cmd. true;
  outputs = λ cmd. true;
}

late_commands :
    (provision_vm late_ssh (codes "redis" ∷ []) (codes "ls" ∷ [])).ran
    ≡ codes "apt-get update -qq"
      ∷ codes
          "DEBIAN_FRONTEND=noninteractive apt-get install -y --no-install-recommends redis-server"
      ∷ codes "ls"
      ∷ []
unfolding provision_vm
late_commands = refl

provision_vm_iff_example :
    ((provision_vm late_ssh (codes "redis" ∷ []) (codes "ls" ∷ [])).error ≡ none) ↔ (
      ((provision_vm late_ssh (codes "redis" ∷ []) (codes "ls" ∷ [])).ran
        ≡ all_commands (codes "redis" ∷ []) (codes "ls" ∷ []))
      × IsReachable late_ssh 15 0
      × All (Succeeds late_ssh) (all_commands (codes "redis" ∷ []) (codes "ls" ∷ [])))
provision_vm_iff_example = provision_vm_iff late_ssh (codes "redis" ∷ []) (codes "ls" ∷ [])

-- Every page is found, and no agent answers.
abbrev pub network : Network ℤ
network = record {
  get_status = λ url. some (pos 200);
  get_metrics = λ url. none;
  get_services = λ url. none;
}

abbrev pub pages : Objective
pages = record {
  id = codes "up";
  description = codes "The page is back";
  check = record {
    check_type = codes "http";
    target = web_target;
    path = codes "/";
    expected_status = pos 0;
    window = [];
    metric = [];
    condition = [];
    service = [];
  };
}

check_all_objectives_iff_example :
    (check_all_objectives thousandths network sample_plan (pages ∷ []) ≢ panic)
    × ((check_all_objectives thousandths network sample_plan (pages ∷ []) ≡ pass)
        ↔ (((pages ∷ []) ≢ []) × All (IsMet thousandths network sample_plan) (pages ∷ [])))
    × (check_all_objectives thousandths network sample_plan
          (map (with_window (codes "5m")) (pages ∷ []))
        ≡ check_all_objectives thousandths network sample_plan (pages ∷ []))
check_all_objectives_iff_example =
    check_all_objectives_iff thousandths network valid_sample.environment.tiers
      sample_options.overrides sample_plan (pages ∷ []) (codes "5m") plan_sample

pages_pass : check_all_objectives thousandths network sample_plan (pages ∷ []) ≡ pass
unfolding check_all_objectives
pages_pass = refl

-- Every agent takes the fault.
abbrev pub willing : Post → Option ℤ
willing p = some (pos 200)

inject_fault-reaches-All_example :
    (es : List VmEntry) × IsAt sample_plan.vms (0 ∷ 1 ∷ 2 ∷ []) es
    × ((inject_fault willing disk_fault sample_plan).posts ≡ map (start_at disk_fault) es)
    × ((inject_fault willing disk_fault sample_plan).outcome ≢ panicked)
    × (((inject_fault willing disk_fault sample_plan).outcome ≡ sent)
        ↔ All (IsTaken willing disk_fault) es)
    × (stop_fault disk_fault sample_plan
        ≡ record { posts = map (stop_at disk_fault) es; outcome = sent })
unfolding resolve_targets
inject_fault-reaches-All_example =
    inject_fault-reaches-All willing valid_sample.environment.tiers sample_options.overrides
      sample_plan disk_fault (0 ∷ 1 ∷ 2 ∷ []) plan_sample refl
