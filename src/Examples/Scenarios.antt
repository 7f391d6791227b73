-- ===== src/Examples/Scenarios.antt =====
-- Package scenario at the sample.
use onfire.Prelude.{ℕ, ◌-◌, ◌*◌, ◌+◌, ◌++◌, ◌≡◌, refl, [], ◌∷◌, ok, arith, get_elem?}
use onfire.Prelude.Int.{ℤ, pos}
use onfire.Prelude.Text.{codes, or_else}
use onfire.Scenario.Types.{Tier, Scenario, VmPlan, VmEntry, default_scoring}
use onfire.Scenario.Parser.{validate}
use onfire.Scenario.Parser.Validity.{IsValidScenario, HasSameContent, validate-IsValidScenario}
use onfire.Scenario.Plan.{build_vm_plan}
use onfire.Scenario.Plan.Invariant.{IsIndexed, build_vm_plan-IsIndexed}
use onfire.Scenario.Targets.{resolve_targets}
use onfire.Scenario.Targets.Safety.{IsTarget, IsResolved, resolve_targets-build_vm_plan}
use onfire.Scenario.Score.{Score, current}
use onfire.Scenario.Score.Exact.{current-eq_sub}
use onfire.Scenario.Runner.{Runner, new_runner, request_hint_text, current_score}
use onfire.Scenario.Runner.Hints.{exhausted_hint_costs}
use onfire.Examples.Sample.{thousandths, web_tier, db_tier, web_target, sample, sample_options}

-- What validate makes of the sample: the empty tier gets a VM, and the score its defaults.
abbrev pub valid_sample : Scenario ℤ
valid_sample = record sample {
  environment = record sample.environment {
    tiers = web_tier ∷ record db_tier { count = pos 1 } ∷ [];
  };
  scoring = record {
    base = pos 100;
    time_penalty_per_second = pos 50;
    hint_penalty = pos 10;
    perfect_window = codes "5m";
  };
}

sample_validates : validate thousandths sample ≡ ok valid_sample
unfolding validate default_scoring
sample_validates = refl

validate-IsValidScenario_example :
    IsValidScenario valid_sample
    × HasSameContent thousandths sample valid_sample
    × (validate thousandths valid_sample ≡ ok valid_sample)
validate-IsValidScenario_example =
    validate-IsValidScenario thousandths sample valid_sample sample_validates

abbrev pub entry : Tier → ℕ → ℕ → VmEntry
entry t slot j = record {
  index = or_else (get_elem? sample_options.overrides.vm_ids slot) slot;
  name = t.name ++ (b'-' ∷ ((b'0' + j) ∷ []));
  tier = t.name;
  tier_index = j;
  vcpus = t.vcpus;
  mem_mb = t.mem_mb;
  disk_mb = t.disk_mb;
  services = t.services;
}

-- Three web VMs by the override, one database; the third and fourth have no allocated ID.
abbrev pub sample_plan : VmPlan
sample_plan = record {
  total_vms = 4;
  vms = entry web_tier 0 0 ∷ entry web_tier 1 1 ∷ entry web_tier 2 2 ∷ entry db_tier 3 0 ∷ [];
  by_name = (codes "web-0", 0) ∷ (codes "web-1", 1) ∷ (codes "web-2", 2) ∷ (codes "db-0", 3) ∷ [];
  by_tier = (codes "web", 0 ∷ 1 ∷ 2 ∷ []) ∷ (codes "db", 3 ∷ []) ∷ [];
}

pub plan_sample :
    build_vm_plan valid_sample.environment.tiers sample_options.overrides ≡ ok sample_plan
unfolding build_vm_plan
plan_sample = refl

build_vm_plan-IsIndexed_example : IsIndexed sample_options.overrides sample_plan
build_vm_plan-IsIndexed_example =
    build_vm_plan-IsIndexed valid_sample.environment.tiers sample_options.overrides sample_plan
      plan_sample

resolve_targets-build_vm_plan_example :
    IsResolved (IsTarget web_target sample_plan) (resolve_targets web_target sample_plan)
resolve_targets-build_vm_plan_example =
    resolve_targets-build_vm_plan valid_sample.environment.tiers sample_options.overrides
      sample_plan web_target plan_sample

abbrev minute_run : Score ℤ
minute_run = record {
  base = pos 100;
  elapsed = pos 60_000_000_000;
  hints_used = pos 2;
  hint_penalty = pos 10;
  time_penalty_per_second = pos 500;
}

current-eq_sub_example : current thousandths minute_run ≡ pos (100 - 30 - 2 * 10)
current-eq_sub_example =
    current-eq_sub thousandths minute_run 100 30 2 10 refl refl refl refl (omega arith)
      (omega arith) (omega arith)

abbrev pub sample_runner : Runner ℤ
sample_runner = record {
  scenario = valid_sample;
  plan = sample_plan;
  opts = sample_options;
  score = record {
    base = pos 100;
    elapsed = pos 0;
    hints_used = pos 0;
    hint_penalty = pos 10;
    time_penalty_per_second = pos 50;
  };
  hints_used = 0;
}

pub new_runner_sample : new_runner valid_sample sample_options ≡ ok sample_runner
unfolding new_runner
new_runner_sample = refl

abbrev spent_runner : Runner ℤ
spent_runner = record sample_runner { hints_used = 2 }

exhausted_hint_costs_example :
    let (next, text) = request_hint_text spent_runner in
    (text ≡ [])
    × ((current_score thousandths spent_runner (pos 60_000_000_000)).1 ≡ pos 77)
    × ((current_score thousandths next (pos 60_000_000_000)).1 ≡ pos 67)
exhausted_hint_costs_example =
    exhausted_hint_costs thousandths spent_runner (pos 60_000_000_000) 100 3 10 (omega arith) refl
      refl refl (omega arith) (omega arith) (omega arith)
