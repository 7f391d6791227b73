-- ===== src/Examples/Injections.antt =====
-- A fault of the sample, and the agents that get it.
use onfire.Prelude.{◌≡◌, ◌≢◌, refl, ap, [], ◌∷◌, true, none, some, contains}
use onfire.Prelude.Text.{Text, codes, has_prefix}
use onfire.Prelude.Dict.{lookup}
use onfire.Scenario.Types.{VmEntry, agent_url}
use onfire.Scenario.Targets.{resolve_targets}
use onfire.Scenario.Delivery.{fault_request, inject_fault, stop_fault}
use onfire.Scenario.Injection.{received, take_posts}
use onfire.Scenario.Injection.Reached.{inject_fault-active}
use onfire.Agent.Faults.{Machine, run_fault, new_agent}
use onfire.Examples.Sample.{web_tier, disk_fault, sample_options}
use onfire.Examples.Scenarios.{valid_sample, sample_plan, plan_sample, entry}
use onfire.Examples.Deliveries.{willing}

-- A machine on which every command succeeds.
abbrev able : Machine
able = record { runs = λ c. true; appends = true; parse_duration = λ t. none }

abbrev second_vm : VmEntry
second_vm = entry web_tier 1 1

abbrev elsewhere : Text
elsewhere = codes "http://10.0.0.1:7777"

not_elsewhere : (d : VmEntry) → agent_url d ≢ elsewhere
unfolding agent_url has_prefix
not_elsewhere d e = cc (ap (has_prefix (codes "http://172")) e)

inject_fault-active_example :
    let starting = (inject_fault willing disk_fault sample_plan).posts in
    let stopping = (stop_fault disk_fault sample_plan).posts in
    let b = take_posts able (agent_url second_vm) starting new_agent in
    let c = take_posts able (agent_url second_vm) stopping b in
    (lookup (codes "fill") b.active ≡ some 0)
    × (lookup (codes "fill") c.active ≡ none)
    × (contains 0 c.cancelled ≡ true)
    × (take_posts able elsewhere starting new_agent ≡ new_agent)
    × (take_posts able elsewhere stopping new_agent ≡ new_agent)
unfolding resolve_targets received fault_request run_fault
inject_fault-active_example =
    inject_fault-active willing valid_sample.environment.tiers sample_options.overrides sample_plan
      disk_fault (0 ∷ 1 ∷ 2 ∷ []) 1 second_vm able new_agent elsewhere able new_agent plan_sample
      refl refl refl refl refl (λ j d there at. not_elsewhere d)
