-- ===== src/Scenario/Plan.antt =====
-- BuildVMPlan of scenario/parser.go. VM IDs come from the server's allocator and are not negative.
pub mod Invariant
use onfire.Prelude.{
  ℕ, zero, suc, ◌+◌, List, [], ◌∷◌, ◌++◌, Bool, true, false, ◌&&◌, Option, none, some, length,
  get_elem?, if◌then◌else◌, Result, ok, err,
}
use onfire.Prelude.Int.{ℤ, pos, pos_part, ltb_ℤ}
use onfire.Prelude.Text.{Text, decimal, or_else}
use onfire.Prelude.Dict.{Dict, lookup, insert}
use onfire.Scenario.Types.{Tier, VmEntry, VmPlan, Overrides}

pub data PlanError : Type 0 where
  below_min : Text → ℤ → ℤ → PlanError
  above_max : Text → ℤ → ℤ → PlanError

-- The count of a tier once the override of its name, if there is one, has been checked.
unfoldable pub tier_count : Overrides → Tier → Result PlanError ℤ
unfolding lookup
tier_count o tier = elim (lookup tier.name o.scale) [
  | none ↦ ok tier.count
  | some n ↦
      if ltb_ℤ (pos 0) tier.count_min && ltb_ℤ n tier.count_min
      then err (below_min tier.name n tier.count_min)
      else if ltb_ℤ (pos 0) tier.count_max && ltb_ℤ tier.count_max n
      then err (above_max tier.name n tier.count_max)
      else ok n
]

unfoldable pub vm_name : Text → ℕ → Text
unfolding decimal
vm_name tier j = tier ++ (b'-' ∷ decimal j)

unfoldable pub new_entry : Overrides → Tier → ℕ → ℕ → VmEntry
unfolding lookup vm_name
new_entry o tier slot j = record {
  index = or_else (get_elem? o.vm_ids slot) slot;
  name = vm_name tier.name j;
  tier = tier.name;
  tier_index = j;
  vcpus = tier.vcpus;
  mem_mb = tier.mem_mb;
  disk_mb = or_else (lookup tier.name o.disk) tier.disk_mb;
  services = tier.services;
}

-- The loop's body. `total_vms` is the variable slot of the code, which stores it at the end.
unfoldable pub add_vm : Overrides → Tier → ℕ → VmPlan → VmPlan
unfolding new_entry insert
add_vm o tier j plan = record {
  total_vms = plan.total_vms + 1;
  vms = plan.vms ++ (new_entry o tier plan.total_vms j ∷ []);
  by_name = insert (vm_name tier.name j) (length plan.vms) plan.by_name;
  by_tier =
      insert tier.name (or_else (lookup tier.name plan.by_tier) [] ++ (length plan.vms ∷ []))
        plan.by_tier;
}

-- for j := j; j < j + rounds; j++
unfoldable pub add_vms : Overrides → Tier → ℕ → ℕ → VmPlan → VmPlan
unfolding add_vm
add_vms o tier zero j plan = plan
add_vms o tier (suc rounds) j plan = add_vms o tier rounds (j + 1) (add_vm o tier j plan)

abbrev add_tier : Overrides → Tier → Result PlanError ℤ → VmPlan → Result PlanError VmPlan
add_tier o tier (err e) plan = err e
add_tier o tier (ok count) plan = ok (add_vms o tier (pos_part count) 0 plan)

abbrev continue_with :
    Result PlanError VmPlan → (VmPlan → Result PlanError VmPlan) → Result PlanError VmPlan
continue_with (err e) f = err e
continue_with (ok plan) f = f plan

unfoldable pub add_tiers : Overrides → List Tier → VmPlan → Result PlanError VmPlan
unfolding tier_count add_vms
add_tiers o [] plan = ok plan
add_tiers o (tier ∷ tiers) plan =
    continue_with (add_tier o tier (tier_count o tier) plan) (add_tiers o tiers)

abbrev pub empty_plan : VmPlan
empty_plan = record { total_vms = 0; vms = []; by_name = []; by_tier = [] }

unfoldable pub build_vm_plan : List Tier → Overrides → Result PlanError VmPlan
unfolding add_tiers
build_vm_plan tiers o = add_tiers o tiers empty_plan
