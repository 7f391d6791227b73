-- ===== src/Scenario/Targets.antt =====
-- ResolveTargets of scenario/parser.go.
pub mod Safety
use onfire.Prelude.{
  ℕ, List, [], ◌∷◌, Bool, ◌||◌, not, Option, none, some, if◌then◌else◌, Result, ok, err,
}
use onfire.Prelude.Text.{Text, codes, text_eq}
use onfire.Prelude.Dict.{lookup}
use onfire.Scenario.Types.{FaultTarget, VmPlan}

-- `index_panic` is the run-time panic of indices[0] on an empty slice.
pub data TargetError : Type 0 where
  unknown_vm unknown_tier no_target index_panic : TargetError

abbrev first_of_indices : List ℕ → Result TargetError (List ℕ)
first_of_indices [] = err index_panic
first_of_indices (i ∷ is) = ok (i ∷ [])

unfoldable pub select_indices : Text → List ℕ → Result TargetError (List ℕ)
select_indices select indices =
    if text_eq select (codes "") || text_eq select (codes "all")
    then ok indices
    else if text_eq select (codes "random(1)") || text_eq select (codes "random")
    then first_of_indices indices
    else if text_eq select (codes "primary")
    then first_of_indices indices
    else ok indices

abbrev resolve_vm : Option ℕ → Result TargetError (List ℕ)
resolve_vm none = err unknown_vm
resolve_vm (some i) = ok (i ∷ [])

abbrev resolve_tier : Text → Option (List ℕ) → Result TargetError (List ℕ)
resolve_tier select none = err unknown_tier
resolve_tier select (some indices) = select_indices select indices

unfoldable pub resolve_targets : FaultTarget → VmPlan → Result TargetError (List ℕ)
unfolding select_indices lookup
resolve_targets target plan =
    if not (text_eq target.vm [])
    then resolve_vm (lookup target.vm plan.by_name)
    else if not (text_eq target.tier [])
    then resolve_tier target.select (lookup target.tier plan.by_tier)
    else err no_target
