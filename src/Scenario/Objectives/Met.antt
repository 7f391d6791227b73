-- ===== src/Scenario/Objectives/Met.antt =====
-- When a scenario is complete.
use onfire.Prelude.{
  if◌then◌else◌, map, ap, ◌∙◌, ℕ, ◌≡◌, ◌≢◌, refl, ◌↔◌, inl, inr, List, [], ◌∷◌, some, Result, ok,
  err, All, All-map, arith, Bool-cases, Option-cases, get_elem?,
}
use onfire.Prelude.Text.{Text}
use onfire.Scenario.Floats.{FloatOps}
use onfire.Scenario.Types.{Tier, Overrides, ObjectiveCheck, Objective, VmEntry, VmPlan}
use onfire.Scenario.Plan.{build_vm_plan}
use onfire.Scenario.Targets.{
  TargetError, unknown_vm, unknown_tier, no_target, index_panic, resolve_targets,
}
use onfire.Scenario.Targets.Safety.{IsTarget, IsResolved, resolve_targets-build_vm_plan}
use onfire.Scenario.Objectives.Healthy.{IsHealthy}
use onfire.Scenario.Objectives.Healthy.Checks.{check_vm_healthy, healthy_check_vm}
use onfire.Scenario.Objectives.{
  and_then, all_met, Network, pass, fail, panic, check_vm, check_targets, check_resolved,
  check_objective, check_each, is_nonempty, to_verdict, check_all_objectives,
}

-- The objective with another window.
abbrev pub with_window : Text → Objective → Objective
with_window w obj = record obj { check = record obj.check { window = w } }

module _ {R : Type 0} (fl : FloatOps R) (net : Network R) where
  -- A VM of the plan that passes the check.
  abbrev pub Passes : ObjectiveCheck → List VmEntry → ℕ → Type 0
  Passes check vms i = (e : VmEntry) × (get_elem? vms i ≡ some e) × IsHealthy fl net check e

  -- The objective's target resolves, and each of its VMs passes.
  abbrev pub IsMet : VmPlan → Objective → Type 0
  IsMet plan obj =
      (is : List ℕ) × (resolve_targets obj.check.target plan ≡ ok is)
      × All (Passes obj.check plan.vms) is

  check_targets_sound :
      (check : ObjectiveCheck) (vms : List VmEntry) (is : List ℕ)
      → check_targets fl net check vms is ≡ pass
      → All (Passes check vms) is
  unfolding check_targets
  check_targets_sound check vms [] h = tt
  check_targets_sound check vms (i ∷ is) h = elim (Option-cases (get_elem? vms i)) [
    | inl e ↦ cc (rw e at h)
    | inr (x, e) ↦ elim (Bool-cases (check_vm fl net check x)) [
      | inl t ↦ (
        (x, e, check_vm_healthy fl net check x t),
        check_targets_sound check vms is (rw (e, t) at h),
      )
      | inr f ↦ cc (rw (e, f) at h)
    ]
  ]

  check_targets_complete :
      (check : ObjectiveCheck) (vms : List VmEntry) (is : List ℕ)
      → All (Passes check vms) is
      → check_targets fl net check vms is ≡ pass
  unfolding check_targets
  check_targets_complete check vms [] h = refl
  check_targets_complete check vms (i ∷ is) ((x, e, t), rest) =
      rw e (rw (healthy_check_vm fl net check x t) (check_targets_complete check vms is rest))

  check_targets-ne-panic :
      (check : ObjectiveCheck) (vms : List VmEntry) (is : List ℕ)
      → All (λ i. (e : VmEntry) × (get_elem? vms i ≡ some e)) is
      → check_targets fl net check vms is ≢ panic
  unfolding check_targets
  check_targets-ne-panic check vms [] a h = cc
  check_targets-ne-panic check vms (i ∷ is) ((x, e), rest) h =
      elim (Bool-cases (check_vm fl net check x)) [
        | inl t ↦ check_targets-ne-panic check vms is rest (rw (e, t) at h)
        | inr f ↦ cc (rw (e, f) at h)
      ]

  check_objective_sound :
      (plan : VmPlan) (obj : Objective) → check_objective fl net plan obj ≡ pass → IsMet plan obj
  unfolding check_objective
  check_objective_sound plan obj h = go (resolve_targets obj.check.target plan) refl h
    where
      go :
          (r : Result TargetError (List ℕ))
          → resolve_targets obj.check.target plan ≡ r
          → check_resolved fl net obj.check plan.vms r ≡ pass
          → IsMet plan obj
      go (ok is) e h' = (is, e, check_targets_sound obj.check plan.vms is h')
      go (err index_panic) e h' = cc
      go (err unknown_vm) e h' = cc
      go (err unknown_tier) e h' = cc
      go (err no_target) e h' = cc

  check_objective_complete :
      (plan : VmPlan) (obj : Objective) → IsMet plan obj → check_objective fl net plan obj ≡ pass
  unfolding check_objective
  check_objective_complete plan obj (is, e, a) =
      rw e (check_targets_complete obj.check plan.vms is a)

  module _ (tiers : List Tier) (o : Overrides) (plan : VmPlan)
      (built : build_vm_plan tiers o ≡ ok plan) where
    check_objective-ne-panic : (obj : Objective) → check_objective fl net plan obj ≢ panic
    unfolding check_objective
    check_objective-ne-panic obj =
        go (resolve_targets obj.check.target plan)
          (resolve_targets-build_vm_plan tiers o plan obj.check.target built)
      where
        go :
            (r : Result TargetError (List ℕ))
            → IsResolved (IsTarget obj.check.target plan) r
            → check_resolved fl net obj.check plan.vms r ≢ panic
        go (ok is) a h =
            check_targets-ne-panic obj.check plan.vms is (All-map _ _ (λ i t. (t.0, t.1)) is a.1) h
        go (err index_panic) a h = a refl
        go (err unknown_vm) a h = cc
        go (err unknown_tier) a h = cc
        go (err no_target) a h = cc

    check_each-ne-panic : (objs : List Objective) → check_each fl net plan objs ≢ panic
    unfolding check_each
    check_each-ne-panic [] h = cc
    check_each-ne-panic (obj ∷ objs) h =
        ground (arith, check_objective-ne-panic obj, check_each-ne-panic objs)

  check_each_iff :
      (plan : VmPlan) (objs : List Objective)
      → (check_each fl net plan objs ≡ pass) ↔ All (IsMet plan) objs
  unfolding check_each
  check_each_iff plan [] = ((λ h. tt), λ a. refl)
  check_each_iff plan (obj ∷ objs) = (
    (λ h. (
      check_objective_sound plan obj (ground arith),
      (check_each_iff plan objs).0 (ground arith),
    )),
    λ a. rw (check_objective_complete plan obj a.0) ((check_each_iff plan objs).1 a.1),
  )

  module _ (window : Text) where
    check_targets-window :
        (check : ObjectiveCheck) (vms : List VmEntry) (is : List ℕ)
        → check_targets fl net (record check { window = window }) vms is
          ≡ check_targets fl net check vms is
    unfolding check_targets check_vm
    check_targets-window check vms [] = refl
    check_targets-window check vms (i ∷ is) = elim (Option-cases (get_elem? vms i)) [
      | inl n ↦ rw n refl
      | inr (e, n) ↦ rw n (
          ap (λ v. if check_vm fl net check e then v else fail) (check_targets-window check vms is))
    ]

    check_objective-window :
        (plan : VmPlan) (obj : Objective)
        → check_objective fl net plan (with_window window obj) ≡ check_objective fl net plan obj
    unfolding check_objective
    check_objective-window plan obj = go (resolve_targets obj.check.target plan)
      where
        go :
            (r : Result TargetError (List ℕ))
            → check_resolved fl net (record obj.check { window = window }) plan.vms r
              ≡ check_resolved fl net obj.check plan.vms r
        go (ok is) = check_targets-window obj.check plan.vms is
        go (err index_panic) = refl
        go (err unknown_vm) = refl
        go (err unknown_tier) = refl
        go (err no_target) = refl

    check_each-window :
        (plan : VmPlan) (objs : List Objective)
        → check_each fl net plan (map (with_window window) objs) ≡ check_each fl net plan objs
    unfolding check_each
    check_each-window plan [] = refl
    check_each-window plan (obj ∷ objs) =
        ap (λ v. and_then fl net v (check_each fl net plan (map (with_window window) objs)))
          (check_objective-window plan obj)
        ∙ ap (and_then fl net (check_objective fl net plan obj)) (check_each-window plan objs)

  -- On a plan that BuildVMPlan has returned, checkAllObjectives never indexes out of range; and it
  -- passes exactly when there is an objective, and each one's target resolves to VMs of the plan
  -- that all pass its check: a page with the status that is expected, a metric of the agent within the
  -- condition, or an active service, by the type of the check, and nothing for another type. How long
  -- the check must pass, its window, has no part in it.
  pub check_all_objectives_iff :
      (tiers : List Tier) (o : Overrides) (plan : VmPlan) (objs : List Objective) (window : Text)
      → build_vm_plan tiers o ≡ ok plan
      → (check_all_objectives fl net plan objs ≢ panic)
        × ((check_all_objectives fl net plan objs ≡ pass) ↔ ((objs ≢ []) × All (IsMet plan) objs))
        × (check_all_objectives fl net plan (map (with_window window) objs)
            ≡ check_all_objectives fl net plan objs)
  unfolding check_all_objectives
  check_all_objectives_iff tiers o plan objs window built = (
    ground (arith, check_each-ne-panic tiers o plan built objs),
    (
      (λ h. (nonempty objs h, (check_each_iff plan objs).0 (ground arith))),
      λ a. rw ((check_each_iff plan objs).1 a.1) (filled objs a.0),
    ),
    windows objs,
  )
    where
      windows :
          (os : List Objective)
          → check_all_objectives fl net plan (map (with_window window) os)
            ≡ check_all_objectives fl net plan os
      windows [] = refl
      windows (x ∷ xs) = ap (all_met fl net (x ∷ xs)) (check_each-window window plan (x ∷ xs))

      nonempty : (os : List Objective) → check_all_objectives fl net plan os ≡ pass → os ≢ []
      nonempty [] h e = cc
      nonempty (x ∷ xs) h e = cc

      filled : (os : List Objective) → os ≢ [] → to_verdict (is_nonempty os) ≡ pass
      filled [] h = absurd (h refl)
      filled (x ∷ xs) h = refl
