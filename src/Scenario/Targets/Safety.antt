-- ===== src/Scenario/Targets/Safety.antt =====
-- ResolveTargets on the plans of BuildVMPlan.
use mathlib.Core.Bool.{false≢true}
use onfire.Prelude.{
  ℕ, ◌≡◌, ◌≢◌, refl, List, [], ◌∷◌, true, ◌||◌, some, All, contains, arith, Bool-cases,
  Option-cases, inl, inr, get_elem?, Result, ok, err, subst, All-map, ◌⊎◌,
}
use onfire.Prelude.Text.{Text, codes, text_eq, text_eq_iff, text_eq_refl, text_eq_sound, or_else}
use onfire.Prelude.Dict.{lookup}
use onfire.Scenario.Types.{FaultTarget, VmEntry, VmPlan, Tier, Overrides}
use onfire.Scenario.Plan.{build_vm_plan}
use onfire.Scenario.Plan.Invariant.{HasTier, IsIndexed, build_vm_plan-IsIndexed}
use onfire.Scenario.Targets.{
  TargetError, index_panic, select_indices, resolve_targets, resolve_vm, resolve_tier,
  first_of_indices,
}

-- The VM that a target means: by name if it gives one, and by tier otherwise.
abbrev pub IsTarget : FaultTarget → VmPlan → ℕ → Type 0
IsTarget target plan i =
    (e : VmEntry) × (get_elem? plan.vms i ≡ some e)
    × (target.vm ≢ [] → e.name ≡ target.vm)
    × (target.vm ≡ [] → e.tier ≡ target.tier)

-- What is claimed of a result.
abbrev pub IsResolved : (ℕ → Type 0) → Result TargetError (List ℕ) → Type 0
IsResolved P (ok is) = (is ≢ []) × All P is
IsResolved P (err e) = e ≢ index_panic

first_of_indices-IsResolved :
    (P : ℕ → Type 0) (is : List ℕ) → is ≢ [] → All P is → IsResolved P (first_of_indices is)
first_of_indices-IsResolved P [] h a = absurd (h refl)
first_of_indices-IsResolved P (i ∷ is) h a = ((λ e. cc), (a.0, tt))

select_indices-IsResolved :
    (P : ℕ → Type 0) (select : Text) (is : List ℕ)
    → is ≢ []
    → All P is
    → IsResolved P (select_indices select is)
unfolding select_indices
select_indices-IsResolved P select is h a =
    elim (Bool-cases (text_eq select (codes "") || text_eq select (codes "all"))) [
      | inl e ↦ rw e (h, a)
      | inr e ↦
          rw e
            (elim (Bool-cases
              (text_eq select (codes "random(1)") || text_eq select (codes "random"))) [
                | inl f ↦ rw f (first_of_indices-IsResolved P is h a)
                | inr f ↦ rw f (elim (Bool-cases (text_eq select (codes "primary"))) [
                  | inl g ↦ rw g (first_of_indices-IsResolved P is h a)
                  | inr g ↦ rw g (h, a)
                ])
              ])
    ]

module _ (o : Overrides) (plan : VmPlan) (inv : IsIndexed o plan) (target : FaultTarget) where
  resolve_vm-IsResolved :
      target.vm ≢ []
      → IsResolved (IsTarget target plan) (resolve_vm (lookup target.vm plan.by_name))
  resolve_vm-IsResolved h = elim (Option-cases (lookup target.vm plan.by_name)) [
    | inl e ↦ rw e (λ c. cc)
    | inr (i, e) ↦
        let (x, at, name) = inv.named target.vm i e in
        rw e ((λ c. cc), ((x, at, (λ _. name), λ c. absurd (h c)), tt))
  ]

  tier-IsTarget : target.vm ≡ [] → (i : ℕ) → HasTier plan.vms target.tier i → IsTarget target plan i
  tier-IsTarget h i (e, at, tier) = (e, at, (λ c. absurd (c h)), λ _. tier)

  resolve_tier-IsResolved :
      target.vm ≡ []
      → IsResolved
          (IsTarget target plan)
          (resolve_tier target.select (lookup target.tier plan.by_tier))
  resolve_tier-IsResolved h = elim (Option-cases (lookup target.tier plan.by_tier)) [
    | inl e ↦ rw e (λ c. cc)
    | inr (is, e) ↦
        let (filled, at) = inv.tiered target.tier is e in
        rw e (
          select_indices-IsResolved _ target.select is filled (All-map _ _ (tier-IsTarget h) is at))
  ]

  resolve_targets-IsResolved : IsResolved (IsTarget target plan) (resolve_targets target plan)
  unfolding resolve_targets
  resolve_targets-IsResolved = elim (Bool-cases (text_eq target.vm [])) [
    | inl e ↦ rw e (elim (Bool-cases (text_eq target.tier [])) [
      | inl f ↦ rw f (λ c. cc)
      | inr f ↦ rw f (resolve_tier-IsResolved (text_eq_sound _ _ e))
    ])
    | inr e ↦ rw e (resolve_vm-IsResolved (λ c. cc (e, c, text_eq_refl target.vm)))
  ]

-- On a plan that BuildVMPlan has returned, ResolveTargets never indexes an empty slice; a result is
-- a list, not empty, of positions inside the plan's slice of VMs, each of the VM that the target
-- names, or of a VM of its tier if it names none.
pub resolve_targets-build_vm_plan :
    (tiers : List Tier) (o : Overrides) (plan : VmPlan) (target : FaultTarget)
    → build_vm_plan tiers o ≡ ok plan
    → IsResolved (IsTarget target plan) (resolve_targets target plan)
resolve_targets-build_vm_plan tiers o plan target e =
    resolve_targets-IsResolved o plan (build_vm_plan-IsIndexed tiers o plan e) target

select_indices_all :
    (select : Text) (is : List ℕ)
    → (select ≡ codes "") ⊎ (select ≡ codes "all")
    → select_indices select is ≡ ok is
unfolding select_indices
select_indices_all select is (inl e) = rw e
select_indices_all select is (inr e) = rw e

-- With no VM named, and no selection or the selection "all", every VM of the tier is a target.
pub resolve_targets_all :
    (tiers : List Tier) (o : Overrides) (plan : VmPlan) (target : FaultTarget) (i : ℕ) (e : VmEntry)
    → build_vm_plan tiers o ≡ ok plan
    → target.vm ≡ []
    → target.tier ≢ []
    → (target.select ≡ codes "") ⊎ (target.select ≡ codes "all")
    → get_elem? plan.vms i ≡ some e
    → e.tier ≡ target.tier
    → (is : List ℕ) × (resolve_targets target plan ≡ ok is) × (contains i is ≡ true)
unfolding resolve_targets
resolve_targets_all tiers o plan target i e built no_vm tier sel at same =
    let found : contains i (or_else (lookup target.tier plan.by_tier) []) ≡ true =
      subst (λ t. contains i (or_else (lookup t plan.by_tier) []) ≡ true) same
        ((build_vm_plan-IsIndexed tiers o plan built).covered i e at).0 in
    elim (Option-cases (lookup target.tier plan.by_tier)) [
      | inl missing ↦ absurd (false≢true (rw missing at found))
      | inr (is, here) ↦ (
        is,
        ground (
          arith,
          here,
          text_eq_iff target.vm [],
          text_eq_iff target.tier [],
          select_indices_all target.select is sel,
        ),
        rw here at found,
      )
    ]
