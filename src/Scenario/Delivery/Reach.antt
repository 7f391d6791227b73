-- ===== src/Scenario/Delivery/Reach.antt =====
-- Which agents a fault reaches, and what injectFault returns.
use onfire.Prelude.{
  Result, err, ℕ, ◌≡◌, ◌≢◌, ◌↔◌, refl, List, [], ◌∷◌, true, Option, none, some, ok, All, All-map,
  map, get_elem?, Bool-cases, inl, inr, ap, subst,
}
use onfire.Prelude.Int.{ℤ, pos, ltb_ℤ}
use onfire.Scenario.Types.{Tier, Overrides, Fault, VmEntry, VmPlan}
use onfire.Scenario.Plan.{build_vm_plan}
use onfire.Scenario.Targets.{
  TargetError, unknown_vm, unknown_tier, no_target, index_panic, resolve_targets,
}
use onfire.Scenario.Targets.Safety.{IsTarget, IsResolved, resolve_targets-build_vm_plan}
use onfire.Scenario.Delivery.{
  inject_resolved, Post, Outcome, sent, panicked, start_at, stop_at, next_outcome, inject_at,
  inject_fault, stop_posts, stop_fault,
}

-- The VMs at some positions of a plan's slice, each within it.
abbrev pub IsAt : List VmEntry → List ℕ → List VmEntry → Type 0
IsAt vms is es = map (get_elem? vms) is ≡ map (λ e. some e) es

entries_exist :
    (vms : List VmEntry) (is : List ℕ)
    → All (λ i. (e : VmEntry) × (get_elem? vms i ≡ some e)) is
    → (es : List VmEntry) × IsAt vms is es
entries_exist vms [] a = ([], refl)
entries_exist vms (i ∷ is) ((e, h), rest) =
    let (es, same) = entries_exist vms is rest in (e ∷ es, cc)

head-IsAt :
    (vms : List VmEntry) (i : ℕ) (is : List ℕ) (e : VmEntry) (es : List VmEntry)
    → IsAt vms (i ∷ is) (e ∷ es)
    → (get_elem? vms i ≡ some e) × IsAt vms is es
head-IsAt vms i is e es h = (cc, cc)

module _ (answer : Post → Option ℤ) (f : Fault) where
  -- The agent of a VM has taken the fault: its response has a status below 300.
  abbrev pub IsTaken : VmEntry → Type 0
  IsTaken e = (status : ℤ) × (answer (start_at f e) ≡ some status) × (ltb_ℤ status (pos 300) ≡ true)

  inject_at-posts :
      (vms : List VmEntry) (is : List ℕ) (es : List VmEntry) (last : Outcome)
      → IsAt vms is es
      → (inject_at answer f vms is last).posts ≡ map (start_at f) es
  unfolding inject_at
  inject_at-posts vms [] [] last h = refl
  inject_at-posts vms [] (e ∷ es) last h = cc
  inject_at-posts vms (i ∷ is) [] last h = cc
  inject_at-posts vms (i ∷ is) (e ∷ es) last h =
      let (here, there) = head-IsAt vms i is e es h in
      rw (here, inject_at) (ap (λ ps. start_at f e ∷ ps) (inject_at-posts vms is es _ there))

  -- An error is not forgotten.
  inject_at-failed :
      (vms : List VmEntry) (is : List ℕ) (es : List VmEntry) (last : Outcome)
      → IsAt vms is es
      → (last ≢ sent) × (last ≢ panicked)
      → ((inject_at answer f vms is last).outcome ≢ sent)
        × ((inject_at answer f vms is last).outcome ≢ panicked)
  unfolding inject_at
  inject_at-failed vms [] [] last h bad = bad
  inject_at-failed vms [] (e ∷ es) last h bad = cc
  inject_at-failed vms (i ∷ is) [] last h bad = cc
  inject_at-failed vms (i ∷ is) (e ∷ es) last h bad =
      let (here, there) = head-IsAt vms i is e es h in
      rw (here, inject_at) (inject_at-failed vms is es _ there (still_bad (answer (start_at f e))))
    where
      still_bad :
          (a : Option ℤ) → (next_outcome e a last ≢ sent) × (next_outcome e a last ≢ panicked)
      still_bad none = ((λ c. cc), λ c. cc)
      still_bad (some status) = elim (Bool-cases (ltb_ℤ status (pos 300))) [
        | inl t ↦ rw t bad
        | inr t ↦ rw t ((λ c. cc), λ c. cc)
      ]

  inject_at-outcome :
      (vms : List VmEntry) (is : List ℕ) (es : List VmEntry)
      → IsAt vms is es
      → ((inject_at answer f vms is sent).outcome ≢ panicked)
        × (((inject_at answer f vms is sent).outcome ≡ sent) ↔ All IsTaken es)
  unfolding inject_at
  inject_at-outcome vms [] [] h = ((λ c. cc), ((λ c. tt), λ c. refl))
  inject_at-outcome vms [] (e ∷ es) h = cc
  inject_at-outcome vms (i ∷ is) [] h = cc
  inject_at-outcome vms (i ∷ is) (e ∷ es) h =
      let (here, there) = head-IsAt vms i is e es h in
      rw (here, inject_at)
        (go there (inject_at-outcome vms is es there) (answer (start_at f e)) refl)
    where
      refused :
          {o : Outcome}
          → (o ≢ sent) × (o ≢ panicked)
          → (IsTaken e → ⊥)
          → (o ≢ panicked) × ((o ≡ sent) ↔ (IsTaken e × All IsTaken es))
      refused bad none_taken = (bad.1, ((λ s. absurd (bad.0 s)), λ a. absurd (none_taken a.0)))

      taken :
          {o : Outcome}
          → IsTaken e
          → (o ≢ panicked) × ((o ≡ sent) ↔ All IsTaken es)
          → (o ≢ panicked) × ((o ≡ sent) ↔ (IsTaken e × All IsTaken es))
      taken t (p, (l, r)) = (p, ((λ s. (t, l s)), λ a. r a.1))

      go :
          IsAt vms is es
          → ((inject_at answer f vms is sent).outcome ≢ panicked)
            × (((inject_at answer f vms is sent).outcome ≡ sent) ↔ All IsTaken es)
          → (a : Option ℤ) → answer (start_at f e) ≡ a
          → ((inject_at answer f vms is (next_outcome e a sent)).outcome ≢ panicked)
            × (((inject_at answer f vms is (next_outcome e a sent)).outcome ≡ sent)
                ↔ (IsTaken e × All IsTaken es))
      go there later none got =
          refused (inject_at-failed vms is es _ there ((λ c. cc), λ c. cc)) (λ t. cc)
      go there later (some status) got = elim (Bool-cases (ltb_ℤ status (pos 300))) [
        | inl t ↦ rw t (taken (status, got, t) later)
        | inr t ↦ rw t (refused (inject_at-failed vms is es _ there ((λ c. cc), λ c. cc)) (λ w. cc))
      ]

stop_posts-eq_map :
    (f : Fault) (vms : List VmEntry) (is : List ℕ) (es : List VmEntry)
    → IsAt vms is es
    → stop_posts f vms is ≡ record { posts = map (stop_at f) es; outcome = sent }
unfolding stop_posts
stop_posts-eq_map f vms [] [] h = refl
stop_posts-eq_map f vms [] (e ∷ es) h = cc
stop_posts-eq_map f vms (i ∷ is) [] h = cc
stop_posts-eq_map f vms (i ∷ is) (e ∷ es) h =
    let (here, there) = head-IsAt vms i is e es h in
    rw (here, stop_posts) (rw (stop_posts-eq_map f vms is es there) refl)

-- On a plan that BuildVMPlan has returned, and for a fault whose target resolves: injectFault posts
-- the fault once to the agent of each VM of the target, in order and whatever the agents answer;
-- it returns nil exactly when every agent answers with a status below 300, and never indexes out of
-- range; and stopFault posts to the same agents in the same order.
pub inject_fault-reaches-All :
    (answer : Post → Option ℤ) (tiers : List Tier) (o : Overrides) (plan : VmPlan) (f : Fault)
    (is : List ℕ)
    → build_vm_plan tiers o ≡ ok plan
    → resolve_targets f.target plan ≡ ok is
    → (es : List VmEntry) × IsAt plan.vms is es
      × ((inject_fault answer f plan).posts ≡ map (start_at f) es)
      × ((inject_fault answer f plan).outcome ≢ panicked)
      × (((inject_fault answer f plan).outcome ≡ sent) ↔ All (IsTaken answer f) es)
      × (stop_fault f plan ≡ record { posts = map (stop_at f) es; outcome = sent })
unfolding inject_fault stop_fault
inject_fault-reaches-All answer tiers o plan f is built found =
    let resolved =
      subst (IsResolved (IsTarget f.target plan)) found
        (resolve_targets-build_vm_plan tiers o plan f.target built) in
    let (es, places) = entries_exist plan.vms is (All-map _ _ (λ i t. (t.0, t.1)) is resolved.1) in
    let (safe, exact) = inject_at-outcome answer f plan.vms is es places in
    (
      es,
      places,
      rw found (inject_at-posts answer f plan.vms is es sent places),
      rw found safe,
      rw found exact,
      rw found (stop_posts-eq_map f plan.vms is es places),
    )

-- Whatever a fault targets: on a built plan injectFault never indexes out of range.
pub inject_fault-ne-panicked :
    (answer : Post → Option ℤ) (tiers : List Tier) (o : Overrides) (plan : VmPlan) (f : Fault)
    → build_vm_plan tiers o ≡ ok plan
    → (inject_fault answer f plan).outcome ≢ panicked
unfolding inject_fault
inject_fault-ne-panicked answer tiers o plan f built =
    go (resolve_targets f.target plan) refl
      (resolve_targets-build_vm_plan tiers o plan f.target built)
  where
    go :
        (res : Result TargetError (List ℕ))
        → resolve_targets f.target plan ≡ res
        → IsResolved (IsTarget f.target plan) res
        → (inject_resolved answer f plan res).outcome ≢ panicked
    go (ok is) e a h =
        let (es, places) = entries_exist plan.vms is (All-map _ _ (λ i t. (t.0, t.1)) is a.1) in
        (inject_at-outcome answer f plan.vms is es places).0 h
    go (err index_panic) e a h = absurd (a refl)
    go (err unknown_vm) e a h = cc
    go (err unknown_tier) e a h = cc
    go (err no_target) e a h = cc
