-- ===== src/Scenario/Plan/Invariant.antt =====
-- What every plan that BuildVMPlan returns satisfies: the two maps hold positions in the slice of
-- VMs, of the right VMs, and no tier's list is empty.
use onfire.Prelude.{
  ℕ, zero, suc, ◌+◌, ◌≡◌, ◌≢◌, refl, ap, subst, List, [], ◌∷◌, ◌++◌, true, ◌⊎◌, some, length,
  get_elem?, All, All-append, All-map, contains, arith, Bool-cases, Option-cases, inl, inr,
  get_elem?-append_left, get_elem?-append_last, get_elem?-append_cases, length-append,
  contains-append, ==_refl, some_eq_some, ok, Result-cases, ok_eq_ok,
}
use onfire.Prelude.Text.{Text, text_eq, text_eq_iff, or_else}
use onfire.Prelude.Int.{pos_part}
use onfire.Prelude.Dict.{lookup, lookup-insert}
use onfire.Scenario.Types.{Tier, VmEntry, VmPlan, Overrides}
use onfire.Scenario.Plan.{
  tier_count, vm_name, new_entry, add_vm, add_vms, add_tiers, empty_plan, build_vm_plan,
}

-- Position `i` holds a VM of this name; of this tier.
abbrev pub HasName : List VmEntry → Text → ℕ → Type 0
HasName vms k i = (e : VmEntry) × (get_elem? vms i ≡ some e) × (e.name ≡ k)

abbrev pub HasTier : List VmEntry → Text → ℕ → Type 0
HasTier vms t i = (e : VmEntry) × (get_elem? vms i ≡ some e) × (e.tier ≡ t)

pub record IsIndexed (o : Overrides) (plan : VmPlan) : Type 0 where
  pub counted : plan.total_vms ≡ length plan.vms
  pub named : (k : Text) (i : ℕ) → lookup k plan.by_name ≡ some i → HasName plan.vms k i
  pub tiered :
      (t : Text) (is : List ℕ)
      → lookup t plan.by_tier ≡ some is
      → (is ≢ []) × All (HasTier plan.vms t) is
  pub covered :
      (i : ℕ) (e : VmEntry)
      → get_elem? plan.vms i ≡ some e
      → (contains i (or_else (lookup e.tier plan.by_tier) []) ≡ true)
        × (e.index ≡ or_else (get_elem? o.vm_ids i) i)

HasName-append :
    (vms : List VmEntry) (a : VmEntry) (k : Text) (i : ℕ)
    → HasName vms k i
    → HasName (vms ++ (a ∷ [])) k i
HasName-append vms a k i (e, at, name) = (e, get_elem?-append_left vms _ i at, name)

HasTier-append :
    (vms : List VmEntry) (a : VmEntry) (t : Text) (i : ℕ)
    → HasTier vms t i
    → HasTier (vms ++ (a ∷ [])) t i
HasTier-append vms a t i (e, at, tier) = (e, get_elem?-append_left vms _ i at, tier)

append-ne-nil : (is : List ℕ) (i : ℕ) → is ++ (i ∷ []) ≢ []
append-ne-nil [] i e = cc
append-ne-nil (j ∷ is) i e = cc

module _ (o : Overrides) (tier : Tier) (j : ℕ) (plan : VmPlan) (inv : IsIndexed o plan) where
  entry : VmEntry
  entry = new_entry o tier plan.total_vms j

  old_indices : List ℕ
  old_indices = or_else (lookup tier.name plan.by_tier) []

  old_indices-HasTier : All (HasTier (plan.vms ++ (entry ∷ [])) tier.name) old_indices
  unfolding old_indices
  old_indices-HasTier = elim (Option-cases (lookup tier.name plan.by_tier)) [
    | inl e ↦ rw e tt
    | inr (is, e) ↦
        rw e
          (All-map _ _ (HasTier-append plan.vms entry tier.name) is (inv.tiered tier.name is e).1)
  ]

  add_vm-named :
      (k : Text) (i : ℕ)
      → lookup k (add_vm o tier j plan).by_name ≡ some i
      → HasName (add_vm o tier j plan).vms k i
  unfolding add_vm new_entry entry
  add_vm-named k i h = elim (Bool-cases (text_eq (vm_name tier.name j) k)) [
    | inl same ↦
        let at : length plan.vms ≡ i = some_eq_some (rw (lookup-insert, same) at h) in
        subst (HasName _ k) at
          (entry, get_elem?-append_last plan.vms entry, (text_eq_iff _ k).0 same)
    | inr other ↦ HasName-append plan.vms entry k i (inv.named k i (rw (lookup-insert, other) at h))
  ]

  add_vm-tiered :
      (t : Text) (is : List ℕ)
      → lookup t (add_vm o tier j plan).by_tier ≡ some is
      → (is ≢ []) × All (HasTier (add_vm o tier j plan).vms t) is
  unfolding add_vm new_entry entry old_indices
  add_vm-tiered t is h = elim (Bool-cases (text_eq tier.name t)) [
    | inl same ↦
        let at : old_indices ++ (length plan.vms ∷ []) ≡ is =
          some_eq_some (rw (lookup-insert, same) at h) in
        subst (λ l. (l ≢ []) × All (HasTier (add_vm o tier j plan).vms t) l) at
          (
            append-ne-nil old_indices _,
            subst
                (λ u.
                  All (HasTier (add_vm o tier j plan).vms u)
                    (old_indices ++ (length plan.vms ∷ [])))
                ((text_eq_iff _ t).0 same)
                (All-append _ old_indices _ old_indices-HasTier
                  ((entry, get_elem?-append_last plan.vms entry, refl), tt)),
          )
    | inr other ↦
        let kept = inv.tiered t is (rw (lookup-insert, other) at h) in
        (kept.0, All-map _ _ (HasTier-append plan.vms entry t) is kept.1)
  ]

  contains-add_vm :
      (i : ℕ) (t : Text)
      → (contains i (or_else (lookup t plan.by_tier) []) ≡ true)
        ⊎ ((tier.name ≡ t) × (i ≡ length plan.vms))
      → contains i (or_else (lookup t (add_vm o tier j plan).by_tier) []) ≡ true
  unfolding add_vm
  contains-add_vm i t h = ground (
    arith,
    lookup-insert tier.name t (or_else (lookup tier.name plan.by_tier) [] ++ (length plan.vms ∷ []))
        plan.by_tier,
    contains-append i (or_else (lookup tier.name plan.by_tier) []) (length plan.vms ∷ []),
    text_eq_iff tier.name t,
    ==_refl (length plan.vms),
  )

  add_vm-covered :
      (i : ℕ) (e : VmEntry)
      → get_elem? (add_vm o tier j plan).vms i ≡ some e
      → (contains i (or_else (lookup e.tier (add_vm o tier j plan).by_tier) []) ≡ true)
        × (e.index ≡ or_else (get_elem? o.vm_ids i) i)
  unfolding add_vm new_entry entry
  add_vm-covered i e h = elim (get_elem?-append_cases plan.vms entry i h) [
    | inl old ↦ let kept = inv.covered i e old in (contains-add_vm i e.tier (inl kept.0), kept.1)
    | inr (last, same) ↦ (
      contains-add_vm i e.tier (inr (ap (λ (x : VmEntry). x.tier) same, last)),
      ground (arith, inv.counted),
    )
  ]

  add_vm-counted : (add_vm o tier j plan).total_vms ≡ length (add_vm o tier j plan).vms
  unfolding add_vm
  add_vm-counted =
      omega (arith, inv.counted, length-append plan.vms (new_entry o tier plan.total_vms j ∷ []))

  add_vm-IsIndexed : IsIndexed o (add_vm o tier j plan)
  add_vm-IsIndexed = record {
    counted = add_vm-counted;
    named = add_vm-named;
    tiered = add_vm-tiered;
    covered = add_vm-covered;
  }

add_vms-IsIndexed :
    (o : Overrides) (tier : Tier) (rounds j : ℕ) (plan : VmPlan)
    → IsIndexed o plan
    → IsIndexed o (add_vms o tier rounds j plan)
unfolding add_vms
add_vms-IsIndexed o tier zero j plan inv = inv
add_vms-IsIndexed o tier (suc rounds) j plan inv =
    add_vms-IsIndexed o tier rounds (j + 1) (add_vm o tier j plan)
      (add_vm-IsIndexed o tier j plan inv)

-- A property of the plan that every round keeps holds of the result.
add_tiers_induction {ℓ} :
    (P : VmPlan → Type ℓ) (o : Overrides) (tiers : List Tier) (start plan : VmPlan)
    → ((tier : Tier) (rounds : ℕ) (p : VmPlan) → P p → P (add_vms o tier rounds 0 p))
    → P start
    → add_tiers o tiers start ≡ ok plan
    → P plan
unfolding add_tiers
add_tiers_induction P o [] start plan keep h e = subst P (ok_eq_ok e) h
add_tiers_induction P o (tier ∷ tiers) start plan keep h e =
    elim (Result-cases (tier_count o tier)) [
      | inl (count, c) ↦
          add_tiers_induction P o tiers _ plan keep (keep tier (pos_part count) start h) (rw c at e)
      | inr (x, c) ↦ cc (rw c at e)
    ]

IsIndexed-empty : (o : Overrides) → IsIndexed o empty_plan
unfolding lookup
IsIndexed-empty o = record {
  counted = refl;
  named = λ k i h. cc;
  tiered = λ t is h. cc;
  covered = λ i e h. cc h;
}

-- Whatever the tiers and the overrides, a plan that BuildVMPlan returns is indexed: its total is
-- the number of its VMs; every entry of ByName is the position of a VM of that name; every entry of
-- ByTier is a list, not empty, of positions of VMs of that tier; and each VM's position stands in
-- the list of its tier, and its Index is the allocated ID of its position (or the position itself).
pub build_vm_plan-IsIndexed :
    (tiers : List Tier) (o : Overrides) (plan : VmPlan)
    → build_vm_plan tiers o ≡ ok plan
    → IsIndexed o plan
unfolding build_vm_plan
build_vm_plan-IsIndexed tiers o plan e =
    add_tiers_induction (IsIndexed o) o tiers empty_plan plan
      (λ tier rounds p inv. add_vms-IsIndexed o tier rounds 0 p inv) (IsIndexed-empty o) e
