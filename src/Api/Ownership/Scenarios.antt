-- ===== src/Api/Ownership/Scenarios.antt =====
-- The handlers and the goroutine of api/scenario.go keep the ledger.
use onfire.Prelude.{
  ℕ, ◌≡◌, refl, List, [], true, false, Option, none, some, Result, ok, err, arith, Bool-cases,
  Option-cases, inl, inr, if◌then◌else◌, subst,
}
use onfire.Prelude.Int.{ℤ}
use onfire.Prelude.Text.{Text, text_eq_iff}
use onfire.Prelude.Dict.{lookup, insert, lookup-insert}
use onfire.Scenario.Floats.{FloatOps}
use onfire.Scenario.Types.{Scenario, VmPlan}
use onfire.Scenario.Parser.{LoadError}
use onfire.Scenario.Plan.{PlanError}
use onfire.Scenario.Runner.{Runner}
use onfire.Vm.Config.{is_empty}
use onfire.Api.Ids.{allocate_vm_ids, mark_ids, release_vm_ids}
use onfire.Api.Ids.Allocation.{not_used_of_allocated, release-allocate_restores}
use onfire.Api.State.{ScenarioEntry, Server, finished, modify}
use onfire.Api.Scenarios.{
  ScenarioCreateRequest, new_scenario, add_scenario, plan_scenario, start_scenario, create_scenario,
  refreshed, get_scenario, give_hint, hint_scenario, delete_scenario, end_scenario, final_status,
}
use onfire.Api.Ownership.Ledger.{
  Owner, fleet, scenario, owner_eq, IsOwned, IsOwned-keep, IsOwned-grant, IsOwned-end,
}
use onfire.Api.Ownership.{Inv, IsCalm, held, zombie, is_unfinished}

module _ {R : Type 0} (s : Server R) (inv : Inv s) where
  -- The entry of `id` is replaced by one with the same IDs, and a goroutine as far as the old one's.
  replace-Inv :
      (id : Text) (e e' : ScenarioEntry R)
      → lookup id s.scenarios ≡ some e
      → e'.vm_ids ≡ e.vm_ids
      → e'.phase ≡ e.phase
      → Inv (record s { scenarios = insert id e' s.scenarios })
  replace-Inv id e e' at same phase = record {
    owned = IsOwned-keep inv.owned _ _ _ holds zombies (λ x. refl);
    settled = inv.settled;
  }
    where
      next : Server R
      next = record s { scenarios = insert id e' s.scenarios }

      holds : (a : Owner) → held next a ≡ held s a
      holds (fleet j) = refl
      holds (scenario j) = ground (arith, lookup-insert id j e' s.scenarios, text_eq_iff id j)

      zombies : (a : Owner) → zombie next a ≡ false → zombie s a ≡ false
      zombies (fleet j) = λ z. z
      zombies (scenario j) = λ z. z

  pub delete_scenario-Inv : (id : Text) → Inv (delete_scenario id s).0
  unfolding delete_scenario
  delete_scenario-Inv id = elim (Option-cases (lookup id s.scenarios)) [
    | inl e ↦ rw e inv
    | inr (e, at) ↦ rw (at, delete_scenario) (replace-Inv id e _ at refl refl)
  ]

  pub end_scenario-Inv :
      (id : Text) (e : ScenarioEntry R)
      → lookup id s.scenarios ≡ some e
      → is_unfinished e.phase ≡ true
      → Inv (end_scenario id s)
  unfolding end_scenario modify
  end_scenario-Inv id e at h =
      rw (at, modify)
        (record {
          owned =
              subst (λ ids. IsOwned (held next) (zombie next) (release_vm_ids s.used_ids ids))
                all_ids (IsOwned-end inv.owned _ _ (scenario id) holds zombies);
          settled = inv.settled;
        })
    where
      e' : ScenarioEntry R
      e' = record e { status = final_status e.cancelled e.status; phase = finished }

      next : Server R
      next = record s {
        scenarios = insert id e' s.scenarios;
        used_ids = release_vm_ids s.used_ids e.vm_ids;
      }

      all_ids : held s (scenario id) ≡ e.vm_ids
      all_ids = ground arith

      holds : (a : Owner) → held next a ≡ (if owner_eq (scenario id) a then [] else held s a)
      holds (fleet j) = refl
      holds (scenario j) = ground (arith, lookup-insert id j e' s.scenarios)

      zombies :
          (a : Owner) → zombie next a ≡ (if owner_eq (scenario id) a then false else zombie s a)
      zombies (fleet j) = refl
      zombies (scenario j) = ground arith

  -- The IDs that were allocated go to the new entry, or back if NewRunner fails.
  add_scenario-Inv :
      (uuid : Text) (now : ℤ) (sc : Scenario R) (file : Text) (count : ℕ)
      (r : Result PlanError (Runner R))
      → IsCalm s
      → let ids = allocate_vm_ids s.used_ids count in
        Inv
          (add_scenario uuid now sc file ids r (record s { used_ids = mark_ids s.used_ids ids })).0
  unfolding add_scenario
  add_scenario-Inv uuid now sc file count (err e) calm = record {
    owned =
        IsOwned-keep inv.owned _ _ _ (λ a. same a) (λ a. kept a)
          (release-allocate_restores s.used_ids count).0;
    settled = inv.settled;
  }
    where
      back : Server R
      back = record s {
        used_ids =
            release_vm_ids (mark_ids s.used_ids (allocate_vm_ids s.used_ids count))
              (allocate_vm_ids s.used_ids count);
      }

      same : (a : Owner) → held back a ≡ held s a
      same (fleet j) = refl
      same (scenario j) = refl

      kept : (a : Owner) → zombie back a ≡ false → zombie s a ≡ false
      kept (fleet j) = λ z. z
      kept (scenario j) = λ z. z
  add_scenario-Inv uuid now sc file count (ok r) calm = record {
    owned =
        IsOwned-grant inv.owned _ _ (scenario uuid) ids calm
          (λ x. not_used_of_allocated s.used_ids count x) grants;
    settled = inv.settled;
  }
    where
      ids : List ℕ
      ids = allocate_vm_ids s.used_ids count

      next : Server R
      next = record s {
        scenarios = insert uuid (new_scenario uuid now sc file ids r) s.scenarios;
        used_ids = mark_ids s.used_ids ids;
      }

      grants : (a : Owner) → held next a ≡ (if owner_eq (scenario uuid) a then ids else held s a)
      grants (fleet j) = refl
      grants (scenario j) =
          ground (arith, lookup-insert uuid j (new_scenario uuid now sc file ids r) s.scenarios)

  plan_scenario-Inv :
      (uuid : Text) (now : ℤ) (req : ScenarioCreateRequest) (sc : Scenario R)
      (p : Result PlanError VmPlan)
      → IsCalm s
      → Inv (plan_scenario uuid now req sc p s).0
  unfolding plan_scenario
  plan_scenario-Inv uuid now req sc (err e) calm = inv
  plan_scenario-Inv uuid now req sc (ok plan) calm =
      add_scenario-Inv uuid now sc req.scenario_file plan.total_vms _ calm

  start_scenario-Inv :
      (uuid : Text) (now : ℤ) (req : ScenarioCreateRequest) (r : Result LoadError (Scenario R))
      → IsCalm s
      → Inv (start_scenario uuid now req r s).0
  unfolding start_scenario
  start_scenario-Inv uuid now req (err e) calm = inv
  start_scenario-Inv uuid now req (ok sc) calm = plan_scenario-Inv uuid now req sc _ calm

  pub create_scenario-Inv :
      (load : Text → Result LoadError (Scenario R)) (uuid : Text) (now : ℤ)
      (req : Result Text ScenarioCreateRequest)
      → IsCalm s
      → Inv (create_scenario load uuid now req s).0
  unfolding create_scenario
  create_scenario-Inv load uuid now (err e) calm = inv
  create_scenario-Inv load uuid now (ok req) calm = elim (Bool-cases (is_empty req.scenario_file)) [
    | inl e ↦ rw e inv
    | inr e ↦ rw e (start_scenario-Inv uuid now req (load req.scenario_file) calm)
  ]

  give_hint-Inv :
      (fl : FloatOps R) (since : ℤ) (id : Text) (e : ScenarioEntry R) (r : Option (Runner R))
      → lookup id s.scenarios ≡ some e
      → Inv (give_hint fl since id s e r).0
  unfolding give_hint
  give_hint-Inv fl since id e none at = inv
  give_hint-Inv fl since id e (some r) at = replace-Inv id e _ at refl refl

  pub hint_scenario-Inv :
      (fl : FloatOps R) (since : ℤ) (id : Text) → Inv (hint_scenario fl since id s).0
  unfolding hint_scenario
  hint_scenario-Inv fl since id = elim (Option-cases (lookup id s.scenarios)) [
    | inl e ↦ rw e inv
    | inr (e, at) ↦ rw (at, hint_scenario) (give_hint-Inv fl since id e e.runner at)
  ]

  refreshed-Inv :
      (fl : FloatOps R) (run create : ℤ) (id : Text) (e : ScenarioEntry R) (r : Option (Runner R))
      → lookup id s.scenarios ≡ some e
      → Inv (record s { scenarios = insert id (refreshed fl run create e r) s.scenarios })
  refreshed-Inv fl run create id e none at = replace-Inv id e e at refl refl
  refreshed-Inv fl run create id e (some r) at = replace-Inv id e _ at refl refl

  pub get_scenario-Inv :
      (fl : FloatOps R) (run create : ℤ) (id : Text) → Inv (get_scenario fl run create id s).0
  unfolding get_scenario
  get_scenario-Inv fl run create id = elim (Option-cases (lookup id s.scenarios)) [
    | inl e ↦ rw e inv
    | inr (e, at) ↦ rw (at, get_scenario) (refreshed-Inv fl run create id e e.runner at)
  ]
