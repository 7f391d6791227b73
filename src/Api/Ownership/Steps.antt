-- ===== src/Api/Ownership/Steps.antt =====
-- The server as a transition system: any request, from any client, and any move of a goroutine, in
-- any order.
use onfire.Prelude.{◌≡◌, refl, [], true, none, some, Result, ok, err}
use onfire.Prelude.Int.{ℤ}
use onfire.Prelude.Text.{Text}
use onfire.Prelude.Dict.{lookup}
use onfire.Scenario.Floats.{FloatOps}
use onfire.Scenario.Types.{Scenario}
use onfire.Scenario.Parser.{LoadError}
use onfire.Vm.Config.{Config}
use onfire.Api.State.{FleetEntry, ScenarioEntry, Server, spawned, launched, new_server}
use onfire.Api.Fleets.{FleetCreateRequest, create_fleet, delete_fleet, begin_fleet, end_fleet}
use onfire.Api.Scenarios.{
  ScenarioCreateRequest, create_scenario, get_scenario, hint_scenario, delete_scenario,
  end_scenario,
}
use onfire.Api.Ownership.Ledger.{Owner, fleet, scenario, IsOwned}
use onfire.Api.Ownership.{Inv, IsCalm, held, zombie, is_unfinished}
use onfire.Api.Ownership.Fleets.{add_fleet-Inv, stop_fleet-Inv, begin_fleet-Inv, end_fleet-Inv}
use onfire.Api.Ownership.Scenarios.{
  create_scenario-Inv, get_scenario-Inv, hint_scenario-Inv, delete_scenario-Inv, end_scenario-Inv,
}

-- A fleet or a scenario is created only while no deleted fleet still runs, and under a new UUID.
pub data Step {R : Type 0} (fl : FloatOps R) (load : Text → Result LoadError (Scenario R))
    : Server R → Server R → Type 0 where
  fleet_created :
      {s : Server R} (uuid : Text) (now : ℤ) (req : Result Text FleetCreateRequest)
      → IsCalm s
      → lookup uuid s.fleets ≡ none
      → Step fl load s (create_fleet uuid now req s).0
  fleet_deleted : {s : Server R} (id : Text) → Step fl load s (delete_fleet id s).0
  fleet_begun :
      {s : Server R} (id : Text) (e : FleetEntry)
      → lookup id s.fleets ≡ some e
      → e.phase ≡ spawned
      → Step fl load s (begin_fleet id s)
  fleet_ended :
      {s : Server R} (id : Text) (e : FleetEntry)
      → lookup id s.fleets ≡ some e
      → e.phase ≡ launched
      → Step fl load s (end_fleet id s)
  scenario_created :
      {s : Server R} (uuid : Text) (now : ℤ) (req : Result Text ScenarioCreateRequest)
      → IsCalm s
      → lookup uuid s.scenarios ≡ none
      → Step fl load s (create_scenario load uuid now req s).0
  scenario_read :
      {s : Server R} (run create : ℤ) (id : Text)
      → Step fl load s (get_scenario fl run create id s).0
  scenario_hinted :
      {s : Server R} (run : ℤ) (id : Text) → Step fl load s (hint_scenario fl run id s).0
  scenario_deleted : {s : Server R} (id : Text) → Step fl load s (delete_scenario id s).0
  scenario_ended :
      {s : Server R} (id : Text) (e : ScenarioEntry R)
      → lookup id s.scenarios ≡ some e
      → is_unfinished e.phase ≡ true
      → Step fl load s (end_scenario id s)

pub data Reach {R : Type 0} (fl : FloatOps R) (load : Text → Result LoadError (Scenario R))
    (s : Server R) : Server R → Type 0 where
  here : Reach fl load s s
  next : {t u : Server R} → Reach fl load s t → Step fl load t u → Reach fl load s u

module _ {R : Type 0} where
  create_fleet-Inv :
      (s : Server R) (uuid : Text) (now : ℤ) (req : Result Text FleetCreateRequest)
      → IsCalm s
      → Inv s
      → Inv (create_fleet uuid now req s).0
  unfolding create_fleet
  create_fleet-Inv s uuid now (err e) calm inv = inv
  create_fleet-Inv s uuid now (ok req) calm inv = add_fleet-Inv s inv uuid now req calm

module _ {R : Type 0} {fl : FloatOps R} {load : Text → Result LoadError (Scenario R)} where
  Step-Inv : {s t : Server R} → Step fl load s t → Inv s → Inv t
  Step-Inv (fleet_created {s = s} uuid now req calm _) inv =
      create_fleet-Inv s uuid now req calm inv
  Step-Inv (fleet_deleted {s = s} id) inv = unfold delete_fleet in stop_fleet-Inv s inv id
  Step-Inv (fleet_begun {s = s} id e at h) inv = begin_fleet-Inv s inv id e at h
  Step-Inv (fleet_ended {s = s} id e at h) inv = end_fleet-Inv s inv id e at h
  Step-Inv (scenario_created {s = s} uuid now req calm _) inv =
      create_scenario-Inv s inv load uuid now req calm
  Step-Inv (scenario_read {s = s} run create id) inv = get_scenario-Inv s inv fl run create id
  Step-Inv (scenario_hinted {s = s} run id) inv = hint_scenario-Inv s inv fl run id
  Step-Inv (scenario_deleted {s = s} id) inv = delete_scenario-Inv s inv id
  Step-Inv (scenario_ended {s = s} id e at h) inv = end_scenario-Inv s inv id e at h

  Reach-Inv : {s t : Server R} → Inv s → Reach fl load s t → Inv t
  Reach-Inv inv here = inv
  Reach-Inv inv (next r st) = Step-Inv st (Reach-Inv inv r)

new_server-Inv : {R : Type 0} (cfg : Config) → Inv (new_server {R = R} cfg)
unfolding new_server lookup
new_server-Inv {R} cfg = record {
  owned = record {
    apart = λ a b x p q. cc (rw (held_new a) at p);
    in_use = λ a x z p. cc (rw (held_new a) at p);
  };
  settled = λ id e at. cc;
}
  where
    held_new : (a : Owner) → held (new_server {R = R} cfg) a ≡ []
    held_new (fleet id) = refl
    held_new (scenario id) = refl

-- In every state that a new server reaches, by any requests and any moves of the goroutines, as long
-- as nothing is created while a deleted fleet still runs: no VM ID is held by two fleets, by two
-- scenarios, or by a fleet and a scenario, of those whose goroutines have not finished; and every ID
-- that one of them holds is marked as in use, unless it is a fleet that has been deleted.
pub Reach-IsOwned :
    {R : Type 0} (fl : FloatOps R) (load : Text → Result LoadError (Scenario R)) (cfg : Config)
    {s : Server R}
    → Reach fl load (new_server cfg) s
    → IsOwned (held s) (zombie s) s.used_ids
Reach-IsOwned fl load cfg r = (Reach-Inv (new_server-Inv cfg) r).owned
