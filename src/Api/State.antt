-- ===== src/Api/State.antt =====
-- The records of api/server.go, api/fleet.go and api/scenario.go. The maps of entries hold pointers:
-- an entry is changed under its ID, which identifies it as long as the UUIDs do not repeat. An
-- entry has two fields that the code keeps outside it: whether its context has been cancelled, and
-- how far the goroutine is that its handler has started.
use onfire.Prelude.{ℕ, List, [], Bool, Option, none, some, map}
use onfire.Prelude.Int.{ℤ}
use onfire.Prelude.Text.{Text}
use onfire.Prelude.Dict.{Dict, lookup, insert}
use onfire.Vm.Config.{Config, vm_ip}
use onfire.Scenario.Runner.{Runner}
use onfire.Scenario.Parser.{LoadError}
use onfire.Scenario.Plan.{PlanError}

pub record VmStatus : Type 0 where
  pub id : ℕ
  pub ip : Text

-- vms[i] = VmStatus{ID: id, IP: fmt.Sprintf("172.16.%d.2", id)}
unfoldable pub vm_statuses : List ℕ → List VmStatus
unfolding vm_ip
vm_statuses = map λ id. record { id = id; ip = vm_ip id }

pub data FleetStatus : Type 0 where
  starting running stopped : FleetStatus

pub data ScenarioStatus : Type 0 where
  in_progress complete aborted : ScenarioStatus

pub data Phase : Type 0 where
  spawned launched finished : Phase

pub record FleetEntry : Type 0 where
  pub id : Text
  pub count : ℕ
  pub status : FleetStatus
  pub vms : List VmStatus
  pub web_port : ℤ
  pub created_at : ℤ
  pub vm_ids : List ℕ
  pub cancelled : Bool
  pub phase : Phase

-- `vm_ids` is the variable that the goroutine captures. The field Elapsed, a text, is the duration
-- that it prints, in nanoseconds and before it is rounded to seconds.
pub record ScenarioEntry (R : Type 0) : Type 0 where
  pub id : Text
  pub title : Text
  pub file : Text
  pub status : ScenarioStatus
  pub score : ℤ
  pub elapsed : ℤ
  pub hints_used : ℕ
  pub vms : List VmStatus
  pub created_at : ℤ
  pub runner : Option (Runner R)
  pub start_at : ℤ
  pub vm_ids : List ℕ
  pub cancelled : Bool
  pub phase : Phase

pub record Server (R : Type 0) : Type 0 where
  pub fleets : Dict FleetEntry
  pub scenarios : Dict (ScenarioEntry R)
  pub base_cfg : Config
  pub used_ids : List ℕ

unfoldable pub new_server : {R : Type 0} → Config → Server R
new_server cfg = record { fleets = []; scenarios = []; base_cfg = cfg; used_ids = [] }

-- Bodies of responses: the text of http.Error, which for a failure that
-- has a reason is given by the reason, the JSON of a value, or nothing.
pub data Body (R : Type 0) : Type 0 where
  message : Text → Body R
  fleet_json : FleetEntry → Body R
  fleets_json : List FleetEntry → Body R
  scenario_json : ScenarioEntry R → Body R
  scenarios_json : List (ScenarioEntry R) → Body R
  hint_json : Text → ℤ → Body R
  load_failed : LoadError → Body R
  plan_failed : PlanError → Body R
  runner_failed : PlanError → Body R
  no_body : Body R

pub record Response (R : Type 0) : Type 0 where
  pub code : ℕ
  pub body : Body R

abbrev pub respond : {R : Type 0} → ℕ → Body R → Response R
respond code body = record { code = code; body = body }

-- Change the entry of a key, if there is one.
abbrev set_found {ℓ} : {V : Type ℓ} → Text → (V → V) → Option V → Dict V → Dict V
set_found k f none m = m
set_found k f (some v) m = insert k (f v) m

unfoldable pub modify {ℓ} : {V : Type ℓ} → Text → (V → V) → Dict V → Dict V
unfolding lookup insert
modify k f m = set_found k f (lookup k m) m
