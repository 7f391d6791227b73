-- ===== src/Api/Routes.antt =====
-- The dispatching handlers of api/fleet.go and api/scenario.go, and the routes of api/server.go. What
-- a request carries is a record: the decoded bodies, the new UUID and the times are arguments of the
-- handlers behind. http.ServeMux is taken at the paths that it does not redirect.
pub mod Owner
use onfire.Prelude.{
  ℕ, ◌-◌, List, [], ◌∷◌, Bool, true, false, ◌&&◌, ◌||◌, not, Option, none, some, Result, ltb, leb,
  ◌==◌, if◌then◌else◌,
}
use onfire.Prelude.Int.{ℤ, pos, negsuc}
use onfire.Prelude.Text.{
  Text, codes, text_eq, trim_prefix, has_prefix, cut, is_digit, read_digits, or_else,
}
use onfire.Prelude.Dict.{Dict}
use onfire.Prelude.Numerals.{atoi}
use onfire.Scenario.Floats.{FloatOps}
use onfire.Scenario.Types.{Scenario}
use onfire.Scenario.Parser.{LoadError}
use onfire.Api.State.{
  VmStatus, ScenarioStatus, ScenarioEntry, Server, Response, in_progress, message, respond,
}
use onfire.Api.Fleets.{FleetCreateRequest, create_fleet, list_fleets, get_fleet, delete_fleet}
use onfire.Api.Scenarios.{
  ScenarioCreateRequest, create_scenario, list_scenarios, get_scenario, hint_scenario, give_hint,
  delete_scenario,
}

-- `since_run` and `since_create` are the times since a runner's and an entry's start.
pub record Request : Type 0 where
  pub method : Text
  pub path : Text
  pub uuid : Text
  pub now : ℤ
  pub since_run : ℤ
  pub since_create : ℤ
  pub fleet_body : Result Text FleetCreateRequest
  pub scenario_body : Result Text ScenarioCreateRequest

pub data Route : Type 0 where
  fleets fleet scenarios scenario vms openapi : Route

-- The pattern that a path falls under: one without a slash at its end is the path itself.
unfoldable pub route : Text → Option Route
unfolding has_prefix
route path =
    if text_eq path (codes "/api/v1/fleets")
    then some fleets
    else if has_prefix (codes "/api/v1/fleets/") path
    then some fleet
    else if text_eq path (codes "/api/v1/scenarios")
    then some scenarios
    else if has_prefix (codes "/api/v1/scenarios/") path
    then some scenario
    else if has_prefix (codes "/api/v1/vms/") path
    then some vms
    else if text_eq path (codes "/api/v1/openapi.yaml")
    then some openapi
    else none

abbrev is_get : Request → Bool
is_get r = text_eq r.method (codes "GET")

abbrev is_post : Request → Bool
is_post r = text_eq r.method (codes "POST")

abbrev is_delete : Request → Bool
is_delete r = text_eq r.method (codes "DELETE")

abbrev pub is_running : ScenarioStatus → Bool
is_running in_progress = true
is_running _ = false

abbrev same_id : ℕ → ℤ → Bool
same_id n (pos k) = n == k
same_id n (negsuc k) = false

abbrev pub has_vm : ℤ → List VmStatus → Bool
has_vm id [] = false
has_vm id (v ∷ vs) = same_id v.id id || has_vm id vs

module _ {R : Type 0} where
  abbrev pub fail_with : ℕ → Text → Server R → Server R × Response R
  fail_with code text s = (s, respond code (message text))

  abbrev not_allowed : Server R → Server R × Response R
  not_allowed s = fail_with 405 (codes "method not allowed") s

  unfoldable pub handle_fleets : Request → Server R → Server R × Response R
  unfolding create_fleet list_fleets
  handle_fleets r s =
      if is_post r
      then create_fleet r.uuid r.now r.fleet_body s
      else if is_get r
      then (s, list_fleets s)
      else not_allowed s

  unfoldable pub handle_fleet : Request → Server R → Server R × Response R
  unfolding trim_prefix get_fleet delete_fleet
  handle_fleet r s =
      let id = trim_prefix r.path (codes "/api/v1/fleets/") in
      if text_eq id []
      then fail_with 400 (codes "missing fleet id") s
      else if is_get r
      then (s, get_fleet id s)
      else if is_delete r
      then delete_fleet id s
      else not_allowed s

  unfoldable pub handle_scenarios :
      (Text → Result LoadError (Scenario R)) → Request → Server R → Server R × Response R
  unfolding create_scenario list_scenarios
  handle_scenarios load r s =
      if is_post r
      then create_scenario load r.uuid r.now r.scenario_body s
      else if is_get r
      then (s, list_scenarios s)
      else not_allowed s

  -- The first running scenario, in the order of the range, that has the VM.
  unfoldable pub find_owner : ℤ → Dict (ScenarioEntry R) → Option (Text × ScenarioEntry R)
  find_owner vm [] = none
  find_owner vm ((id, sc) ∷ scs) =
      let rest = find_owner vm scs in
      if is_running sc.status && has_vm vm sc.vms then some (id, sc) else rest

module _ {R : Type 0} (fl : FloatOps R) where
  unfoldable pub handle_scenario : Request → Server R → Server R × Response R
  unfolding trim_prefix cut get_scenario hint_scenario delete_scenario
  handle_scenario r s =
      let (id, tail) = cut b'/' (trim_prefix r.path (codes "/api/v1/scenarios/")) in
      let sub = or_else tail [] in
      if text_eq id []
      then fail_with 400 (codes "missing scenario id") s
      else if is_get r && text_eq sub []
      then get_scenario fl r.since_run r.since_create id s
      else if is_post r && text_eq sub (codes "hint")
      then hint_scenario fl r.since_run id s
      else if is_delete r && text_eq sub []
      then delete_scenario id s
      else not_allowed s

  abbrev pub hint_owner :
      Request → Option (Text × ScenarioEntry R) → Server R → Server R × Response R
  hint_owner r none s = fail_with 404 (codes "no running scenario owns this VM") s
  hint_owner r (some (id, e)) s = give_hint fl r.since_run id s e e.runner

  abbrev pub hint_vm : Request → Option ℤ → Server R → Server R × Response R
  hint_vm r none s = fail_with 400 (codes "invalid vm id") s
  hint_vm r (some vm) s = hint_owner r (find_owner vm s.scenarios) s

  unfoldable pub handle_vm : Request → Server R → Server R × Response R
  unfolding trim_prefix cut atoi find_owner give_hint
  handle_vm r s =
      let (id, tail) = cut b'/' (trim_prefix r.path (codes "/api/v1/vms/")) in
      if not (text_eq (or_else tail []) (codes "hint")) || not (is_post r)
      then fail_with 404 (codes "not found") s
      else hint_vm r (atoi id) s
