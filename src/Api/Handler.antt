-- ===== src/Api/Handler.antt =====
-- Handler of api/server.go: a request goes to the handler of the pattern that its path falls under.
use onfire.Prelude.{Option, none, some, Result}
use onfire.Prelude.Text.{Text, codes}
use onfire.Scenario.Floats.{FloatOps}
use onfire.Scenario.Types.{Scenario}
use onfire.Scenario.Parser.{LoadError}
use onfire.Api.State.{Server, Response, Body, message, respond}
use onfire.Api.Routes.{
  Request, Route, fleets, fleet, scenarios, scenario, vms, openapi, route, handle_fleets,
  handle_fleet, handle_scenarios, handle_scenario, handle_vm,
}

module _ {R : Type 0} (fl : FloatOps R) (load : Text → Result LoadError (Scenario R))
    (spec : Body R) where
  abbrev pub dispatch : Option Route → Request → Server R → Server R × Response R
  dispatch none r s = (s, respond 404 (message (codes "404 page not found")))
  dispatch (some fleets) r s = handle_fleets r s
  dispatch (some fleet) r s = handle_fleet r s
  dispatch (some scenarios) r s = handle_scenarios load r s
  dispatch (some scenario) r s = handle_scenario fl r s
  dispatch (some vms) r s = handle_vm fl r s
  dispatch (some openapi) r s = (s, respond 200 spec)

  -- `spec` is the document of the embedded file.
  unfoldable pub serve : Request → Server R → Server R × Response R
  unfolding route handle_fleets handle_fleet handle_scenarios handle_scenario handle_vm
  serve r s = dispatch (route r.path) r s
