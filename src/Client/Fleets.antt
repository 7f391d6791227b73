-- ===== src/Client/Fleets.antt =====
-- The fleet and scenario commands of onfirec/main.go against the handlers of package api.
use onfire.Prelude.{
  ap, ℕ, ◌≡◌, refl, List, [], ◌∷◌, ◌++◌, true, false, Option, none, some, Result, ok, err,
  if◌then◌else◌, Option-cases, Bool-cases, inl, inr,
}
use onfire.Prelude.Text.{Text, codes}
use onfire.Prelude.Dict.{lookup}
use onfire.Scenario.Floats.{FloatOps}
use onfire.Scenario.Types.{Scenario}
use onfire.Scenario.Parser.{LoadError}
use onfire.Api.State.{FleetEntry, Server, Body}
use onfire.Api.Fleets.{FleetCreateRequest, stop_fleet, delete_fleet}
use onfire.Api.Scenarios.{ScenarioCreateRequest}
use onfire.Api.Routes.{Request, route, handle_fleet}
use onfire.Api.Handler.{serve}
use onfire.Client.{
  CallBody, fleet_object, scenario_object, Call, Plan, exits, prints, asks, Flags, looks_like_uuid,
  delete_plan, fleet_cmd, client, Finished, run_client,
}

-- What a handler decodes: the body that was encoded, if it is of its type. An object with none of its
-- fields gives the zero value.
abbrev decoded_fleet : CallBody → Result Text FleetCreateRequest
decoded_fleet (fleet_object req) = ok req
decoded_fleet b = err (codes "EOF")

abbrev decoded_scenario : CallBody → Result Text ScenarioCreateRequest
decoded_scenario (scenario_object req) = ok req
decoded_scenario b = err (codes "EOF")

no_uuid : looks_like_uuid [] ≡ false
unfolding looks_like_uuid
no_uuid = refl

-- A client and a server. `base` has what the server adds to a request: the UUID and the times.
-- `encode` is the JSON encoder of the responses.
module _ {R : Type 0} (fl : FloatOps R) (load : Text → Result LoadError (Scenario R))
    (spec : Body R) (base : Request) (encode : Body R → Text) (pretty : Text → Option Text) where
  abbrev pub request_of : Call → Request
  request_of call = record base {
    method = call.method;
    path = call.path;
    fleet_body = decoded_fleet call.body;
    scenario_body = decoded_scenario call.body;
  }

  abbrev pub ask : Server R → Call → Option (ℕ × Text)
  ask s call =
      let (s', response) = serve fl load spec (request_of call) s in
      some (response.code, encode response.body)

  -- A command run to its end, and the server after it.
  abbrev pub server_after : Plan → Server R → Server R
  server_after (asks call printing) s = (serve fl load spec (request_of call) s).0
  server_after (exits code) s = s
  server_after (prints lines) s = s

  abbrev pub exchange : Plan → Server R → Finished × Server R
  exchange plan s = (run_client pretty (ask s) plan, server_after plan s)

  abbrev pub finished_delete : Text → Option FleetEntry → Finished
  finished_delete id none = record { code = 1; output = [] }
  finished_delete id (some e) = record {
    code = 0;
    output = (codes "fleet " ++ (id ++ codes " deleted")) ∷ [];
  }

  exchange-delete_plan :
      (id : Text) (s : Server R)
      → looks_like_uuid id ≡ true
      → exchange (delete_plan (ok id)) s
        ≡ (finished_delete id (lookup id s.fleets), stop_fleet id s)
  unfolding delete_plan serve route handle_fleet delete_fleet run_client
  exchange-delete_plan [] s h = absurd (cc (h, no_uuid))
  exchange-delete_plan (c ∷ id) s h = rw h (elim (Option-cases (lookup (c ∷ id) s.fleets)) [
    | inl e ↦ rw e refl
    | inr (f, e) ↦ rw e refl
  ])

  refused :
      (id : Text) (s : Server R)
      → looks_like_uuid id ≡ false
      → exchange (delete_plan (ok id)) s ≡ (record { code = 1; output = [] }, s)
  unfolding delete_plan run_client
  refused [] s h = refl
  refused (c ∷ id) s h = rw h refl

  client-delete :
      (flags : Flags) (url : Text) (args : List Text) (id : Text)
      → flags.arg args ≡ ok id
      → client flags url (codes "fleet" ∷ codes "delete" ∷ args) ≡ delete_plan (ok id)
  unfolding client fleet_cmd
  client-delete flags url args id h = ap delete_plan h

  -- "onfirec fleet delete" with an ID, against a server in any state: an ID that is no UUID sends
  -- nothing and exits with 1. With a UUID the server stops the fleet of that ID as deleteFleet does; the
  -- command prints that it is deleted and exits with 0 if the server has the fleet, and exits with 1
  -- if it has not.
  pub exchange-fleet_delete :
      (flags : Flags) (url : Text) (args : List Text) (id : Text) (s : Server R)
      → flags.arg args ≡ ok id
      → exchange (client flags url (codes "fleet" ∷ codes "delete" ∷ args)) s ≡ (
          if looks_like_uuid id
          then (finished_delete id (lookup id s.fleets), stop_fleet id s)
          else (record { code = 1; output = [] }, s))
  exchange-fleet_delete flags url args id s h =
      rw (client-delete flags url args id h) (elim (Bool-cases (looks_like_uuid id)) [
        | inl t ↦ rw t (exchange-delete_plan id s t)
        | inr f ↦ rw f (refused id s f)
      ])
