-- ===== src/Client.antt =====
-- onfirec/main.go: the command line client of the server. A command is a plan: what it prints, or the
-- request that it sends, with what it does with the answer. Package flag is an argument, and so is the
-- JSON printer; the body of a request is given by the value that is encoded.
pub mod Uuid
pub mod Fleets
pub mod Arguments
use onfire.Prelude.{
  Result, ok, err, ℕ, ◌+◌, List, [], ◌∷◌, ◌++◌, Bool, true, false, ◌&&◌, ◌||◌, not, Option, none,
  some, leb, ◌==◌, if◌then◌else◌, length,
}
use onfire.Prelude.Int.{ℤ}
use onfire.Prelude.Text.{Text, codes, text_eq, strip_prefix, or_else}
use onfire.Api.Fleets.{FleetCreateRequest}
use onfire.Api.Scenarios.{ScenarioCreateRequest}

-- What json.Marshal is given; `empty_object` is the "{}" of apiPost with a nil body.
pub data CallBody : Type 0 where
  no_call_body empty_object : CallBody
  fleet_object : FleetCreateRequest → CallBody
  scenario_object : ScenarioCreateRequest → CallBody

pub record Call : Type 0 where
  pub method : Text
  pub path : Text
  pub body : CallBody

-- printJSON of the answer, or a line that does not depend on it.
pub data Printing : Type 0 where
  print_json : Printing
  print_line : Text → Printing

-- `exits` is os.Exit after a message; `prints` are lines on stdout.
pub data Plan : Type 0 where
  exits : ℕ → Plan
  prints : List Text → Plan
  asks : Call → Printing → Plan

-- What package flag makes of the arguments of a command: where it ends the process, the exit code, which
-- is 0 for a request for help and 2 for an error. `arg` is fs.Arg(0), "" if there is none. The body of "scenario run" has the file from there.
pub record Flags : Type 0 where
  pub fleet_create : List Text → Result ℕ FleetCreateRequest
  pub scenario_run : List Text → Result ℕ ScenarioCreateRequest
  pub arg : List Text → Result ℕ Text

abbrev api_get : Text → Plan
api_get path = asks (record { method = codes "GET"; path = path; body = no_call_body }) print_json

abbrev api_post : Text → CallBody → Plan
api_post path body = asks (record { method = codes "POST"; path = path; body = body }) print_json

abbrev api_delete : Text → Text → Plan
api_delete path line =
    asks (record { method = codes "DELETE"; path = path; body = no_call_body }) (print_line line)

abbrev pub is_hex : ℕ → Bool
is_hex c = (leb b'0' c && leb c b'9') || (leb b'a' c && leb c b'f') || (leb b'A' c && leb c b'F')

abbrev pub is_dash_place : ℕ → Bool
is_dash_place i = (i == 8) || (i == 13) || (i == 18) || (i == 23)

-- The loop from position `i` on.
unfoldable pub uuid_from : ℕ → Text → Bool
uuid_from i [] = true
uuid_from i (c ∷ s) =
    let rest = uuid_from (i + 1) s in
    if is_dash_place i
    then (if c == b'-' then rest else false)
    else if is_hex c
    then rest
    else false

-- len counts bytes: a text with a character of several bytes is refused by the loop.
unfoldable pub looks_like_uuid : Text → Bool
unfolding uuid_from
looks_like_uuid s = if length s == 36 then uuid_from 0 s else false

abbrev pub create_plan : Result ℕ FleetCreateRequest → Plan
create_plan (err code) = exits code
create_plan (ok req) = api_post (codes "/api/v1/fleets") (fleet_object req)

-- Both an empty ID and one that is no UUID end the process.
unfoldable pub delete_plan : Result ℕ Text → Plan
unfolding looks_like_uuid
delete_plan (err code) = exits code
delete_plan (ok id) =
    if text_eq id []
    then exits 1
    else if not (looks_like_uuid id)
    then exits 1
    else api_delete (codes "/api/v1/fleets/" ++ id) (codes "fleet " ++ (id ++ codes " deleted"))

unfoldable pub fleet_cmd : Flags → List Text → Plan
unfolding delete_plan
fleet_cmd flags [] = exits 1
fleet_cmd flags (sub ∷ args) =
    if text_eq sub (codes "create")
    then create_plan (flags.fleet_create args)
    else if text_eq sub (codes "list")
    then api_get (codes "/api/v1/fleets")
    else if text_eq sub (codes "delete")
    then delete_plan (flags.arg args)
    else exits 1

-- scenarioSubcmd
abbrev with_id : (Text → Plan) → Result ℕ Text → Plan
with_id f (err code) = exits code
with_id f (ok id) = if text_eq id [] then exits 1 else f id

abbrev pub run_plan : Result ℕ ScenarioCreateRequest → Plan
run_plan (err code) = exits code
run_plan (ok req) =
    if text_eq req.scenario_file []
    then exits 1
    else api_post (codes "/api/v1/scenarios") (scenario_object req)

unfoldable pub scenario_cmd : Flags → List Text → Plan
scenario_cmd flags [] = exits 1
scenario_cmd flags (sub ∷ args) =
    if text_eq sub (codes "run")
    then run_plan (flags.scenario_run args)
    else if text_eq sub (codes "status")
    then with_id (λ id. api_get (codes "/api/v1/scenarios/" ++ id)) (flags.arg args)
    else if text_eq sub (codes "hint")
    then with_id (λ id. api_post (codes "/api/v1/scenarios/" ++ (id ++ codes "/hint")) empty_object)
        (flags.arg args)
    else if text_eq sub (codes "abort")
    then with_id
        (λ id.
          api_delete (codes "/api/v1/scenarios/" ++ id)
            (codes "scenario " ++ (id ++ codes " aborted")))
        (flags.arg args)
    else exits 1

-- strings.Replace(s, old, new, 1)
unfoldable pub replace_first : Text → Text → Text → Text
unfolding strip_prefix
replace_first old new [] = elim (strip_prefix old []) [ none ↦ [] | some rest ↦ new ++ rest ]
replace_first old new (c ∷ s) = elim (strip_prefix old (c ∷ s)) [
  | none ↦ c ∷ replace_first old new s
  | some rest ↦ new ++ rest
]

unfoldable pub terminal_plan : Text → Result ℕ Text → Plan
unfolding replace_first
terminal_plan server (err code) = exits code
terminal_plan server (ok vm) =
    if text_eq vm []
    then exits 1
    else prints (
        (codes "Web terminal: " ++ (server ++ (codes "/?vm=" ++ vm)))
        ∷ (codes "WebSocket:    "
            ++ (replace_first (codes "http://") (codes "ws://") server ++ (codes "/ws?vm=" ++ vm)))
        ∷ [])

-- main, behind the flags of the command itself; `server` is the URL of the server.
unfoldable pub client : Flags → Text → List Text → Plan
unfolding fleet_cmd scenario_cmd terminal_plan
client flags server [] = exits 1
client flags server (command ∷ args) =
    if text_eq command (codes "fleet")
    then fleet_cmd flags args
    else if text_eq command (codes "scenario")
    then scenario_cmd flags args
    else if text_eq command (codes "terminal")
    then terminal_plan server (flags.arg args)
    else exits 1

-- What a process has printed on stdout, and its exit code.
pub record Finished : Type 0 where
  pub code : ℕ
  pub output : List Text

abbrev printed_by : (Text → Option Text) → Printing → Text → Text
printed_by pretty print_json text = or_else (pretty text) text
printed_by pretty (print_line line) text = line

-- apiGet, apiPost and apiDelete with what follows them. An answer is a status and the data, none on an
-- error of package http; `pretty` is the printer, none where the data is no JSON.
abbrev pub answered : (Text → Option Text) → Printing → Option (ℕ × Text) → Finished
answered pretty printing none = record { code = 1; output = [] }
answered pretty printing (some (status, text)) =
    if leb 400 status
    then record { code = 1; output = [] }
    else record { code = 0; output = printed_by pretty printing text ∷ [] }

unfoldable pub run_client : (Text → Option Text) → (Call → Option (ℕ × Text)) → Plan → Finished
run_client pretty ask (exits code) = record { code = code; output = [] }
run_client pretty ask (prints lines) = record { code = 0; output = lines }
run_client pretty ask (asks call printing) = answered pretty printing (ask call)

-- envOrDefault
unfoldable pub env_or_default : (Text → Text) → Text → Text → Text
env_or_default getenv key d = if text_eq (getenv key) [] then d else getenv key
