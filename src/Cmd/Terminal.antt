-- ===== src/Cmd/Terminal.antt =====
-- The web terminal of cmd/serve.go, and the scenario command of cmd/scenario.go. Packages http,
-- websocket and ssh are arguments: what each call answers.
pub mod Reach
use onfire.Prelude.{
  ℕ, zero, suc, ◌+◌, List, [], ◌∷◌, ◌++◌, Bool, true, false, ◌&&◌, ◌||◌, not, Option, none, some,
  if◌then◌else◌, Result, ok, err, ltb, ◌==◌,
}
use onfire.Prelude.Int.{ℤ, pos, negsuc, ltb_ℤ}
use onfire.Prelude.Text.{Text, codes, text_eq, decimal}
use onfire.Prelude.Dict.{Dict}
use onfire.Prelude.Numerals.{atoi}
use onfire.Api.Overrides.{parse_overrides}
use onfire.Scenario.Floats.{FloatOps}
use onfire.Scenario.Types.{Scenario, RunOptions}
use onfire.Scenario.Parser.{LoadError}
use onfire.Scenario.Plan.{PlanError}
use onfire.Scenario.Runner.{Runner, new_runner}

abbrev in_fleet : ℕ → Option ℤ → Option ℕ
in_fleet count none = none
in_fleet count (some (negsuc n)) = none
in_fleet count (some (pos n)) = if ltb n count then some n else none

-- The VM of a request to /ws, none where the answer is 400: a number below the count.
unfoldable pub ws_vm : ℕ → Text → Option ℕ
unfolding atoi
ws_vm count query = in_fleet count (atoi query)

-- The number of dials, up to the first one that succeeds, and whether there is one.
unfoldable pub dial : (ℕ → Bool) → ℕ → ℕ → ℕ × Bool
dial dials attempt zero = (attempt, false)
dial dials attempt (suc left) =
    let rest = dial dials (attempt + 1) left in if dials attempt then (attempt + 1, true) else rest

-- The calls behind the dial, in their order, whether each succeeds.
pub record Session : Type 0 where
  pub opens : Bool
  pub pty : Bool
  pub stdin : Bool
  pub stdout : Bool
  pub stderr : Bool
  pub shell : Bool

-- A message of the browser: data that json.Unmarshal makes a map of, with its type and its size, or
-- other data.
pub data Incoming : Type 0 where
  json_object : Text → ℤ → ℤ → Incoming
  raw : Text → Incoming

-- What reaches the VM.
pub data Sent : Type 0 where
  window : ℤ → ℤ → Sent
  typed : Text → Sent

-- An object is never typed, whatever its type is.
unfoldable pub forward : List Incoming → List Sent
forward [] = []
forward (json_object kind cols rows ∷ ms) =
    let rest = forward ms in if text_eq kind (codes "resize") then window rows cols ∷ rest else rest
forward (raw s ∷ ms) = typed s ∷ forward ms

-- How wsHandler ends: with a message to the browser, or with what was sent to the VM by the time that
-- the browser is gone.
pub data WsEnd : Type 0 where
  ws_error : Text → WsEnd
  ws_closed : List Sent → WsEnd

abbrev in_session : Session → List Incoming → WsEnd
in_session s ms =
    if not s.opens
    then ws_error (codes "failed to create session: ")
    else if not s.pty
    then ws_error (codes "failed to request PTY: ")
    else if not s.stdin
    then ws_error (codes "failed to get stdin: ")
    else if not s.stdout
    then ws_error (codes "failed to get stdout: ")
    else if not s.stderr
    then ws_error (codes "failed to get stderr: ")
    else if not s.shell
    then ws_error (codes "failed to start shell: ")
    else ws_closed (forward ms)

-- `dials` is whether the dial of an address succeeds at an attempt; an error's own text is left out.
abbrev pub ssh_addr : ℕ → Text
ssh_addr vm = codes "172.16." ++ (decimal vm ++ codes ".2:22")

unfoldable pub ws_handler : (Text → ℕ → Bool) → ℕ → Session → List Incoming → WsEnd
unfolding dial forward decimal
ws_handler dials vm s ms =
    if (dial (dials (ssh_addr vm)) 0 10).1
    then in_session s ms
    else ws_error (codes "failed to connect to VM: ")

-- The flags of "onfire scenario run", with fs.Arg(0).
pub record ScenarioFlags : Type 0 where
  pub kernel : Text
  pub rootfs : Text
  pub firecracker_bin : Text
  pub cloud_init_iso : Text
  pub scale : Text
  pub disk : Text
  pub dry_run : Bool
  pub port : ℤ
  pub file : Text

-- Before Run: the process ends, or there is a runner.
pub data ScenarioStart (R : Type 0) : Type 0 where
  file_missing : ScenarioStart R
  not_loaded : LoadError → ScenarioStart R
  no_runner : PlanError → ScenarioStart R
  ready : Runner R → ScenarioStart R

-- Those of cmd/scenario.go have the body of the ones of package api.
unfoldable pub parse_scale_overrides : Text → Dict ℤ
unfolding parse_overrides
parse_scale_overrides s = parse_overrides s

unfoldable pub parse_disk_overrides : Text → Dict ℤ
unfolding parse_overrides
parse_disk_overrides s = parse_overrides s

abbrev pub options_of : ScenarioFlags → RunOptions
options_of f = record {
  kernel_path = f.kernel;
  rootfs_path = f.rootfs;
  cloud_init_iso = f.cloud_init_iso;
  firecracker_bin = f.firecracker_bin;
  overrides = record {
    scale = parse_scale_overrides f.scale;
    disk = parse_disk_overrides f.disk;
    vm_ids = [];
  };
  dry_run = f.dry_run;
  web_port = f.port;
}

module _ {R : Type 0} (load : Text → Result LoadError (Scenario R)) where
  abbrev pub made_runner : Result PlanError (Runner R) → ScenarioStart R
  made_runner (err e) = no_runner e
  made_runner (ok r) = ready r

  abbrev pub with_scenario : ScenarioFlags → Result LoadError (Scenario R) → ScenarioStart R
  with_scenario f (err e) = not_loaded e
  with_scenario f (ok s) = made_runner (new_runner s (options_of f))

  -- scenarioRunCmd up to Run.
  unfoldable pub scenario_run_cmd : ScenarioFlags → ScenarioStart R
  unfolding new_runner parse_scale_overrides parse_disk_overrides
  scenario_run_cmd f = if text_eq f.file [] then file_missing else with_scenario f (load f.file)
