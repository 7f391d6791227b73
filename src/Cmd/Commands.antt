-- ===== src/Cmd/Commands.antt =====
-- Execute of cmd/run.go, scenarioCmd of cmd/scenario.go, and serveCmd of cmd/serve.go up to the server.
pub mod Machines
pub mod Terminals
use onfire.Prelude.{
  ℕ, List, [], ◌∷◌, Bool, true, false, ◌&&◌, not, Option, none, some, if◌then◌else◌,
}
use onfire.Prelude.Int.{ℤ, pos, pos_part, ltb_ℤ}
use onfire.Prelude.Text.{Text, codes, text_eq}
use onfire.Vm.Config.{Config, is_empty}
use onfire.Api.Launch.{LaunchDeps}
use onfire.Scenario.Boot.{iso_stem}
use onfire.Cmd.Fleet.{generate_isos, launch_count, CmdEnd}

-- Which command runs, with its arguments. The others print a message, and the process exits with 1.
pub data Invocation : Type 0 where
  usage scenario_usage : Invocation
  unknown unknown_scenario : Text → Invocation
  run serve scenario_run server : List Text → Invocation

unfoldable pub scenario_cmd : List Text → Invocation
scenario_cmd [] = scenario_usage
scenario_cmd (name ∷ args) =
    if text_eq name (codes "run") then scenario_run args else unknown_scenario name

-- `name` is the first argument behind the program.
abbrev command : Text → List Text → Invocation
command name args =
    if text_eq name (codes "run")
    then run args
    else if text_eq name (codes "serve")
    then serve args
    else if text_eq name (codes "scenario")
    then scenario_cmd args
    else if text_eq name (codes "server")
    then server args
    else unknown name

unfoldable pub execute : List Text → Invocation
unfolding scenario_cmd
execute [] = usage
execute (program ∷ []) = usage
execute (program ∷ name ∷ args) = command name args

-- serveCmd: the image that is not made, a panic, or what the goroutine of the fleet does, with the
-- number of VMs that the web terminal is started with.
pub data ServeStart : Type 0 where
  iso_failed : ℕ → ServeStart
  iso_panicked : ServeStart
  serving : CmdEnd → ℤ → ServeStart

abbrev started : LaunchDeps → Config → ℤ → Option ℕ → ServeStart
started deps cfg count (some i) = iso_failed i
started deps cfg count none = serving (launch_count deps cfg count) count

abbrev with_stem :
    LaunchDeps → (Text → Text → Text → Bool) → Text → Config → ℤ → Option Text → ServeStart
with_stem deps runs config cfg count none = iso_panicked
with_stem deps runs config cfg count (some stem) =
    started deps cfg count (generate_isos runs stem config 0 (pos_part count))

-- The arguments are those of run_cmd: behind the flags, both commands begin alike.
unfoldable pub serve_cmd : LaunchDeps → (Text → Text → Text → Bool) → Text → Config → ℤ → ServeStart
unfolding generate_isos iso_stem
serve_cmd deps runs config cfg count =
    if ltb_ℤ (pos 1) count && not (is_empty cfg.cloud_init_iso)
    then with_stem deps runs config cfg count (iso_stem cfg.cloud_init_iso)
    else started deps cfg count none
