-- ===== src/Examples/Arguments.antt =====
-- Command lines, and the servers behind them, at small inputs.
use onfire.Prelude.{
  ◌<◌, ◌==◌, ◌&&◌, ◌||◌, ◌≡◌, ◌↔◌, refl, List, [], ◌∷◌, ◌++◌, true, false, none, some, ok, err,
  Result,
}
use onfire.Prelude.Int.{ℤ, pos}
use onfire.Prelude.Text.{Text, codes, has_prefix}
use onfire.Prelude.Dict.{lookup}
use onfire.Prelude.Numerals.{atoi}
use onfire.Flags.{exit_code, text, int, bool}
use onfire.Flags.Settings.{Setting, joined, apart, alone, all_spelled, store}
use onfire.Vm.Config.{default_config}
use onfire.Scenario.Types.{Scenario, VmPlan}
use onfire.Scenario.Parser.{LoadError, unreadable}
use onfire.Scenario.Runner.{Runner, web_terminal}
use onfire.Scenario.Plan.{PlanError, build_vm_plan, empty_plan}
use onfire.Api.State.{new_server, no_body}
use onfire.Api.Routes.{Request}
use onfire.Api.Launch.{LaunchDeps, wait}
use onfire.Client.{client}
use onfire.Client.Arguments.{scenario_run_set, package_flags}
use onfire.Client.Arguments.Ignored.{post_scenario, scenario_run_ignores}
use onfire.Cmd.Arguments.{run_arguments, scenario_arguments}
use onfire.Cmd.Arguments.Parsed.{scenario_given, scenario_arguments-given}
use onfire.Cmd.Commands.{execute, unknown_scenario}
use onfire.Cmd.Commands.Machines.{any, is_created, is_stopped, run_single_iff}
use onfire.Cmd.Commands.Terminals.{HasIndex, scenario_terminal_iff}
use onfire.Cmd.Fleet.{run_single}
use onfire.Cmd.Server.{shell, serve_all, serve_terminal}
use onfire.Cmd.Server.Shells.{shell_iff}
use onfire.Cmd.Terminal.{
  ScenarioFlags, scenario_run_cmd, ready, options_of, parse_scale_overrides, parse_disk_overrides,
}
use onfire.Examples.Sample.{thousandths}
use onfire.Examples.Scenarios.{sample_runner}

-- onfire scenario run --dry-run -port=9000 --kernel vmlinux disk.yaml --port 1
abbrev settings : List Setting
settings =
    record { spelling = alone true; name = codes "dry-run"; raw = []; value = bool true }
    ∷ record {
      spelling = joined false;
      name = codes "port";
      raw = codes "9000";
      value = int (pos 9000);
    }
    ∷ record {
      spelling = apart true;
      name = codes "kernel";
      raw = codes "vmlinux";
      value = text (codes "vmlinux");
    }
    ∷ []

abbrev behind : List Text
behind = codes "disk.yaml" ∷ codes "--port" ∷ codes "1" ∷ []

settings_spelled :
    all_spelled settings
    ≡ codes "--dry-run" ∷ codes "-port=9000" ∷ codes "--kernel" ∷ codes "vmlinux" ∷ []
settings_spelled = refl

scenario_arguments-given_example :
    scenario_arguments atoi (all_spelled settings ++ behind)
    ≡ ok (scenario_given settings (codes "disk.yaml"))
unfolding atoi lookup
scenario_arguments-given_example =
    scenario_arguments-given atoi settings (codes "disk.yaml") (codes "--port" ∷ codes "1" ∷ [])
      (
        (refl, (bool false, refl, refl)),
        ((refl, (int (pos 8888), refl, refl)), ((refl, (text [], refl, refl)), tt)),
      )
      refl

port_before_file : scenario_given settings (codes "disk.yaml") ≡ record {
  kernel = codes "vmlinux";
  rootfs = [];
  firecracker_bin = [];
  cloud_init_iso = [];
  scale = [];
  disk = [];
  dry_run = true;
  port = pos 9000;
  file = codes "disk.yaml";
}
port_before_file = refl

no_arguments :
    run_arguments atoi []
    ≡ ok (record {
      cfg = default_config;
      config = codes "cloud-init-config.yaml";
      count = pos 1;
      port = pos 0;
    })
unfolding run_arguments
no_arguments = refl

-- A request for help ends the process with 0, an unknown flag with 2.
help_exits : run_arguments atoi (codes "-help" ∷ []) ≡ err 0
unfolding run_arguments exit_code
help_exits = refl

unknown_exits : run_arguments atoi (codes "--scale" ∷ []) ≡ err 2
unfolding run_arguments exit_code
unknown_exits = refl

-- onfirec scenario run --web-port=9000 disk.yaml --scale web=2
abbrev port_setting : Setting
port_setting = record {
  spelling = joined true;
  name = codes "web-port";
  raw = codes "9000";
  value = int (pos 9000);
}

scenario_run_ignores_example :
    client (package_flags atoi) (codes "http://localhost:8888") (
      codes "scenario"
      ∷ codes "run"
      ∷ (all_spelled (port_setting ∷ [])
          ++ (codes "disk.yaml" ∷ codes "--scale" ∷ codes "web=2" ∷ [])))
    ≡ post_scenario (store (port_setting ∷ []) scenario_run_set) (codes "disk.yaml")
unfolding atoi lookup
scenario_run_ignores_example =
    scenario_run_ignores atoi (codes "http://localhost:8888") (port_setting ∷ [])
      (codes "disk.yaml") (codes "--scale" ∷ codes "web=2" ∷ [])
      ((refl, (int (pos 8888), refl, refl)), tt) refl refl

-- The usage line of scenarioCmd names "hint", which is no subcommand.
hint_unknown :
    execute (codes "onfire" ∷ codes "scenario" ∷ codes "hint" ∷ [])
    ≡ unknown_scenario (codes "hint")
unfolding execute
hint_unknown = refl

-- A machine that does not start.
abbrev broken : LaunchDeps
broken = record {
  ensure_tap = λ id. true;
  leaves_device = λ id. false;
  ensure_iso = λ dst src hostname. true;
  prepare_rootfs = λ base id size. none;
  factory = λ cfg. true;
  starts = λ cfg. false;
  waits = λ cfg. true;
  cancelled = λ id stage. false;
}

run_single_iff_example :
    let (events, code) = run_single broken default_config in
    ((code == 0) ≡ (
      broken.factory default_config
      && broken.starts default_config
      && (broken.waits default_config || broken.cancelled 0 wait)))
    × (any is_stopped events ≡ (code == 0))
    × (any is_created events ≡ broken.factory default_config)
run_single_iff_example = run_single_iff broken default_config

abbrev no_file : Text → Result LoadError (Scenario ℤ)
no_file path = err unreadable

abbrev to_shell : Request
to_shell = record {
  method = codes "GET";
  path = codes "/ws";
  uuid = [];
  now = pos 0;
  since_run = pos 0;
  since_create = pos 0;
  fleet_body = err [];
  scenario_body = err [];
}

-- The server has no fleet.
shell_iff_example :
    (((serve_all
          (codes "7")
          true
          thousandths
          no_file
          no_body
          to_shell
          (new_server default_config)).1
        ≡ shell 7)
      ↔ ((codes "/ws" ≡ codes "/ws") × (atoi (codes "7") ≡ some (pos 7)) × (true ≡ true)))
    × ((serve_terminal {R = ℤ} (codes "7") true 3 (codes "/ws") ≡ shell 7) ↔ (
        (codes "/ws" ≡ codes "/ws") × (atoi (codes "7") ≡ some (pos 7)) × (7 < 3) × (true ≡ true)))
unfolding has_prefix
shell_iff_example =
    shell_iff thousandths no_file no_body (codes "7") true 7 3 to_shell (new_server default_config)
      refl

-- Three VMs of a tier and one of another.
abbrev flags : ScenarioFlags
flags = record {
  kernel = codes "vmlinux";
  rootfs = codes "rootfs.ext4";
  firecracker_bin = [];
  cloud_init_iso = [];
  scale = codes "web=3";
  disk = [];
  dry_run = false;
  port = pos 8888;
  file = codes "disk.yaml";
}

abbrev load : Text → Result LoadError (Scenario ℤ)
load file = ok sample_runner.scenario

abbrev plan_of : Result PlanError VmPlan → VmPlan
plan_of (ok plan) = plan
plan_of (err e) = empty_plan

abbrev runner : Runner ℤ
runner = record sample_runner {
  opts = options_of flags;
  plan =
      plan_of (build_vm_plan sample_runner.scenario.environment.tiers (options_of flags).overrides);
}

runner_ready : scenario_run_cmd load flags ≡ ready runner
unfolding scenario_run_cmd
runner_ready = refl

four_vms : web_terminal true runner ≡ some (4, pos 8888)
unfolding web_terminal build_vm_plan parse_scale_overrides parse_disk_overrides
four_vms = refl

scenario_terminal_iff_example :
    (serve_terminal {R = ℤ} (codes "3") true 4 (codes "/ws") ≡ shell 3)
    ↔ ((atoi (codes "3") ≡ some (pos 3)) × HasIndex runner.plan 3 × (true ≡ true))
scenario_terminal_iff_example =
    scenario_terminal_iff load flags runner 4 (pos 8888) (codes "3") true 3 runner_ready four_vms
