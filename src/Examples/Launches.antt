-- ===== src/Examples/Launches.antt =====
-- launchFleet, and the routes, at small inputs.
use onfire.Prelude.{
  All2, ℕ, ◌≡◌, ◌↔◌, ◌⊎◌, refl, [], ◌∷◌, ◌++◌, true, false, ◌==◌, none, some, err, All, get_elem?,
}
use onfire.Prelude.Int.{ℤ, pos}
use onfire.Prelude.Text.{Text, codes, decimal, trim_prefix, cut}
use onfire.Vm.Config.{default_config}
use onfire.Api.State.{Server, ScenarioEntry, new_server, respond, message, in_progress, launched}
use onfire.Api.Fleets.{FleetCreateRequest}
use onfire.Api.Scenarios.{give_hint}
use onfire.Api.Launch.{LaunchDeps, launch_fleet}
use onfire.Api.Launch.Cleanup.{GivesBack, launch_fleet-GivesBack}
use onfire.Api.Routes.{Request, handle_vm}
use onfire.Prelude.Numerals.{atoi}
use onfire.Api.Routes.Owner.{is_owner, handle_vm-asks_owner}
use onfire.Examples.Sample.{thousandths}

-- Where every call succeeds.
abbrev smooth : LaunchDeps
smooth = record {
  ensure_tap = λ id. true;
  leaves_device = λ id. false;
  ensure_iso = λ dst src hostname. true;
  prepare_rootfs = λ base id size. some (codes "vm-" ++ decimal id);
  factory = λ cfg. true;
  starts = λ cfg. true;
  waits = λ cfg. true;
  cancelled = λ id stage. false;
}

-- Where the second VM has no TAP device.
abbrev uneven : LaunchDeps
uneven = record smooth { ensure_tap = λ id. id == 0; leaves_device = λ id. true }

launch_fleet-GivesBack_example :
    All2
      (λ id l. GivesBack uneven default_config id l.events)
      (0 ∷ 1 ∷ [])
      (launch_fleet uneven default_config (0 ∷ 1 ∷ [])).0
    × (((launch_fleet uneven default_config (0 ∷ 1 ∷ [])).1 ≡ none)
        ↔ All (λ l. l.error ≡ none) (launch_fleet uneven default_config (0 ∷ 1 ∷ [])).0)
launch_fleet-GivesBack_example = launch_fleet-GivesBack uneven default_config (0 ∷ 1 ∷ [])

all_well : (launch_fleet smooth default_config (0 ∷ 1 ∷ [])).1 ≡ none
unfolding launch_fleet default_config
all_well = refl

abbrev three_vms : FleetCreateRequest
three_vms = record {
  count = pos 3;
  kernel = [];
  rootfs = [];
  cloud_init_iso = [];
  mem_mb = pos 0;
  vcpus = pos 0;
  disk_mb = pos 0;
}

abbrev empty_server : Server ℤ
empty_server = new_server default_config

abbrev hint_request : Request
hint_request = record {
  method = codes "POST";
  path = codes "/api/v1/vms/12/hint";
  uuid = [];
  now = pos 0;
  since_run = pos 0;
  since_create = pos 0;
  fleet_body = err [];
  scenario_body = err [];
}

-- A scenario that runs and has the VM 12.
abbrev busy_entry : ScenarioEntry ℤ
busy_entry = record {
  id = codes "s";
  title = codes "Disk full";
  file = codes "minimal.yaml";
  status = in_progress;
  score = pos 100;
  elapsed = pos 0;
  hints_used = 0;
  vms = record { id = 12; ip = codes "172.16.12.2" } ∷ [];
  created_at = pos 0;
  runner = none;
  start_at = pos 0;
  vm_ids = 12 ∷ [];
  cancelled = false;
  phase = launched;
}

abbrev busy_server : Server ℤ
busy_server = record empty_server { scenarios = (codes "s", busy_entry) ∷ [] }

handle_vm-asks_owner_example :
    ((kv : Text × ScenarioEntry ℤ) × (i : ℕ) × (get_elem? busy_server.scenarios i ≡ some kv)
      × (is_owner (pos 12) kv ≡ true)
      × (handle_vm thousandths hint_request busy_server
          ≡ give_hint thousandths (pos 0) kv.0 busy_server kv.1 kv.1.runner))
    ⊎ (All (λ kv. is_owner (pos 12) kv ≡ false) busy_server.scenarios
        × (handle_vm thousandths hint_request busy_server
            ≡ (busy_server, respond 404 (message (codes "no running scenario owns this VM")))))
unfolding trim_prefix cut atoi
handle_vm-asks_owner_example =
    handle_vm-asks_owner thousandths hint_request busy_server (codes "12") (pos 12) refl refl refl
