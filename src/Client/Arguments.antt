-- ===== src/Client/Arguments.antt =====
-- The flags that the commands of onfirec/main.go declare, and what they make of them.
pub mod Ignored
use onfire.Prelude.{ℕ, List, [], ◌∷◌, Option, none, some, Result, ok, err}
use onfire.Prelude.Int.{ℤ, pos}
use onfire.Prelude.Text.{Text, codes}
use onfire.Flags.{Value, text, int, FlagSet, parsed, parse_flags, text_of, int_of, first_arg}
use onfire.Api.Fleets.{FleetCreateRequest}
use onfire.Api.Scenarios.{ScenarioCreateRequest}
use onfire.Client.{Flags}

abbrev pub fleet_create_set : FlagSet
fleet_create_set =
    (codes "count", int (pos 1))
    ∷ (codes "kernel", text [])
    ∷ (codes "rootfs", text [])
    ∷ (codes "cloud-init-iso", text [])
    ∷ (codes "mem", int (pos 0))
    ∷ (codes "vcpus", int (pos 0))
    ∷ (codes "disk", int (pos 0))
    ∷ []

abbrev pub scenario_run_set : FlagSet
scenario_run_set =
    (codes "scale", text [])
    ∷ (codes "web-port", int (pos 8888))
    ∷ (codes "kernel", text [])
    ∷ (codes "rootfs", text [])
    ∷ (codes "cloud-init-iso", text [])
    ∷ []

-- The maps that fleetCreate and scenarioRun send.
unfoldable pub fleet_request : FlagSet → FleetCreateRequest
unfolding text_of int_of
fleet_request fs = record {
  count = int_of (codes "count") fs;
  kernel = text_of (codes "kernel") fs;
  rootfs = text_of (codes "rootfs") fs;
  cloud_init_iso = text_of (codes "cloud-init-iso") fs;
  mem_mb = int_of (codes "mem") fs;
  vcpus = int_of (codes "vcpus") fs;
  disk_mb = int_of (codes "disk") fs;
}

-- The map has no key for the binary and the disks.
unfoldable pub scenario_request : FlagSet → Text → ScenarioCreateRequest
unfolding text_of int_of
scenario_request fs file = record {
  scenario_file = file;
  kernel = text_of (codes "kernel") fs;
  rootfs = text_of (codes "rootfs") fs;
  cloud_init_iso = text_of (codes "cloud-init-iso") fs;
  firecracker_bin = [];
  scale = text_of (codes "scale") fs;
  disk = [];
  web_port = int_of (codes "web-port") fs;
}

module _ (read : Text → Option ℤ) where
  -- The flags of the three kinds of commands; the commands with one argument declare none.
  unfoldable pub package_flags : Flags
  unfolding parse_flags fleet_request scenario_request
  package_flags = record {
    fleet_create =
        λ args. parsed (λ fs rest. fleet_request fs) (parse_flags read none fleet_create_set args);
    scenario_run = λ args.
        parsed (λ fs rest. scenario_request fs (first_arg rest))
          (parse_flags read none scenario_run_set args);
    arg = λ args. parsed (λ fs rest. first_arg rest) (parse_flags read none [] args);
  }
