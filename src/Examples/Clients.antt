-- ===== src/Examples/Clients.antt =====
-- The client at small inputs.
use onfire.Prelude.{
  ℕ, ◌≡◌, refl, List, [], ◌∷◌, true, Option, none, some, ok, err, Result, if◌then◌else◌,
}
use onfire.Prelude.Int.{ℤ, pos}
use onfire.Prelude.Text.{Text, codes, text_eq}
use onfire.Prelude.Dict.{lookup}
use onfire.Vm.Config.{default_config}
use onfire.Scenario.Types.{Scenario}
use onfire.Scenario.Parser.{LoadError, unreadable}
use onfire.Api.State.{Server, new_server, Body, no_body}
use onfire.Api.Fleets.{FleetCreateRequest, create_fleet, stop_fleet}
use onfire.Api.Scenarios.{ScenarioCreateRequest}
use onfire.Api.Routes.{Request}
use onfire.Client.{Flags, looks_like_uuid, client}
use onfire.Client.Arguments.{package_flags}
use onfire.Client.Fleets.{exchange, finished_delete, exchange-fleet_delete}
use onfire.Examples.Sample.{thousandths}

abbrev uuid : Text
uuid = codes "01234567-89ab-cdef-0123-456789ABCDEF"

uuid_accepted : looks_like_uuid uuid ≡ true
unfolding looks_like_uuid
uuid_accepted = refl

abbrev one_vm : FleetCreateRequest
one_vm = record {
  count = pos 1;
  kernel = codes "vmlinux";
  rootfs = codes "rootfs.ext4";
  cloud_init_iso = [];
  mem_mb = pos 0;
  vcpus = pos 0;
  disk_mb = pos 0;
}

abbrev play : ScenarioCreateRequest
play = record {
  scenario_file = codes "disk.yaml";
  kernel = [];
  rootfs = [];
  cloud_init_iso = [];
  firecracker_bin = [];
  scale = [];
  disk = [];
  web_port = pos 8888;
}

abbrev first : List Text → Result ℕ Text
first [] = ok []
first (a ∷ rest) = ok a

abbrev flags : Flags
flags = record { fleet_create = λ args. ok one_vm; scenario_run = λ args. ok play; arg = first }

abbrev no_file : Text → Result LoadError (Scenario ℤ)
no_file path = err unreadable

abbrev base : Request
base = record {
  method = [];
  path = [];
  uuid = uuid;
  now = pos 0;
  since_run = pos 0;
  since_create = pos 0;
  fleet_body = err [];
  scenario_body = err [];
}

abbrev raw : Text → Option Text
raw text = none

abbrev encode : Body ℤ → Text
encode b = []

abbrev server : Server ℤ
server = (create_fleet uuid (pos 0) (ok one_vm) (new_server default_config)).0

exchange-fleet_delete_example :
    exchange thousandths no_file no_body base encode raw
      (client flags (codes "http://localhost:8888") (codes "fleet" ∷ codes "delete" ∷ uuid ∷ []))
      server
    ≡ (if looks_like_uuid uuid
        then (
          finished_delete thousandths no_file no_body base encode raw uuid
              (lookup uuid server.fleets),
          stop_fleet uuid server,
        )
        else (record { code = 1; output = [] }, server))
exchange-fleet_delete_example =
    exchange-fleet_delete thousandths no_file no_body base encode raw flags
      (codes "http://localhost:8888") (uuid ∷ []) uuid server refl

-- strconv.ParseInt of the one number that is written here.
abbrev reads_two : Text → Option ℤ
reads_two t = if text_eq t (codes "2") then some (pos 2) else none

abbrev real_flags : Flags
real_flags = package_flags reads_two

abbrev two_args : List Text
two_args = codes "--count" ∷ codes "2" ∷ []

abbrev file_args : List Text
file_args = codes "scenarios/monolith/disk-full.yaml" ∷ []

abbrev two_vms : FleetCreateRequest
two_vms = record one_vm { count = pos 2; kernel = []; rootfs = [] }

abbrev disk_play : ScenarioCreateRequest
disk_play = record play { scenario_file = codes "scenarios/monolith/disk-full.yaml" }
