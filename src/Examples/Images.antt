-- ===== src/Examples/Images.antt =====
-- A VM's machine at small inputs, and a launch on a host that has all that it takes.
use onfire.Prelude.{◌≡◌, refl, [], true, false, none, some, ◌∷◌, All}
use onfire.Prelude.Text.{codes}
use onfire.Vm.Config.{Config, Host, default_config, validate}
use onfire.Vm.Machine.{Sdk, new}
use onfire.Vm.Machine.Resources.{IsMade, new-IsMade}
use onfire.Api.Launch.{launch_fleet, launch_vm}
use onfire.Api.Launch.Cleanup.{HasRun}
use onfire.Api.Launch.Defaults.{HostCalls, default_launch_deps}
use onfire.Api.Launch.Defaults.Composed.{IsSetUp, default_launch_fleet-IsSetUp}

abbrev pub host : Host
host = record { firecracker_env = []; firecracker_in_path = some (codes "/usr/bin/firecracker") }

abbrev pub sdk : Sdk
sdk = record {
  root_drives = λ path. [];
  creates = λ path. true;
  parses = λ level. none;
  machine = λ bin streams level cfg. true;
}

abbrev pub config : Config
config = record default_config {
  kernel_image_path = codes "vmlinux";
  rootfs_path = codes "rootfs.ext4";
  log_path = codes "vm-3.log";
}

new-IsMade_example : IsMade sdk (validate host config) (new sdk host config)
new-IsMade_example = new-IsMade sdk host config

made_without_error : (new sdk host config).error ≡ none
unfolding new validate default_config
made_without_error = refl

-- Every command and every call succeeds.
abbrev calls : HostCalls
calls = record {
  run = λ c. none;
  tools = λ base. record {
    clones = true;
    copies = true;
    leaves_copy = true;
    temp = some (codes "/tmp/hostname-1");
    writes = true;
    script = some (codes "/tmp/debugfs-script-2");
    debugfs = λ script image. true;
    truncates = λ size. true;
    resizes = true;
  };
  sdk = sdk;
  host = host;
  exists = λ path. true;
  makes_iso = λ dst config hostname. true;
  starts = λ cfg. true;
  waits = λ cfg. true;
  cancelled = λ id stage. false;
}

launched : (launch_fleet (default_launch_deps calls) config (4 ∷ [])).1 ≡ none
unfolding launch_fleet default_launch_deps default_config validate
launched = refl

default_launch_fleet-IsSetUp_example :
    let deps = default_launch_deps calls in
    All
      (λ id. IsSetUp calls config id × HasRun deps config id (launch_vm deps config id).events)
      (4 ∷ [])
default_launch_fleet-IsSetUp_example =
    default_launch_fleet-IsSetUp calls config (4 ∷ []) (λ id stage. refl) launched
