-- ===== src/Vm/Machine.antt =====
-- vm/machine.go: New, Start, Wait and Stop. The SDK is an argument: whether NewMachine, Start and Wait
-- succeed, and the levels that logrus parses. The calls on files and on the VMM are a list.
pub mod Resources
use onfire.Prelude.{List, [], ◌∷◌, ◌++◌, Bool, true, false, not, Option, none, some, if◌then◌else◌}
use onfire.Prelude.Int.{ℤ}
use onfire.Prelude.Text.{Text, codes}
use onfire.Vm.Config.{Config, ConfigError, Host, validate, is_empty}

pub record Drive : Type 0 where
  pub drive_id : Text
  pub path : Text
  pub is_read_only : Bool
  pub is_root_device : Bool

pub record Interface : Type 0 where
  pub mac_address : Text
  pub host_dev_name : Text

-- firecracker.Config. `root` is what the builder of the SDK makes of the root image.
pub record MachineConfig : Type 0 where
  pub socket_path : Text
  pub kernel_image_path : Text
  pub kernel_args : Text
  pub drives : List Drive
  pub log_level : Text
  pub vcpu_count : ℤ
  pub mem_size_mib : ℤ
  pub smt : Bool
  pub interfaces : List Interface

-- The streams of the process of the VMM: those of this process, or nothing and a file.
pub data Streams : Type 0 where
  inherited : Streams
  to_file : Text → Streams

pub data Action : Type 0 where
  socket_removed log_created log_closed : Text → Action
  vmm_stopped : Action

-- `root_drives` is NewDrivesBuilder(path).Build(), `parses` whether logrus knows a level, and
-- `machine` whether NewMachine succeeds for a binary, its streams and a level.
pub record Sdk : Type 0 where
  pub root_drives : Text → List Drive
  pub creates : Text → Bool
  pub parses : Text → Option Text
  pub machine : Text → Streams → Text → MachineConfig → Bool

pub data MachineError : Type 0 where
  invalid_config : ConfigError → MachineError
  log_failed create_failed : MachineError

pub record Machine : Type 0 where
  pub cfg : Config
  pub given : MachineConfig
  pub streams : Streams
  pub level : Text
  pub log_file : Option Text

pub record Made : Type 0 where
  pub actions : List Action
  pub machine : Option Machine
  pub error : Option MachineError

abbrev pub cloud_drive : Text → List Drive
cloud_drive [] = []
cloud_drive (c ∷ iso) =
    record {
      drive_id = codes "cloudinit";
      path = c ∷ iso;
      is_read_only = true;
      is_root_device = false;
    }
    ∷ []

abbrev pub default_mac : Text → Text
default_mac [] = codes "AA:FC:00:00:00:01"
default_mac (c ∷ mac) = c ∷ mac

abbrev pub tap_interface : Text → Text → List Interface
tap_interface mac [] = []
tap_interface mac (c ∷ tap) = record { mac_address = default_mac mac; host_dev_name = c ∷ tap } ∷ []

unfoldable pub machine_config : Sdk → Config → MachineConfig
machine_config sdk cfg = record {
  socket_path = cfg.socket_path;
  kernel_image_path = cfg.kernel_image_path;
  kernel_args = cfg.kernel_args;
  drives = sdk.root_drives cfg.rootfs_path ++ cloud_drive cfg.cloud_init_iso;
  log_level = cfg.log_level;
  vcpu_count = cfg.vcpus;
  mem_size_mib = cfg.mem_size_mib;
  smt = false;
  interfaces = tap_interface cfg.mac_address cfg.tap_device_name;
}

-- The level of the logger: "error" unless the configuration names one that can be parsed.
abbrev known_level : Option Text → Text
known_level none = codes "error"
known_level (some level) = level

abbrev pub level_of : Sdk → Text → Text
level_of sdk [] = codes "error"
level_of sdk (c ∷ text) = known_level (sdk.parses (c ∷ text))

abbrev closed : Option Text → List Action
closed none = []
closed (some path) = log_closed path ∷ []

abbrev opened : Option Text → List Action
opened none = []
opened (some path) = log_created path ∷ []

abbrev pub streams_of : Option Text → Streams
streams_of none = inherited
streams_of (some path) = to_file path

-- NewMachine, with the log file that was opened, if there is one: it is closed again on an error.
unfoldable pub new_machine : Sdk → Config → Option Text → Made
unfolding machine_config
new_machine sdk cfg log =
    if sdk.machine cfg.firecracker_bin (streams_of log) (level_of sdk cfg.log_level)
      (machine_config sdk cfg)
    then record {
      actions = socket_removed cfg.socket_path ∷ opened log;
      machine = some (record {
        cfg = cfg;
        given = machine_config sdk cfg;
        streams = streams_of log;
        level = level_of sdk cfg.log_level;
        log_file = log;
      });
      error = none;
    }
    else record {
      actions = socket_removed cfg.socket_path ∷ (opened log ++ closed log);
      machine = none;
      error = some create_failed;
    }

abbrev pub failed_machine : List Action → MachineError → Made
failed_machine actions e = record { actions = actions; machine = none; error = some e }

abbrev pub with_log : Sdk → Config → Text → Made
with_log sdk cfg [] = new_machine sdk cfg none
with_log sdk cfg (c ∷ path) =
    if sdk.creates (c ∷ path)
    then new_machine sdk cfg (some (c ∷ path))
    else failed_machine (socket_removed cfg.socket_path ∷ []) log_failed

abbrev pub when_valid : Sdk → Config × Option ConfigError → Made
when_valid sdk (cfg, some e) = failed_machine [] (invalid_config e)
when_valid sdk (cfg, none) = with_log sdk cfg cfg.log_path

-- New. The configuration is a copy, in which Validate has stored the binary.
unfoldable pub new : Sdk → Host → Config → Made
unfolding validate new_machine
new sdk host cfg = when_valid sdk (validate host cfg)

-- Stop.
unfoldable pub stop : Machine → List Action
stop m = vmm_stopped ∷ (socket_removed m.cfg.socket_path ∷ closed m.log_file)
