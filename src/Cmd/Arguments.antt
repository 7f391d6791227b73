-- ===== src/Cmd/Arguments.antt =====
-- The flags that the commands of cmd/run.go, cmd/serve.go, cmd/server.go and cmd/scenario.go declare, and
-- the configurations that they make of them.
pub mod Parsed
use onfire.Prelude.{ℕ, List, [], ◌∷◌, ◌++◌, Bool, false, Option, none, some, Result, ok, err}
use onfire.Prelude.Int.{ℤ, pos}
use onfire.Prelude.Text.{Text, codes}
use onfire.Flags.{
  Value, text, int, bool, FlagSet, parsed, parse_flags, text_of, int_of, bool_of, first_arg,
}
use onfire.Vm.Config.{Config, default_config}
use onfire.Cmd.Terminal.{ScenarioFlags}

-- What runCmd, serveCmd and serverCmd have behind Parse. The last one has no count and no template, and
-- runCmd has no port.
pub record HostFlags : Type 0 where
  pub cfg : Config
  pub config : Text
  pub count : ℤ
  pub port : ℤ

-- The flags of runCmd, with DefaultConfig for some of the defaults.
unfoldable pub run_set : FlagSet
unfolding default_config
run_set =
    (codes "firecracker-bin", text [])
    ∷ (codes "socket", text default_config.socket_path)
    ∷ (codes "kernel", text [])
    ∷ (codes "rootfs", text [])
    ∷ (codes "vcpus", int default_config.vcpus)
    ∷ (codes "mem", int default_config.mem_size_mib)
    ∷ (codes "rootfs-size", int default_config.rootfs_size_mib)
    ∷ (codes "kernel-args", text default_config.kernel_args)
    ∷ (codes "tap", text [])
    ∷ (codes "mac", text [])
    ∷ (codes "log-level", text default_config.log_level)
    ∷ (codes "cloud-init-iso", text [])
    ∷ (codes "cloud-init-config", text (codes "cloud-init-config.yaml"))
    ∷ (codes "count", int (pos 1))
    ∷ []

-- Those of serveCmd.
unfoldable pub serve_set : FlagSet
unfolding run_set
serve_set = run_set ++ ((codes "port", int (pos 8080)) ∷ [])

-- Those of serverCmd.
unfoldable pub server_set : FlagSet
unfolding default_config
server_set =
    (codes "firecracker-bin", text [])
    ∷ (codes "kernel", text [])
    ∷ (codes "rootfs", text [])
    ∷ (codes "cloud-init-iso", text [])
    ∷ (codes "vcpus", int default_config.vcpus)
    ∷ (codes "mem", int default_config.mem_size_mib)
    ∷ (codes "rootfs-size", int default_config.rootfs_size_mib)
    ∷ (codes "port", int (pos 8888))
    ∷ []

-- Those of scenarioRunCmd.
abbrev pub scenario_set : FlagSet
scenario_set =
    (codes "kernel", text [])
    ∷ (codes "rootfs", text [])
    ∷ (codes "firecracker-bin", text [])
    ∷ (codes "cloud-init-iso", text [])
    ∷ (codes "scale", text [])
    ∷ (codes "disk", text [])
    ∷ (codes "dry-run", bool false)
    ∷ (codes "port", int (pos 8888))
    ∷ []

unfoldable pub run_config : FlagSet → Config
unfolding text_of int_of default_config
run_config fs = record default_config {
  firecracker_bin = text_of (codes "firecracker-bin") fs;
  socket_path = text_of (codes "socket") fs;
  kernel_image_path = text_of (codes "kernel") fs;
  rootfs_path = text_of (codes "rootfs") fs;
  vcpus = int_of (codes "vcpus") fs;
  mem_size_mib = int_of (codes "mem") fs;
  rootfs_size_mib = int_of (codes "rootfs-size") fs;
  kernel_args = text_of (codes "kernel-args") fs;
  tap_device_name = text_of (codes "tap") fs;
  mac_address = text_of (codes "mac") fs;
  log_level = text_of (codes "log-level") fs;
  cloud_init_iso = text_of (codes "cloud-init-iso") fs;
}

unfoldable pub server_config : FlagSet → Config
unfolding text_of int_of default_config
server_config fs = record default_config {
  firecracker_bin = text_of (codes "firecracker-bin") fs;
  kernel_image_path = text_of (codes "kernel") fs;
  rootfs_path = text_of (codes "rootfs") fs;
  cloud_init_iso = text_of (codes "cloud-init-iso") fs;
  vcpus = int_of (codes "vcpus") fs;
  mem_size_mib = int_of (codes "mem") fs;
  rootfs_size_mib = int_of (codes "rootfs-size") fs;
}

unfoldable pub host_flags : FlagSet → HostFlags
unfolding run_config
host_flags fs = record {
  cfg = run_config fs;
  config = text_of (codes "cloud-init-config") fs;
  count = int_of (codes "count") fs;
  port = int_of (codes "port") fs;
}

unfoldable pub scenario_flags : FlagSet → Text → ScenarioFlags
unfolding text_of int_of bool_of
scenario_flags fs file = record {
  kernel = text_of (codes "kernel") fs;
  rootfs = text_of (codes "rootfs") fs;
  firecracker_bin = text_of (codes "firecracker-bin") fs;
  cloud_init_iso = text_of (codes "cloud-init-iso") fs;
  scale = text_of (codes "scale") fs;
  disk = text_of (codes "disk") fs;
  dry_run = bool_of (codes "dry-run") fs;
  port = int_of (codes "port") fs;
  file = file;
}

module _ (read : Text → Option ℤ) where
  unfoldable pub run_arguments : List Text → Result ℕ HostFlags
  unfolding parse_flags host_flags run_set
  run_arguments args = parsed (λ fs rest. host_flags fs) (parse_flags read none run_set args)

  unfoldable pub serve_arguments : List Text → Result ℕ HostFlags
  unfolding parse_flags host_flags serve_set
  serve_arguments args = parsed (λ fs rest. host_flags fs) (parse_flags read none serve_set args)

  -- The configuration of the server, and its port.
  unfoldable pub server_arguments : List Text → Result ℕ (Config × ℤ)
  unfolding parse_flags server_config server_set
  server_arguments args =
      parsed (λ fs rest. (server_config fs, int_of (codes "port") fs))
        (parse_flags read none server_set args)

  unfoldable pub scenario_arguments : List Text → Result ℕ ScenarioFlags
  unfolding parse_flags scenario_flags
  scenario_arguments args =
      parsed (λ fs rest. scenario_flags fs (first_arg rest))
        (parse_flags read none scenario_set args)
