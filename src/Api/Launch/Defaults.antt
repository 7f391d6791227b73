-- ===== src/Api/Launch/Defaults.antt =====
-- DefaultLaunchDeps of api/server.go: launchFleet with the functions of package vm.
pub mod Composed
use onfire.Prelude.{ℕ, Bool, true, false, Option, none, some, Result, ok, err}
use onfire.Prelude.Text.{Text}
use onfire.Vm.Config.{Config, Host}
use onfire.Vm.Machine.{Sdk, new}
use onfire.Vm.RootFs.{Tools, RootError, prepare_rootfs}
use onfire.Vm.Tap
use onfire.Vm.Tap.{Command}
use onfire.Api.Launch.{LaunchDeps, Stage}
use onfire.Cmd.Fleet.{ensure_cloud_init_iso}

-- What the functions of package vm are given by the host: the commands of EnsureTAP, the tools of
-- PrepareRootFS for a base image, the SDK and the environment of New, and os.Stat and the script of
-- EnsureCloudInitISO; with the Start and Wait of a machine, and the context.
pub record HostCalls : Type 0 where
  pub run : Command → Option Text
  pub tools : Text → Tools
  pub sdk : Sdk
  pub host : Host
  pub exists : Text → Bool
  pub makes_iso : Text → Text → Text → Bool
  pub starts : Config → Bool
  pub waits : Config → Bool
  pub cancelled : ℕ → Stage → Bool

abbrev pub is_nil {ℓ} : {A : Type ℓ} → Option A → Bool
is_nil none = true
is_nil (some a) = false

abbrev pub path_of : Result RootError Text → Option Text
path_of (ok path) = some path
path_of (err e) = none

unfoldable pub default_launch_deps : HostCalls → LaunchDeps
unfolding Tap.ensure_tap Tap.has_device prepare_rootfs new ensure_cloud_init_iso
default_launch_deps calls = record {
  ensure_tap = λ id. is_nil (Tap.ensure_tap calls.run id).error;
  leaves_device = Tap.has_device calls.run;
  ensure_iso =
      λ dst src hostname. ensure_cloud_init_iso calls.exists calls.makes_iso dst src hostname;
  prepare_rootfs = λ base id size. path_of (prepare_rootfs (calls.tools base) id size).result;
  factory = λ cfg. is_nil (new calls.sdk calls.host cfg).error;
  starts = calls.starts;
  waits = calls.waits;
  cancelled = calls.cancelled;
}
