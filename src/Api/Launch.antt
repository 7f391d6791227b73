-- ===== src/Api/Launch.antt =====
-- launchFleet of api/fleet.go, with the LaunchDeps of api/server.go. What each dependency answers is
-- a field of the record that the code is given; a machine is identified by its configuration.
pub mod Cleanup
pub mod Defaults
use onfire.Prelude.{ℕ, List, [], ◌∷◌, ◌++◌, Bool, true, Option, none, some, if◌then◌else◌, map, not}
use onfire.Prelude.Int.{ℤ}
use onfire.Prelude.Text.{Text, codes, decimal}
use onfire.Vm.Config.{Config, for_vm, is_empty}

pub data Stage : Type 0 where
  tap iso rootfs create start wait : Stage

-- `cancelled id stage` is whether ctx.Err() is set when the goroutine of a VM looks at it after a
-- failure of that stage. `leaves_device` is whether a call of EnsureTAP that fails has made the device.
-- The rest are the calls: whether they succeed, and the path of the copy.
pub record LaunchDeps : Type 0 where
  pub ensure_tap : ℕ → Bool
  pub leaves_device : ℕ → Bool
  pub ensure_iso : Text → Text → Text → Bool
  pub prepare_rootfs : Text → ℕ → ℤ → Option Text
  pub factory : Config → Bool
  pub starts : Config → Bool
  pub waits : Config → Bool
  pub cancelled : ℕ → Stage → Bool

-- What the calls of a goroutine make and undo, in their order: `tap_ensured` is the device that EnsureTAP
-- has made, also where it fails behind that.
pub data Event : Type 0 where
  tap_ensured tap_removed : ℕ → Event
  rootfs_prepared rootfs_removed : Text → Event
  machine_created machine_started machine_stopped : Config → Event

pub record LaunchError : Type 0 where
  pub id : ℕ
  pub stage : Stage

pub record Launch : Type 0 where
  pub events : List Event
  pub error : Option LaunchError

-- defer: the event at the end of what the rest of the function does, `first` at its beginning.
abbrev pub around : Event → Event → Launch → Launch
around first last l = record { events = first ∷ (l.events ++ (last ∷ [])); error = l.error }

module _ (deps : LaunchDeps) (base : Config) (id : ℕ) where
  -- if ctx.Err() == nil { errChan <- ... }
  abbrev pub stop_with : Stage → List Event → Launch
  stop_with stage events = record {
    events = events;
    error = if deps.cancelled id stage then none else some (record { id = id; stage = stage });
  }

  abbrev pub wait_for : Config → Launch
  wait_for cfg =
      if deps.waits cfg
      then record { events = machine_started cfg ∷ []; error = none }
      else stop_with wait (machine_started cfg ∷ [])

  unfoldable pub run_machine : Config → Launch
  run_machine cfg =
      if not (deps.factory cfg)
      then stop_with create []
      else around (machine_created cfg) (machine_stopped cfg)
          (if deps.starts cfg then wait_for cfg else stop_with start [])

  abbrev pub on_rootfs : Config → Option Text → Launch
  on_rootfs cfg none = stop_with rootfs []
  on_rootfs cfg (some path) =
      around (rootfs_prepared path) (rootfs_removed path)
        (run_machine (record cfg { rootfs_path = path }))

  unfoldable pub with_rootfs : Config → Launch
  unfolding run_machine
  with_rootfs cfg = on_rootfs cfg (deps.prepare_rootfs base.rootfs_path id base.rootfs_size_mib)

  -- The ISO is generated only where the base configuration names one.
  abbrev pub iso_ready : Config → Bool
  iso_ready cfg =
      if is_empty base.cloud_init_iso
      then true
      else deps.ensure_iso cfg.cloud_init_iso (codes "cloud-init-config.yaml")
          (codes "vm-" ++ decimal id)

  abbrev pub device_left : List Event
  device_left = if deps.leaves_device id then tap_ensured id ∷ [] else []

  unfoldable pub launch_vm : Launch
  unfolding with_rootfs for_vm
  launch_vm =
      let cfg = for_vm base id in
      if not (deps.ensure_tap id)
      then stop_with tap device_left
      else around (tap_ensured id) (tap_removed id)
          (if iso_ready cfg then with_rootfs cfg else stop_with iso [])

abbrev pub later_error : Option LaunchError → Option LaunchError → Option LaunchError
later_error last none = last
later_error last (some e) = some e

-- for err := range errChan { lastErr = err }
unfoldable pub last_error : List Launch → Option LaunchError → Option LaunchError
last_error [] last = last
last_error (l ∷ ls) last = last_error ls (later_error last l.error)

-- One goroutine for each VM. They run in parallel and share nothing but the channel: `ids` is in the
-- order in which they put their errors there.
unfoldable pub launch_fleet : LaunchDeps → Config → List ℕ → List Launch × Option LaunchError
unfolding launch_vm last_error
launch_fleet deps base ids =
    let launches = map (launch_vm deps base) ids in (launches, last_error launches none)
