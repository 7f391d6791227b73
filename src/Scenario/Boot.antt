-- ===== src/Scenario/Boot.antt =====
-- The beginning of Run of scenario/runner.go, up to the point where the VMs have been started: the
-- images for cloud-init, and a goroutine for each VM of the plan. What the host answers is a record. The
-- errors of the goroutines go into a channel that nothing reads.
pub mod Leaks
use onfire.Prelude.{
  take, ℕ, ◌-◌, List, [], ◌∷◌, ◌++◌, Bool, true, false, not, Option, none, some, if◌then◌else◌, map,
  length, leb,
}
use onfire.Prelude.Int.{ℤ, pos, ltb_ℤ}
use onfire.Prelude.Text.{Text, codes, decimal, text_eq}
use onfire.Vm.Config.{Config, default_config, for_vm, is_empty}
use onfire.Scenario.Types.{VmEntry, RunOptions}
use onfire.Scenario.Runner.{Runner}
use onfire.Api.Launch.{
  Event, tap_ensured, tap_removed, rootfs_prepared, rootfs_removed, machine_created,
  machine_started, machine_stopped,
}

-- `makes_iso dst hostname` is whether make-cloud-init-iso.sh succeeds, and the rest are the calls of
-- package vm; `leaves_device` is whether an EnsureTAP that fails has made the device.
pub record BootDeps : Type 0 where
  pub makes_iso : Text → Text → Bool
  pub ensure_tap : ℕ → Bool
  pub leaves_device : ℕ → Bool
  pub prepare_rootfs : Text → ℕ → ℤ → Option Text
  pub writes_motd : Text → Bool
  pub factory : Config → Bool
  pub starts : Config → Bool

pub data BootStage : Type 0 where
  tap rootfs create start : BootStage

-- What a goroutine does, whether it has printed the warning about the message of the day, and the error
-- that it puts into the channel.
pub record Boot : Type 0 where
  pub events : List Event
  pub warned : Bool
  pub error : Option BootStage

abbrev pub base_config : RunOptions → Config
base_config o = record default_config {
  kernel_image_path = o.kernel_path;
  rootfs_path = o.rootfs_path;
  cloud_init_iso = o.cloud_init_iso;
  firecracker_bin =
      if is_empty o.firecracker_bin then default_config.firecracker_bin else o.firecracker_bin;
}

-- base[:len(base)-4], none where the code panics.
unfoldable pub iso_stem : Text → Option Text
iso_stem iso = if leb 4 (length iso) then some (take (length iso - 4) iso) else none

unfoldable pub iso_path : Text → ℕ → Text
unfolding decimal
iso_path stem index = stem ++ (b'-' ∷ (decimal index ++ codes ".iso"))

-- The name of the first VM whose image is not made.
unfoldable pub make_isos : (Text → Text → Bool) → Text → List VmEntry → Option Text
unfolding iso_path
make_isos makes stem [] = none
make_isos makes stem (e ∷ es) =
    let rest = make_isos makes stem es in
    if makes (iso_path stem e.index) e.name then rest else some e.name

abbrev pub if_positive : ℤ → ℤ → ℤ
if_positive n old = if ltb_ℤ (pos 0) n then n else old

abbrev if_zero : ℤ → ℤ → ℤ
if_zero (pos n) d = if leb n 0 then d else pos n
if_zero n d = n

module _ (deps : BootDeps) (motd : Text) (base : Config) (e : VmEntry) where
  abbrev pub entry_config : Config
  entry_config =
      let cfg = for_vm base e.index in
      record cfg {
        vcpus = if_positive e.vcpus cfg.vcpus;
        mem_size_mib = if_positive e.mem_mb cfg.mem_size_mib;
      }

  abbrev pub stop_at : BootStage → List Event → Boot
  stop_at stage events = record { events = events; warned = false; error = some stage }

  -- defer: the event at the end of what the rest of the function does, `first` at its beginning.
  abbrev pub between : Event → Event → Boot → Boot
  between first last b = record b { events = first ∷ (b.events ++ (last ∷ [])) }

  unfoldable pub boot_machine : Config → Boot
  boot_machine cfg =
      if not (deps.factory cfg)
      then stop_at create []
      else between (machine_created cfg) (machine_stopped cfg) (
          if deps.starts cfg
          then record { events = machine_started cfg ∷ []; warned = false; error = none }
          else stop_at start [])

  -- A message of the day that is not written is only a warning.
  abbrev pub warn : Text → Boot → Boot
  warn path b = record b { warned = if text_eq motd [] then false else not (deps.writes_motd path) }

  abbrev pub boot_image : Option Text → Boot
  boot_image none = stop_at rootfs []
  boot_image (some path) =
      between (rootfs_prepared path) (rootfs_removed path)
        (warn path (boot_machine (record entry_config { rootfs_path = path })))

  -- PrepareRootFS, at the size of the tier or the one of the configuration.
  abbrev pub prepared : Option Text
  prepared = deps.prepare_rootfs base.rootfs_path e.index (if_zero e.disk_mb base.rootfs_size_mib)

  -- The goroutine of a VM. Nothing removes the device again.
  unfoldable pub boot_vm : Boot
  unfolding boot_machine for_vm
  boot_vm =
      if not (deps.ensure_tap e.index)
      then stop_at tap (if deps.leaves_device e.index then tap_ensured e.index ∷ [] else [])
      else let b = boot_image prepared in record b { events = tap_ensured e.index ∷ b.events }

-- How far Run comes: a dry run, an image that is not made, a panic, or the VMs that were booted.
pub data Booted : Type 0 where
  dry iso_panicked : Booted
  iso_failed : Text → Booted
  booted : List Boot → Booted

abbrev boot_all : BootDeps → Text → Config → List VmEntry → Option Text → Booted
boot_all deps motd base es (some name) = iso_failed name
boot_all deps motd base es none = booted (map (boot_vm deps motd base) es)

abbrev with_stem : BootDeps → Text → Config → List VmEntry → Option Text → Booted
with_stem deps motd base es none = iso_panicked
with_stem deps motd base es (some stem) =
    boot_all deps motd base es (make_isos deps.makes_iso stem es)

-- `motd` is what buildMOTD gives.
unfoldable pub boot : {R : Type 0} → BootDeps → Text → Runner R → Booted
unfolding boot_vm make_isos iso_stem default_config
boot deps motd r =
    let base = base_config r.opts in
    if r.opts.dry_run
    then dry
    else if is_empty r.opts.cloud_init_iso
    then boot_all deps motd base r.plan.vms none
    else with_stem deps motd base r.plan.vms (iso_stem r.opts.cloud_init_iso)
