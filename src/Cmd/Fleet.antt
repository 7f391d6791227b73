-- ===== src/Cmd/Fleet.antt =====
-- cmd/fleet.go, and cmd/run.go that calls it; EnsureCloudInitISO is that of vm/cloudinit.go. What the
-- host answers is a record, as in Api/Launch.
pub mod Leaks
use onfire.Prelude.{
  ℕ, zero, suc, ◌+◌, List, [], ◌∷◌, ◌++◌, Bool, true, false, ◌&&◌, ◌||◌, not, Option, none, some,
  if◌then◌else◌, map, ◌==◌, ltb,
}
use onfire.Prelude.Int.{ℤ, pos, negsuc, pos_part, ltb_ℤ}
use onfire.Prelude.Text.{Text, codes, decimal}
use onfire.Vm.Config.{Config, for_vm, is_empty}
use onfire.Api.Launch.{
  Stage, tap, iso, rootfs, create, start, wait, LaunchDeps, Event, tap_ensured, tap_removed,
  rootfs_prepared, rootfs_removed, machine_created, machine_started, machine_stopped, LaunchError,
  Launch, around, stop_with, run_machine, iso_ready, last_error, device_left,
}
use onfire.Scenario.Boot.{iso_stem, iso_path}

-- `exists` is whether os.Stat finds the file, `runs` whether the script succeeds.
unfoldable pub ensure_cloud_init_iso :
    (Text → Bool) → (Text → Text → Text → Bool) → Text → Text → Text → Bool
ensure_cloud_init_iso exists runs dst config hostname =
    if exists dst then true else runs dst config hostname

abbrev pub hostname_of : ℕ → Text
hostname_of i = codes "vm-" ++ decimal i

-- The number of the VM whose image is not made, from number `i` on, for `n` VMs.
unfoldable pub generate_isos : (Text → Text → Text → Bool) → Text → Text → ℕ → ℕ → Option ℕ
unfolding iso_path decimal
generate_isos runs stem config i zero = none
generate_isos runs stem config i (suc n) =
    let rest = generate_isos runs stem config (i + 1) n in
    if runs (iso_path stem i) config (hostname_of i) then rest else some i

-- The `n` numbers from `i` on, which the loop hands to its goroutines.
unfoldable pub numbers_from : ℕ → ℕ → List ℕ
numbers_from i zero = []
numbers_from i (suc n) = i ∷ numbers_from (i + 1) n

module _ (deps : LaunchDeps) (base : Config) (id : ℕ) where
  -- The device comes behind the root image, then the image for cloud-init. Nothing removes the device.
  abbrev pub with_device : Config → Launch
  with_device cfg =
      if not (deps.ensure_tap id)
      then stop_with deps base id tap (device_left deps base id)
      else let l =
          if iso_ready deps base id cfg
          then run_machine deps base id cfg
          else stop_with deps base id iso [] in
        record { events = tap_ensured id ∷ l.events; error = l.error }

  abbrev pub with_image : Option Text → Launch
  with_image none = stop_with deps base id rootfs []
  with_image (some path) =
      around (rootfs_prepared path) (rootfs_removed path)
        (with_device (record (for_vm base id) { rootfs_path = path }))

  unfoldable pub launch_one : Launch
  unfolding for_vm run_machine
  launch_one = with_image (deps.prepare_rootfs base.rootfs_path id base.rootfs_size_mib)

-- launchFleet of package cmd: the VMs are numbered from 0.
unfoldable pub launch_all : LaunchDeps → Config → ℕ → List Launch × Option LaunchError
unfolding launch_one numbers_from last_error
launch_all deps base count =
    let launches = map (launch_one deps base) (numbers_from 0 count) in
    (launches, last_error launches none)

-- runSingleVM, with the configuration as it is: the calls, and the exit code.
unfoldable pub run_single : LaunchDeps → Config → List Event × ℕ
run_single deps cfg =
    if not (deps.factory cfg)
    then ([], 1)
    else if not (deps.starts cfg)
    then (machine_created cfg ∷ [], 1)
    else if not (deps.waits cfg) && not (deps.cancelled 0 wait)
    then (machine_created cfg ∷ machine_started cfg ∷ [], 1)
    else (machine_created cfg ∷ machine_started cfg ∷ machine_stopped cfg ∷ [], 0)

abbrev exit_code : Option LaunchError → ℕ
exit_code none = 0
exit_code (some e) = 1

abbrev joined : List Launch → List Event
joined [] = []
joined (l ∷ ls) = l.events ++ joined ls

-- What a command does, and its exit code; none where it panics.
abbrev pub CmdEnd : Type 0
CmdEnd = List Event × Option ℕ

-- launchFleet, which makes a channel of the size of the count.
abbrev pub launch_count : LaunchDeps → Config → ℤ → CmdEnd
launch_count deps cfg (negsuc n) = ([], none)
launch_count deps cfg (pos n) =
    let all = launch_all deps cfg n in (joined all.0, some (exit_code all.1))

abbrev launch_any : LaunchDeps → Config → ℤ → CmdEnd
launch_any deps cfg count =
    if ltb_ℤ count (pos 1) || ltb_ℤ (pos 1) count
    then launch_count deps cfg count
    else ((run_single deps cfg).0, some (run_single deps cfg).1)

abbrev after_isos : LaunchDeps → Config → ℤ → Option ℕ → CmdEnd
after_isos deps cfg count (some i) = ([], some 1)
after_isos deps cfg count none = launch_any deps cfg count

abbrev with_stem :
    LaunchDeps → (Text → Text → Text → Bool) → Text → Config → ℤ → Option Text → CmdEnd
with_stem deps runs config cfg count none = ([], none)
with_stem deps runs config cfg count (some stem) =
    after_isos deps cfg count (generate_isos runs stem config 0 (pos_part count))

-- runCmd behind its flags: the configuration, the template for cloud-init and the count. The path of
-- the image loses its last four characters, which panics if it has fewer.
unfoldable pub run_cmd : LaunchDeps → (Text → Text → Text → Bool) → Text → Config → ℤ → CmdEnd
unfolding launch_all run_single generate_isos iso_stem
run_cmd deps runs config cfg count =
    if ltb_ℤ (pos 1) count && not (is_empty cfg.cloud_init_iso)
    then with_stem deps runs config cfg count (iso_stem cfg.cloud_init_iso)
    else launch_any deps cfg count
