-- ===== src/Scenario/Boot/Leaks.antt =====
-- What the goroutines of Run leave behind.
use onfire.Prelude.{
  ◌-◌, ◌≤◌, ◌⊎◌, ◌||◌, length, take, ◌≡◌, List, [], ◌∷◌, true, false, All, map, if◌then◌else◌,
}
use onfire.Prelude.Text.{Text}
use onfire.Vm.Config.{Config, is_empty}
use onfire.Api.Launch.{Event, tap_ensured}
use onfire.Api.Launch.Cleanup.{IsBalanced}
use onfire.Scenario.Types.{VmEntry}
use onfire.Scenario.Runner.{Runner}
use onfire.Scenario.Boot.{iso_path, BootDeps, Boot, base_config, boot_vm}

module _ (deps : BootDeps) (motd : Text) (base : Config) (e : VmEntry) where
  -- The device of the VM stays, and everything behind it is undone.
  abbrev pub LeavesTap : Boot → Type 0
  LeavesTap b =
      (es : List Event) × IsBalanced es
      × (b.events ≡ (
          if deps.ensure_tap e.index || deps.leaves_device e.index
          then tap_ensured e.index ∷ es
          else []))

-- Run gets to the VMs: it is no dry run, and there is no image for cloud-init, or its path has at least
-- four characters and the script makes the image of each VM.
abbrev pub IsBootable : {R : Type 0} → BootDeps → Runner R → Type 0
IsBootable deps r =
    let iso = r.opts.cloud_init_iso in
    (r.opts.dry_run ≡ false)
    × ((is_empty iso ≡ true)
        ⊎ ((4 ≤ length iso)
            × All (λ e. deps.makes_iso (iso_path (take (length iso - 4) iso) e.index) e.name ≡ true)
                r.plan.vms))

module _ {R : Type 0} (deps : BootDeps) (motd : Text) (r : Runner R) where
  abbrev all_booted : List Boot
  all_booted = map (boot_vm deps motd (base_config r.opts)) r.plan.vms
