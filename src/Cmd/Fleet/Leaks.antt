-- ===== src/Cmd/Fleet/Leaks.antt =====
-- What launchFleet of cmd/fleet.go leaves behind.
use onfire.Prelude.{
  ◌||◌, length, ℕ, zero, suc, ◌+◌, ◌≡◌, refl, ap, List, [], ◌∷◌, ◌++◌, Option, none, some,
  Bool-cases, Option-cases, inl, inr, map, if◌then◌else◌,
}
use onfire.Prelude.Text.{Text}
use onfire.Vm.Config.{Config, for_vm}
use onfire.Api.Launch.{
  LaunchDeps, Launch, Event, tap_ensured, rootfs_prepared, rootfs_removed, iso_ready,
}
use onfire.Api.Launch.Cleanup.{IsBalanced, nothing, run_machine-IsBalanced}
use onfire.Cmd.Fleet.{launch_one, launch_all, numbers_from, with_device}

-- All that is done behind the device is undone, and the image goes; the device stays.
abbrev pub LeavesDevice : LaunchDeps → Config → ℕ → Launch → Type 0
LeavesDevice deps base id l =
    (es : List Event) × IsBalanced es
    × (l.events ≡ left (deps.prepare_rootfs base.rootfs_path id base.rootfs_size_mib) es)
  where
    left : Option Text → List Event → List Event
    left none es = []
    left (some path) es =
        rootfs_prepared path
        ∷ ((if deps.ensure_tap id || deps.leaves_device id then tap_ensured id ∷ es else [])
            ++ (rootfs_removed path ∷ []))

module _ (deps : LaunchDeps) (base : Config) (id : ℕ) where
  -- What stands behind the device of a VM.
  behind_device :
      (cfg : Config)
      → (es : List Event) × IsBalanced es
        × ((with_device deps base id cfg).events
            ≡ (if deps.ensure_tap id || deps.leaves_device id then tap_ensured id ∷ es else []))
  behind_device cfg = elim (Bool-cases (deps.ensure_tap id)) [
    | inr f ↦ elim (Bool-cases (deps.leaves_device id)) [
      | inl l ↦ rw (f, l) ([], nothing, refl)
      | inr l ↦ rw (f, l) ([], nothing, refl)
    ]
    | inl t ↦ elim (Bool-cases (iso_ready deps base id cfg)) [
      | inl i ↦ rw (t, i) (_, run_machine-IsBalanced deps base id cfg, refl)
      | inr n ↦ rw (t, n) ([], nothing, refl)
    ]
  ]

  launch_one-LeavesDevice : LeavesDevice deps base id (launch_one deps base id)
  unfolding launch_one
  launch_one-LeavesDevice =
      elim (Option-cases (deps.prepare_rootfs base.rootfs_path id base.rootfs_size_mib)) [
        | inl e ↦ rw e ([], nothing, refl)
        | inr (path, e) ↦
            let (es, balanced, made) =
              behind_device (record (for_vm base id) { rootfs_path = path }) in
            rw e (
              es,
              balanced,
              ap (λ es. rootfs_prepared path ∷ (es ++ (rootfs_removed path ∷ []))) made,
            )
      ]

-- The launches of the VMs from number `i` on.
abbrev pub AreOf : LaunchDeps → Config → ℕ → List Launch → Type 0
AreOf deps base i [] = Unit
AreOf deps base i (l ∷ ls) = LeavesDevice deps base i l × AreOf deps base (i + 1) ls

module _ (deps : LaunchDeps) (base : Config) where
  numbers_from-AreOf : (n i : ℕ) → AreOf deps base i (map (launch_one deps base) (numbers_from i n))
  unfolding numbers_from
  numbers_from-AreOf zero i = tt
  numbers_from-AreOf (suc n) i = (launch_one-LeavesDevice deps base i, numbers_from-AreOf n (i + 1))

  length-numbers_from : (n i : ℕ) → length (map (launch_one deps base) (numbers_from i n)) ≡ n
  unfolding numbers_from
  length-numbers_from zero i = refl
  length-numbers_from (suc n) i = ap suc (length-numbers_from n (i + 1))

-- launchFleet of package cmd starts as many goroutines as its count, for the VMs 0, 1, 2 and so on.
-- Whatever the host answers, each stops the machine that it has made, removes its root image, and
-- leaves the TAP device behind that EnsureTAP has made.
pub launch_all-LeavesDevice :
    (deps : LaunchDeps) (base : Config) (count : ℕ)
    → (length (launch_all deps base count).0 ≡ count)
      × AreOf deps base 0 (launch_all deps base count).0
unfolding launch_all
launch_all-LeavesDevice deps base count =
    (length-numbers_from deps base count 0, numbers_from-AreOf deps base count 0)
