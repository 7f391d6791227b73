-- ===== src/Api/Launch/Defaults/Composed.antt =====
-- What a launch that returns nil means on the host, for the functions of package vm.
use onfire.Prelude.{
  ℕ, ◌≡◌, refl, List, [], ◌∷◌, true, false, Option, none, some, Result, ok, err, All, map,
  Bool-cases, Option-cases, inl, inr,
}
use onfire.Prelude.Text.{Text}
use onfire.Vm.Config.{Config, for_vm, validate}
use onfire.Vm.Machine.{new}
use onfire.Vm.Machine.Resources.{new-IsMade}
use onfire.Vm.RootFs.{RootError, prepare_rootfs}
use onfire.Vm.Tap.{setup_commands}
use onfire.Vm.Tap.Tolerance.{IsTolerated, HasRule, ensure_tap_iff}
use onfire.Api.Launch.{
  LaunchDeps, Stage, tap, iso, rootfs, create, launch_vm, launch_fleet, run_machine, with_rootfs,
  iso_ready,
}
use onfire.Api.Launch.Cleanup.{HasRun, launch_fleet-GivesBack, launch_fleet-HasRun}
use onfire.Api.Launch.Defaults.{HostCalls, is_nil, path_of, default_launch_deps}

-- What a goroutine that reports no error has been answered.
abbrev Answered : LaunchDeps → Config → ℕ → Type 0
Answered deps base id =
    (deps.ensure_tap id ≡ true)
    × ((path : Text) × (deps.prepare_rootfs base.rootfs_path id base.rootfs_size_mib ≡ some path)
        × (deps.factory (record (for_vm base id) { rootfs_path = path }) ≡ true))

module _ (deps : LaunchDeps) (base : Config) (id : ℕ)
    (on : (stage : Stage) → deps.cancelled id stage ≡ false) where
  run_machine-factory :
      (cfg : Config) → (run_machine deps base id cfg).error ≡ none → deps.factory cfg ≡ true
  unfolding run_machine
  run_machine-factory cfg h = elim (Bool-cases (deps.factory cfg)) [
    | inl t ↦ t
    | inr f ↦ cc (rw (f, on create) at h)
  ]

  with_rootfs-factory :
      (cfg : Config)
      → (with_rootfs deps base id cfg).error ≡ none
      → (path : Text) × (deps.prepare_rootfs base.rootfs_path id base.rootfs_size_mib ≡ some path)
        × (deps.factory (record cfg { rootfs_path = path }) ≡ true)
  unfolding with_rootfs
  with_rootfs-factory cfg h =
      elim (Option-cases (deps.prepare_rootfs base.rootfs_path id base.rootfs_size_mib)) [
        | inl e ↦ cc (rw (e, on rootfs) at h)
        | inr (path, e) ↦
            (path, e, run_machine-factory (record cfg { rootfs_path = path }) (rw e at h))
      ]

  launch_vm-Answered : (launch_vm deps base id).error ≡ none → Answered deps base id
  unfolding launch_vm
  launch_vm-Answered h = elim (Bool-cases (deps.ensure_tap id)) [
    | inr f ↦ cc (rw (f, on tap) at h)
    | inl t ↦ elim (Bool-cases (iso_ready deps base id (for_vm base id))) [
      | inr i ↦ cc (rw (t, i, on iso) at h)
      | inl i ↦ (t, with_rootfs-factory (for_vm base id) (rw (t, i) at h))
    ]
  ]

nil_none {ℓ} : {A : Type ℓ} (o : Option A) → is_nil o ≡ true → o ≡ none
nil_none none h = refl
nil_none (some a) h = cc h

path_ok : (r : Result RootError Text) (path : Text) → path_of r ≡ some path → r ≡ ok path
path_ok (ok p) path h = cc h
path_ok (err e) path h = cc h

-- The host of a VM was set up, as package vm says it.
abbrev pub IsSetUp : HostCalls → Config → ℕ → Type 0
IsSetUp calls base id =
    All (IsTolerated calls.run) (setup_commands id)
    × HasRule calls.run
    × ((path : Text) × ((prepare_rootfs (calls.tools base.rootfs_path) id
            base.rootfs_size_mib).result
          ≡ ok path)
        × ((validate calls.host (record (for_vm base id) { rootfs_path = path })).1 ≡ none))

made_valid :
    (calls : HostCalls) (cfg : Config)
    → (new calls.sdk calls.host cfg).error ≡ none
    → (validate calls.host cfg).1 ≡ none
made_valid calls cfg h = elim (new-IsMade calls.sdk calls.host cfg) [
  | inl (m, a, b, valid, c, d, e) ↦ valid
  | inr (a, error, b, c) ↦ absurd (error h)
]

Answered-IsSetUp :
    (calls : HostCalls) (base : Config) (id : ℕ)
    → Answered (default_launch_deps calls) base id
    → IsSetUp calls base id
unfolding default_launch_deps
Answered-IsSetUp calls base id (device, (path, made, machine)) =
    let (done, rule) = (ensure_tap_iff calls.run id).0 (nil_none _ device) in
    (
      done,
      rule,
      (
        path,
        path_ok _ path made,
        made_valid calls (record (for_vm base id) { rootfs_path = path }) (nil_none _ machine),
      ),
    )

each_of {κ μ} :
    (P : ℕ → Type κ) (Q : ℕ → Type μ) (is : List ℕ) → All P is → All Q is → All (λ i. P i × Q i) is
each_of P Q [] p q = tt
each_of P Q (i ∷ is) p q = ((p.0, q.0), each_of P Q is p.1 q.1)

-- With the functions of package vm, and a context that is never cancelled, launchFleet returns nil only
-- if for each VM of the list: every set-up command of its TAP device has succeeded or found its result
-- there, and the MASQUERADE rule is there; PrepareRootFS has made its image; its configuration on this
-- image is valid, with a binary of Firecracker; and a machine with it was created, started and stopped,
-- after which the image and the device were removed.
pub default_launch_fleet-IsSetUp :
    (calls : HostCalls) (base : Config) (ids : List ℕ)
    → ((id : ℕ) (stage : Stage) → calls.cancelled id stage ≡ false)
    → (launch_fleet (default_launch_deps calls) base ids).1 ≡ none
    → let deps = default_launch_deps calls in
      All (λ id. IsSetUp calls base id × HasRun deps base id (launch_vm deps base id).events) ids
unfolding launch_fleet default_launch_deps
default_launch_fleet-IsSetUp calls base ids on h =
    let deps = default_launch_deps calls in
    each_of (IsSetUp calls base) (λ id. HasRun deps base id (launch_vm deps base id).events) ids
      (set_up ids ((launch_fleet-GivesBack deps base ids).1.0 h))
      (launch_fleet-HasRun deps base ids on h)
  where
    set_up :
        (is : List ℕ)
        → All (λ l. l.error ≡ none) (map (launch_vm (default_launch_deps calls) base) is)
        → All (IsSetUp calls base) is
    set_up [] a = tt
    set_up (i ∷ is) a = (
      Answered-IsSetUp calls base i
          (launch_vm-Answered (default_launch_deps calls) base i (on i) a.0),
      set_up is a.1,
    )
