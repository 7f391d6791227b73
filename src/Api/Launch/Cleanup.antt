-- ===== src/Api/Launch/Cleanup.antt =====
-- What launchFleet leaves behind.
use onfire.Prelude.{
  All2, All2-map, true, ◌||◌, not, ◌⊎◌, ℕ, ◌≡◌, ◌↔◌, refl, ap, List, [], ◌∷◌, ◌++◌, false, Option,
  none, some, All, Bool-cases, Option-cases, inl, inr, map,
}
use onfire.Prelude.Text.{Text}
use onfire.Vm.Config.{Config, for_vm}
use onfire.Api.Launch.{
  LaunchDeps, Event, tap_ensured, tap_removed, rootfs_prepared, rootfs_removed, machine_created,
  machine_started, machine_stopped, LaunchError, Launch, run_machine, with_rootfs, launch_vm,
  last_error, launch_fleet, iso_ready, Stage, tap, iso, rootfs, create, start, wait, later_error,
}

-- A list of calls that takes resources and gives each back, in the reverse order.
pub data IsBalanced : List Event → Type 0 where
  nothing : IsBalanced []
  only_started : (cfg : Config) → IsBalanced (machine_started cfg ∷ [])
  with_machine :
      {es : List Event} (cfg : Config)
      → IsBalanced es
      → IsBalanced (machine_created cfg ∷ (es ++ (machine_stopped cfg ∷ [])))
  with_image :
      {es : List Event} (path : Text)
      → IsBalanced es
      → IsBalanced (rootfs_prepared path ∷ (es ++ (rootfs_removed path ∷ [])))
  with_device :
      {es : List Event} (id : ℕ)
      → IsBalanced es
      → IsBalanced (tap_ensured id ∷ (es ++ (tap_removed id ∷ [])))

module _ (deps : LaunchDeps) (base : Config) (id : ℕ) where
  -- The machine that was made for this VM has been started, on its own image, and all is undone.
  abbrev pub HasRun : List Event → Type 0
  HasRun es =
      (path : Text) × (deps.prepare_rootfs base.rootfs_path id base.rootfs_size_mib ≡ some path)
      × (es ≡ whole (record (for_vm base id) { rootfs_path = path }) path)
    where
      whole : Config → Text → List Event
      whole cfg path =
          tap_ensured id
          ∷ rootfs_prepared path
          ∷ machine_created cfg
          ∷ machine_started cfg
          ∷ machine_stopped cfg
          ∷ rootfs_removed path
          ∷ tap_removed id
          ∷ []

  pub run_machine-IsBalanced : (cfg : Config) → IsBalanced (run_machine deps base id cfg).events
  unfolding run_machine
  run_machine-IsBalanced cfg = elim (Bool-cases (deps.factory cfg)) [
    | inr f ↦ rw f nothing
    | inl t ↦ rw t (
        with_machine cfg (elim (Bool-cases (deps.starts cfg)) [
          | inr f ↦ rw f nothing
          | inl s ↦ rw s (elim (Bool-cases (deps.waits cfg)) [
            | inl w ↦ rw w (only_started cfg)
            | inr w ↦ rw w (only_started cfg)
          ])
        ]))
  ]

  with_rootfs-IsBalanced : (cfg : Config) → IsBalanced (with_rootfs deps base id cfg).events
  unfolding with_rootfs
  with_rootfs-IsBalanced cfg =
      elim (Option-cases (deps.prepare_rootfs base.rootfs_path id base.rootfs_size_mib)) [
        | inl e ↦ rw e nothing
        | inr (path, e) ↦
            rw e (with_image path (run_machine-IsBalanced (record cfg { rootfs_path = path })))
      ]

  -- All is given back; but a device that a failed EnsureTAP has made stays, and then there is nothing
  -- else.
  abbrev pub GivesBack : List Event → Type 0
  GivesBack es =
      (((deps.ensure_tap id || not (deps.leaves_device id)) ≡ true) × IsBalanced es)
      ⊎ ((deps.ensure_tap id ≡ false) × (deps.leaves_device id ≡ true) × (es ≡ tap_ensured id ∷ []))

  launch_vm-GivesBack : GivesBack (launch_vm deps base id).events
  unfolding launch_vm
  launch_vm-GivesBack = elim (Bool-cases (deps.ensure_tap id)) [
    | inr f ↦ elim (Bool-cases (deps.leaves_device id)) [
      | inl l ↦ rw (f, l) (inr (refl, refl, refl))
      | inr l ↦ rw (f, l) (inl (refl, nothing))
    ]
    | inl t ↦ rw t (
        inl (
          refl,
          with_device id (elim (Bool-cases (iso_ready deps base id (for_vm base id))) [
            | inl i ↦ rw i (with_rootfs-IsBalanced (for_vm base id))
            | inr i ↦ rw i nothing
          ]),
        ))
  ]

  module _ (on : (stage : Stage) → deps.cancelled id stage ≡ false) where
    run_machine_whole :
        (cfg : Config)
        → (run_machine deps base id cfg).error ≡ none
        → (run_machine deps base id cfg).events
          ≡ machine_created cfg ∷ machine_started cfg ∷ machine_stopped cfg ∷ []
    unfolding run_machine
    run_machine_whole cfg h = elim (Bool-cases (deps.factory cfg)) [
      | inr f ↦ cc (rw (f, on create) at h)
      | inl t ↦ elim (Bool-cases (deps.starts cfg)) [
        | inr f ↦ cc (rw (t, f, on start) at h)
        | inl u ↦ elim (Bool-cases (deps.waits cfg)) [
          | inr f ↦ cc (rw (t, u, f, on wait) at h)
          | inl w ↦ rw t (rw u (rw w refl))
        ]
      ]
    ]

    with_rootfs_whole :
        (cfg : Config)
        → (with_rootfs deps base id cfg).error ≡ none
        → (path : Text) × (deps.prepare_rootfs base.rootfs_path id base.rootfs_size_mib ≡ some path)
          × ((with_rootfs deps base id cfg).events
              ≡ rootfs_prepared path
                ∷ machine_created (record cfg { rootfs_path = path })
                ∷ machine_started (record cfg { rootfs_path = path })
                ∷ machine_stopped (record cfg { rootfs_path = path })
                ∷ rootfs_removed path
                ∷ [])
    unfolding with_rootfs
    with_rootfs_whole cfg h =
        elim (Option-cases (deps.prepare_rootfs base.rootfs_path id base.rootfs_size_mib)) [
          | inl e ↦ cc (rw (e, on rootfs) at h)
          | inr (path, e) ↦ (
            path,
            e,
            rw e (
                ap (λ es. rootfs_prepared path ∷ (es ++ (rootfs_removed path ∷ [])))
                  (run_machine_whole (record cfg { rootfs_path = path }) (rw e at h))),
          )
        ]

    launch_vm-HasRun :
        (launch_vm deps base id).error ≡ none → HasRun (launch_vm deps base id).events
    unfolding launch_vm
    launch_vm-HasRun h = elim (Bool-cases (deps.ensure_tap id)) [
      | inr f ↦ cc (rw (f, on tap) at h)
      | inl t ↦ elim (Bool-cases (iso_ready deps base id (for_vm base id))) [
        | inr i ↦ cc (rw (t, i, on iso) at h)
        | inl i ↦
            let (path, made, same) = with_rootfs_whole (for_vm base id) (rw (t, i) at h) in
            (
              path,
              made,
              rw t (rw i (ap (λ es. tap_ensured id ∷ (es ++ (tap_removed id ∷ []))) same)),
            )
      ]
    ]

-- lastErr is nil exactly when no goroutine has put an error in the channel.
last_error_iff :
    (ls : List Launch) (last : Option LaunchError)
    → (last_error ls last ≡ none) ↔ ((last ≡ none) × All (λ l. l.error ≡ none) ls)
unfolding last_error
last_error_iff [] last = ((λ h. (h, tt)), λ a. a.0)
last_error_iff (l ∷ ls) last =
    let (l_none, none_l) = last_error_iff ls (later_error last l.error) in
    let (both, merge) = later_iff l.error in
    (
      (λ h. let (e, rest) = l_none h in let (f, g) = both e in (f, (g, rest))),
      λ a. none_l (merge (a.0, a.1.0), a.1.1),
    )
  where
    later_iff :
        (e : Option LaunchError) → (later_error last e ≡ none) ↔ ((last ≡ none) × (e ≡ none))
    later_iff none = ((λ h. (h, refl)), λ a. a.0)
    later_iff (some x) = ((λ h. cc), λ a. cc)

-- For every list of VM IDs, whatever the dependencies answer: launchFleet has one goroutine for each
-- ID. If EnsureTAP succeeds, or fails without having made the device, the goroutine gives back what it
-- has taken, in the reverse order (the TAP device, the image that PrepareRootFS has returned, the machine); if EnsureTAP has made the
-- device and fails then, the device stays, and nothing else was taken. The result is nil exactly when no
-- goroutine has reported an error.
pub launch_fleet-GivesBack :
    (deps : LaunchDeps) (base : Config) (ids : List ℕ)
    → All2 (λ id l. GivesBack deps base id l.events) ids (launch_fleet deps base ids).0
      × (((launch_fleet deps base ids).1 ≡ none)
          ↔ All (λ l. l.error ≡ none) (launch_fleet deps base ids).0)
unfolding launch_fleet
launch_fleet-GivesBack deps base ids = (
  All2-map _ (launch_vm deps base) (launch_vm-GivesBack deps base) ids,
  ((λ h. ((last_error_iff _ none).0 h).1), λ a. (last_error_iff _ none).1 (refl, a)),
)

-- If the context is never cancelled and launchFleet returns nil, then for each VM in the list the
-- TAP device was made, its copy of the image was made, and a machine with the VM's configuration on
-- that copy was created, started and stopped, after which the copy and the device were removed.
pub launch_fleet-HasRun :
    (deps : LaunchDeps) (base : Config) (ids : List ℕ)
    → ((id : ℕ) (stage : Stage) → deps.cancelled id stage ≡ false)
    → (launch_fleet deps base ids).1 ≡ none
    → All (λ id. HasRun deps base id (launch_vm deps base id).events) ids
unfolding launch_fleet
launch_fleet-HasRun deps base ids on h = run ids ((last_error_iff _ none).0 h).1
  where
    run :
        (is : List ℕ)
        → All (λ l. l.error ≡ none) (map (launch_vm deps base) is)
        → All (λ id. HasRun deps base id (launch_vm deps base id).events) is
    run [] a = tt
    run (i ∷ is) a = (launch_vm-HasRun deps base i (on i) a.0, run is a.1)
