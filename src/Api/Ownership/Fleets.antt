-- ===== src/Api/Ownership/Fleets.antt =====
-- The handlers and the goroutine of api/fleet.go keep the ledger.
use onfire.Prelude.{
  ℕ, ◌≡◌, refl, List, [], true, false, none, some, arith, Bool-cases, Option-cases, inl, inr,
  if◌then◌else◌, subst, some_eq_some,
}
use onfire.Prelude.Int.{ℤ}
use onfire.Prelude.Text.{Text, text_eq, text_eq_iff}
use onfire.Prelude.Dict.{Dict, lookup, insert, lookup-insert}
use onfire.Api.Ids.{allocate_vm_ids, release_vm_ids}
use onfire.Api.Ids.Allocation.{not_used_of_allocated}
use onfire.Api.State.{FleetEntry, Server, spawned, launched, finished, stopped, running, modify}
use onfire.Api.Fleets.{
  FleetCreateRequest, add_fleet, new_fleet, fleet_count, stop_fleet, begin_fleet, end_fleet,
  is_stopped,
}
use onfire.Api.Ownership.Ledger.{
  Owner, fleet, scenario, owner_eq, IsOwned, IsOwned-keep, IsOwned-grant, IsOwned-cancel,
  IsOwned-end,
}
use onfire.Api.Ownership.{Inv, IsCalm, held, zombie, IsSettled, is_unfinished}

IsSettled-insert :
    (id : Text) (e : FleetEntry) (m : Dict FleetEntry)
    → (e.phase ≡ finished → e.status ≡ stopped)
    → IsSettled m
    → IsSettled (insert id e m)
IsSettled-insert id e m h k j x at = elim (Bool-cases (text_eq id j)) [
  | inl same ↦
      let is : e ≡ x = some_eq_some (rw (lookup-insert, same) at at) in
      subst (λ (y : FleetEntry). y.phase ≡ finished → y.status ≡ stopped) is h
  | inr other ↦ k j x (rw (lookup-insert, other) at at)
]

module _ {R : Type 0} (s : Server R) (inv : Inv s) where
  pub add_fleet-Inv :
      (uuid : Text) (now : ℤ) (req : FleetCreateRequest) → IsCalm s → Inv (add_fleet uuid now req s)
  unfolding add_fleet new_fleet
  add_fleet-Inv uuid now req calm = record {
    owned =
        IsOwned-grant inv.owned _ _ (fleet uuid) ids calm
          (λ x. not_used_of_allocated s.used_ids (fleet_count req.count) x) grants;
    settled = IsSettled-insert uuid _ s.fleets (λ e. cc) inv.settled;
  }
    where
      ids : List ℕ
      ids = allocate_vm_ids s.used_ids (fleet_count req.count)

      grants :
          (a : Owner)
          → held (add_fleet uuid now req s) a ≡ (if owner_eq (fleet uuid) a then ids else held s a)
      grants (fleet j) =
          ground
            (arith, lookup-insert uuid j (new_fleet uuid now (fleet_count req.count) ids) s.fleets)
      grants (scenario j) = refl

  -- The entry of `id` is replaced by one with the same IDs.
  module _ (id : Text) (e e' : FleetEntry) (at : lookup id s.fleets ≡ some e)
      (same : e'.vm_ids ≡ e.vm_ids) where
    held_replaced :
        (used : List ℕ)
        → is_unfinished e'.phase ≡ is_unfinished e.phase
        → (a : Owner)
        → held (record s { fleets = insert id e' s.fleets; used_ids = used }) a ≡ held s a
    held_replaced used h (fleet j) =
        ground (arith, lookup-insert id j e' s.fleets, text_eq_iff id j)
    held_replaced used h (scenario j) = refl

  stop_fleet-Inv-missing : (id : Text) → lookup id s.fleets ≡ none → Inv (stop_fleet id s)
  unfolding stop_fleet
  stop_fleet-Inv-missing id e = rw e inv

  -- A stopped fleet is cancelled, and nothing is released.
  stop_fleet-Inv-stopped :
      (id : Text) (e : FleetEntry)
      → lookup id s.fleets ≡ some e
      → is_stopped e.status ≡ true
      → Inv (stop_fleet id s)
  unfolding stop_fleet
  stop_fleet-Inv-stopped id e at h =
      rw (at, stop_fleet)
        (rw h (record {
          owned =
              IsOwned-keep inv.owned _ _ _ (held_replaced id e _ at refl s.used_ids refl) zombies
                (λ x. refl);
          settled = IsSettled-insert id _ s.fleets (inv.settled id e at) inv.settled;
        }))
    where
      zombies :
          (a : Owner)
          → zombie (record s { fleets = insert id (record e { cancelled = true }) s.fleets }) a
            ≡ false
          → zombie s a ≡ false
      zombies (fleet j) =
          ground
            (arith, lookup-insert id j (record e { cancelled = true }) s.fleets, text_eq_iff id j)
      zombies (scenario j) = λ z. z

  held_fleet :
      (id : Text) (e : FleetEntry)
      → lookup id s.fleets ≡ some e
      → is_unfinished e.phase ≡ true
      → held s (fleet id) ≡ e.vm_ids
  held_fleet id e at h = ground arith

  unfinished_of_running :
      (id : Text) (e : FleetEntry)
      → lookup id s.fleets ≡ some e
      → is_stopped e.status ≡ false
      → is_unfinished e.phase ≡ true
  unfinished_of_running id e at h = ground (arith, inv.settled id e at)

  -- Any other fleet is cancelled, and its IDs are released.
  stop_fleet-Inv-running :
      (id : Text) (e : FleetEntry)
      → lookup id s.fleets ≡ some e
      → is_stopped e.status ≡ false
      → Inv (stop_fleet id s)
  unfolding stop_fleet
  stop_fleet-Inv-running id e at h =
      rw (at, stop_fleet)
        (rw h (record {
          owned =
              subst (λ ids. IsOwned (held next) (zombie next) (release_vm_ids s.used_ids ids))
                (held_fleet id e at unfinished)
                (IsOwned-cancel inv.owned _ _ (fleet id)
                  (held_replaced id e e' at refl (release_vm_ids s.used_ids e.vm_ids) refl)
                  zombies);
          settled = IsSettled-insert id _ s.fleets (λ _. refl) inv.settled;
        }))
    where
      unfinished : is_unfinished e.phase ≡ true
      unfinished = unfinished_of_running id e at h

      e' : FleetEntry
      e' = record e { cancelled = true; status = stopped }

      next : Server R
      next = record s {
        fleets = insert id e' s.fleets;
        used_ids = release_vm_ids s.used_ids e.vm_ids;
      }

      zombies : (a : Owner) → zombie next a ≡ (if owner_eq (fleet id) a then true else zombie s a)
      zombies (fleet j) = ground (arith, lookup-insert id j e' s.fleets, unfinished)
      zombies (scenario j) = refl

  pub stop_fleet-Inv : (id : Text) → Inv (stop_fleet id s)
  stop_fleet-Inv id = elim (Option-cases (lookup id s.fleets)) [
    | inl e ↦ stop_fleet-Inv-missing id e
    | inr (e, at) ↦ elim (Bool-cases (is_stopped e.status)) [
      | inl h ↦ stop_fleet-Inv-stopped id e at h
      | inr h ↦ stop_fleet-Inv-running id e at h
    ]
  ]

  pub begin_fleet-Inv :
      (id : Text) (e : FleetEntry)
      → lookup id s.fleets ≡ some e
      → e.phase ≡ spawned
      → Inv (begin_fleet id s)
  unfolding begin_fleet modify
  begin_fleet-Inv id e at h =
      rw (at, modify)
        (record {
          owned =
              IsOwned-keep inv.owned _ _ _ (held_replaced id e e' at refl s.used_ids (ground arith))
                zombies (λ x. refl);
          settled = IsSettled-insert id _ s.fleets (λ p. cc) inv.settled;
        })
    where
      e' : FleetEntry
      e' = record e { status = running; phase = launched }

      zombies :
          (a : Owner)
          → zombie (record s { fleets = insert id e' s.fleets }) a ≡ false
          → zombie s a ≡ false
      zombies (fleet j) = ground (arith, lookup-insert id j e' s.fleets, text_eq_iff id j)
      zombies (scenario j) = λ z. z

  pub end_fleet-Inv :
      (id : Text) (e : FleetEntry)
      → lookup id s.fleets ≡ some e
      → e.phase ≡ launched
      → Inv (end_fleet id s)
  unfolding end_fleet modify
  end_fleet-Inv id e at h =
      rw (at, modify)
        (record {
          owned =
              subst (λ ids. IsOwned (held next) (zombie next) (release_vm_ids s.used_ids ids))
                (held_fleet id e at (ground arith))
                (IsOwned-end inv.owned _ _ (fleet id) holds zombies);
          settled = IsSettled-insert id _ s.fleets (λ p. refl) inv.settled;
        })
    where
      e' : FleetEntry
      e' = record e { status = stopped; phase = finished }

      next : Server R
      next = record s {
        fleets = insert id e' s.fleets;
        used_ids = release_vm_ids s.used_ids e.vm_ids;
      }

      holds : (a : Owner) → held next a ≡ (if owner_eq (fleet id) a then [] else held s a)
      holds (fleet j) = ground (arith, lookup-insert id j e' s.fleets)
      holds (scenario j) = refl

      zombies : (a : Owner) → zombie next a ≡ (if owner_eq (fleet id) a then false else zombie s a)
      zombies (fleet j) = ground (arith, lookup-insert id j e' s.fleets)
      zombies (scenario j) = refl
