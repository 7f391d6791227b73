-- ===== src/Api/Ownership/DoubleRelease.antt =====
-- deleteFleet of api/fleet.go releases the IDs of a fleet at once, and its goroutine releases them
-- again when it ends, whoever holds them by then.
use onfire.Prelude.{ℕ, ◌≡◌, ◌≢◌, refl, sym, ◌∙◌, ap, List, true, false, some, arith}
use onfire.Prelude.Int.{ℤ}
use onfire.Prelude.Text.{Text, text_eq_iff, text_eq_refl}
use onfire.Prelude.Dict.{lookup, lookup-insert}
use onfire.Api.Ids.{allocate_vm_ids, mark_ids, release_vm_ids}
use onfire.Api.Ids.Allocation.{release-allocate_restores}
use onfire.Api.State.{FleetEntry, Server, launched, stopped, running, modify}
use onfire.Api.Fleets.{
  FleetCreateRequest, add_fleet, new_fleet, fleet_count, stop_fleet, begin_fleet, end_fleet,
  is_stopped,
}

module _ {R : Type 0} where
  lookup-add_fleet_self :
      (u : Text) (now : ℤ) (req : FleetCreateRequest) (s : Server R)
      → lookup u (add_fleet u now req s).fleets
        ≡ some (
            new_fleet u now
              (fleet_count req.count)
              (allocate_vm_ids s.used_ids (fleet_count req.count)))
  unfolding add_fleet
  lookup-add_fleet_self u now req s = rw lookup-insert (rw text_eq_refl refl)

  lookup-add_fleet_ne :
      (u j : Text) (now : ℤ) (req : FleetCreateRequest) (s : Server R)
      → u ≢ j
      → lookup j (add_fleet u now req s).fleets ≡ lookup j s.fleets
  unfolding add_fleet
  lookup-add_fleet_ne u j now req s h = rw lookup-insert (ground (arith, text_eq_iff u j))

  begin_found :
      (id : Text) (s : Server R) (e : FleetEntry)
      → lookup id s.fleets ≡ some e
      → (lookup id (begin_fleet id s).fleets
          ≡ some (record e { status = running; phase = launched }))
        × ((begin_fleet id s).used_ids ≡ s.used_ids)
  unfolding begin_fleet modify
  begin_found id s e at = rw (at, modify) (rw lookup-insert (rw text_eq_refl refl), refl)

  stop_found_lem :
      (id : Text) (s : Server R) (e : FleetEntry)
      → lookup id s.fleets ≡ some e
      → is_stopped e.status ≡ false
      → (lookup id (stop_fleet id s).fleets
          ≡ some (record e { cancelled = true; status = stopped }))
        × ((stop_fleet id s).used_ids ≡ release_vm_ids s.used_ids e.vm_ids)
  unfolding stop_fleet
  stop_found_lem id s e at h =
      rw (at, stop_fleet) (rw h (rw lookup-insert (rw text_eq_refl refl), refl))

  end_found :
      (id : Text) (s : Server R) (e : FleetEntry)
      → lookup id s.fleets ≡ some e
      → ((j : Text) → id ≢ j → lookup j (end_fleet id s).fleets ≡ lookup j s.fleets)
        × ((end_fleet id s).used_ids ≡ release_vm_ids s.used_ids e.vm_ids)
  unfolding end_fleet modify
  end_found id s e at =
      rw (at, modify) ((λ j h. rw lookup-insert (ground (arith, text_eq_iff id j))), refl)

  used-add_fleet :
      (u : Text) (now : ℤ) (req : FleetCreateRequest) (s : Server R)
      → (add_fleet u now req s).used_ids
        ≡ mark_ids s.used_ids (allocate_vm_ids s.used_ids (fleet_count req.count))
  unfolding add_fleet
  used-add_fleet u now req s = refl

  -- Fleet `a` is created, its goroutine begins, and it is deleted.
  unfoldable pub deleted : Text → ℤ → FleetCreateRequest → Server R → Server R
  deleted a now req s = stop_fleet a (begin_fleet a (add_fleet a now req s))

  deleted_lem :
      (a : Text) (now : ℤ) (req : FleetCreateRequest) (s : Server R)
      → let ids = allocate_vm_ids s.used_ids (fleet_count req.count) in
        (e : FleetEntry) × (lookup a (deleted a now req s).fleets ≡ some e)
        × (e.vm_ids ≡ ids)
        × ((deleted a now req s).used_ids ≡ release_vm_ids (mark_ids s.used_ids ids) ids)
  unfolding deleted new_fleet
  deleted_lem a now req s =
      let (at1, u1) = begin_found a (add_fleet a now req s) _ (lookup-add_fleet_self a now req s) in
      let (at2, u2) = stop_found_lem a (begin_fleet a (add_fleet a now req s)) _ at1 refl in
      (
        _,
        at2,
        refl,
        u2
            ∙ ap (λ u. release_vm_ids u (allocate_vm_ids s.used_ids (fleet_count req.count)))
                (u1 ∙ used-add_fleet a now req s),
      )

  -- Fleet `b` is created before the goroutine of `a` ends, and fleet `c` after it.
  unfoldable pub raced : Text → Text → Text → ℤ → FleetCreateRequest → Server R → Server R
  raced a b c now req s =
      add_fleet c now req (end_fleet a (add_fleet b now req (deleted a now req s)))

  -- From every state, with three fresh UUIDs and one size: if fleet `a` is created, begins and is
  -- deleted, fleet `b` is created, the goroutine of `a` ends and fleet `c` is created, then `b` and
  -- `c` are both starting, and have been given the same VM IDs.
  pub double_release_shares_ids :
      (a b c : Text) (now : ℤ) (req : FleetCreateRequest) (s : Server R)
      → a ≢ b
      → b ≢ c
      → let ids = allocate_vm_ids s.used_ids (fleet_count req.count) in
        (lookup b (raced a b c now req s).fleets
          ≡ some (new_fleet b now (fleet_count req.count) ids))
        × (lookup c (raced a b c now req s).fleets
            ≡ some (new_fleet c now (fleet_count req.count) ids))
  unfolding raced
  double_release_shares_ids a b c now req s ab bc = (
    lookup-add_fleet_ne c b now req s5 (λ e. bc (sym e))
        ∙ ended.0 b ab
        ∙ lookup-add_fleet_self b now req s3
        ∙ ap (λ l. some (new_fleet b now n l)) again,
    lookup-add_fleet_self c now req s5 ∙ ap (λ l. some (new_fleet c now n l)) third,
  )
    where
      n : ℕ
      n = fleet_count req.count

      ids : List ℕ
      ids = allocate_vm_ids s.used_ids n

      s3 : Server R
      s3 = deleted a now req s

      s4 : Server R
      s4 = add_fleet b now req s3

      s5 : Server R
      s5 = end_fleet a s4

      gone :
          (e : FleetEntry) × (lookup a s3.fleets ≡ some e)
          × (e.vm_ids ≡ ids)
          × (s3.used_ids ≡ release_vm_ids (mark_ids s.used_ids ids) ids)
      gone = deleted_lem a now req s

      again : allocate_vm_ids s3.used_ids n ≡ ids
      again = rw gone.3 (release-allocate_restores s.used_ids n).1

      ended :
          ((j : Text) → a ≢ j → lookup j s5.fleets ≡ lookup j s4.fleets)
          × (s5.used_ids ≡ release_vm_ids s4.used_ids gone.0.vm_ids)
      ended = end_found a s4 gone.0 (lookup-add_fleet_ne b a now req s3 (λ e. ab (sym e)) ∙ gone.1)

      used5 :
          s5.used_ids
          ≡ release_vm_ids
              (mark_ids s3.used_ids (allocate_vm_ids s3.used_ids n))
              (allocate_vm_ids s3.used_ids n)
      used5 = rw (ended.1, used-add_fleet, gone.2, again) refl

      third : allocate_vm_ids s5.used_ids n ≡ ids
      third = rw used5 ((release-allocate_restores s3.used_ids n).1 ∙ again)
