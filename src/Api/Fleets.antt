-- ===== src/Api/Fleets.antt =====
-- The handlers of api/fleet.go and the goroutine of createFleet. Each handler is one step on the
-- server: it holds the lock while it reads or writes the maps. The decoder's result, the UUID and
-- the time are arguments. The response of createFleet shows the entry as it was stored.
use onfire.Prelude.{
  ℕ, List, ◌++◌, Bool, true, false, Option, none, some, map, Result, ok, err, if◌then◌else◌,
}
use onfire.Prelude.Int.{ℤ, pos, pos_part, ltb_ℤ}
use onfire.Prelude.Text.{Text, codes}
use onfire.Prelude.Dict.{lookup, insert}
use onfire.Vm.Config.{Config, is_empty}
use onfire.Api.Ids.{allocate_vm_ids, mark_ids, release_vm_ids}
use onfire.Api.State.{
  FleetStatus, FleetEntry, Server, Response, starting, running, stopped, spawned, launched,
  finished, message, fleet_json, fleets_json, no_body, respond, vm_statuses, modify,
}

pub record FleetCreateRequest : Type 0 where
  pub count : ℤ
  pub kernel : Text
  pub rootfs : Text
  pub cloud_init_iso : Text
  pub mem_mb : ℤ
  pub vcpus : ℤ
  pub disk_mb : ℤ

-- if s != "" { field = s }, and if n > 0 { field = n }.
abbrev pub override_text : Text → Text → Text
override_text s old = if is_empty s then old else s

abbrev pub override_pos : ℤ → ℤ → ℤ
override_pos n old = if ltb_ℤ (pos 0) n then n else old

-- The configuration that the fleet is launched with.
unfoldable pub fleet_config : Config → FleetCreateRequest → Config
fleet_config base req = record base {
  kernel_image_path = override_text req.kernel base.kernel_image_path;
  rootfs_path = override_text req.rootfs base.rootfs_path;
  cloud_init_iso = override_text req.cloud_init_iso base.cloud_init_iso;
  mem_size_mib = override_pos req.mem_mb base.mem_size_mib;
  vcpus = override_pos req.vcpus base.vcpus;
  rootfs_size_mib = override_pos req.disk_mb base.rootfs_size_mib;
}

-- if req.Count < 1 { req.Count = 1 }
unfoldable pub fleet_count : ℤ → ℕ
fleet_count n = if ltb_ℤ n (pos 1) then 1 else pos_part n

unfoldable pub new_fleet : Text → ℤ → ℕ → List ℕ → FleetEntry
unfolding vm_statuses
new_fleet uuid now count ids = record {
  id = uuid;
  count = count;
  status = starting;
  vms = vm_statuses ids;
  web_port = pos 0;
  created_at = now;
  vm_ids = ids;
  cancelled = false;
  phase = spawned;
}

module _ {R : Type 0} where
  unfoldable pub add_fleet : Text → ℤ → FleetCreateRequest → Server R → Server R
  unfolding new_fleet fleet_count allocate_vm_ids insert
  add_fleet uuid now req s =
      let ids = allocate_vm_ids s.used_ids (fleet_count req.count) in
      record s {
        fleets = insert uuid (new_fleet uuid now (fleet_count req.count) ids) s.fleets;
        used_ids = mark_ids s.used_ids ids;
      }

  unfoldable pub create_fleet :
      Text → ℤ → Result Text FleetCreateRequest → Server R → Server R × Response R
  unfolding add_fleet
  create_fleet uuid now (err e) s = (s, respond 400 (message (codes "invalid JSON: " ++ e)))
  create_fleet uuid now (ok req) s = (
    add_fleet uuid now req s,
    respond 201 (
        fleet_json (
          new_fleet uuid now (fleet_count req.count)
            (allocate_vm_ids s.used_ids (fleet_count req.count)))),
  )

  -- The order of the entries is not fixed by the code, which ranges over a map.
  unfoldable pub list_fleets : Server R → Response R
  list_fleets s = respond 200 (fleets_json (map (λ kv. kv.1) s.fleets))

  abbrev show_fleet : Option FleetEntry → Response R
  show_fleet none = respond 404 (message (codes "fleet not found"))
  show_fleet (some e) = respond 200 (fleet_json e)

  unfoldable pub get_fleet : Text → Server R → Response R
  unfolding lookup
  get_fleet id s = show_fleet (lookup id s.fleets)

abbrev pub is_stopped : FleetStatus → Bool
is_stopped stopped = true
is_stopped _ = false

abbrev pub released_by : Option FleetEntry → List ℕ → List ℕ
released_by none used = used
released_by (some e) used = release_vm_ids used e.vm_ids

module _ {R : Type 0} where
  -- entry.cancel(), and the release of the IDs unless the fleet is stopped already.
  abbrev pub stop_found : Text → Server R → Option FleetEntry → Server R
  stop_found id s none = s
  stop_found id s (some e) =
      if is_stopped e.status
      then record s { fleets = insert id (record e { cancelled = true }) s.fleets }
      else record s {
        fleets = insert id (record e { cancelled = true; status = stopped }) s.fleets;
        used_ids = release_vm_ids s.used_ids e.vm_ids;
      }

  unfoldable pub stop_fleet : Text → Server R → Server R
  unfolding lookup insert release_vm_ids
  stop_fleet id s = stop_found id s (lookup id s.fleets)

  abbrev pub deleted_response : Option FleetEntry → Response R
  deleted_response none = respond 404 (message (codes "fleet not found"))
  deleted_response (some e) = respond 204 no_body

  unfoldable pub delete_fleet : Text → Server R → Server R × Response R
  unfolding stop_fleet lookup
  delete_fleet id s = (stop_fleet id s, deleted_response (lookup id s.fleets))

  -- The goroutine's first critical section.
  unfoldable pub begin_fleet : Text → Server R → Server R
  unfolding modify
  begin_fleet id s = record s {
    fleets = modify id (λ e. record e { status = running; phase = launched }) s.fleets;
  }

  -- Its last one, once launchFleet has returned.
  unfoldable pub end_fleet : Text → Server R → Server R
  unfolding modify lookup release_vm_ids
  end_fleet id s = record s {
    fleets = modify id (λ e. record e { status = stopped; phase = finished }) s.fleets;
    used_ids = released_by (lookup id s.fleets) s.used_ids;
  }
