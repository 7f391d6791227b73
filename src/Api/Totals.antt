-- ===== src/Api/Totals.antt =====
-- TotalVMs of api/server.go.
use onfire.Prelude.{
  ℕ, ◌+◌, ◌≤◌, ◌≡◌, inl, inr, [], ◌∷◌, true, none, some, arith, if◌then◌else◌, Bool-cases,
  some_eq_some,
}
use onfire.Prelude.Int.{ℤ, pos, negsuc}
use onfire.Prelude.Text.{Text, text_eq, text_eq_refl}
use onfire.Prelude.Dict.{Dict, lookup, insert, lookup-insert}
use onfire.Api.Ids.{allocate_vm_ids}
use onfire.Api.State.{FleetEntry, Server, stopped}
use onfire.Api.Fleets.{
  FleetCreateRequest, new_fleet, fleet_count, add_fleet, stop_fleet, is_stopped,
}

abbrev pub counted : FleetEntry → ℕ
counted f = if is_stopped f.status then 0 else f.count

abbrev pub sum_counts : Dict FleetEntry → ℕ
sum_counts [] = 0
sum_counts ((id, f) ∷ fs) = counted f + sum_counts fs

unfoldable pub total_vms : {R : Type 0} → Server R → ℕ
total_vms s = sum_counts s.fleets

sum_counts-insert_new :
    (id : Text) (f : FleetEntry) (m : Dict FleetEntry)
    → lookup id m ≡ none
    → sum_counts (insert id f m) ≡ sum_counts m + counted f
unfolding lookup insert
sum_counts-insert_new id f [] h = ground arith
sum_counts-insert_new id f ((j, g) ∷ m) h = elim (Bool-cases (text_eq j id)) [
  | inl t ↦ cc (rw t at h)
  | inr e ↦ rw e (omega (arith, sum_counts-insert_new id f m (rw e at h)))
]

sum_counts-insert_found :
    (id : Text) (f g : FleetEntry) (m : Dict FleetEntry)
    → lookup id m ≡ some g
    → sum_counts (insert id f m) + counted g ≡ sum_counts m + counted f
unfolding lookup insert
sum_counts-insert_found id f g [] h = cc
sum_counts-insert_found id f g ((j, k) ∷ m) h = elim (Bool-cases (text_eq j id)) [
  | inl t ↦ rw t (ground (arith, some_eq_some (rw t at h)))
  | inr e ↦ rw e (omega (arith, sum_counts-insert_found id f g m (rw e at h)))
]

stop_found-sum_counts :
    {R : Type 0} (id : Text) (e : FleetEntry) (s : Server R)
    → lookup id s.fleets ≡ some e
    → sum_counts (stop_fleet id s).fleets + counted e ≡ sum_counts s.fleets
unfolding stop_fleet
stop_found-sum_counts id e s found = rw found (elim (Bool-cases (is_stopped e.status)) [
  | inl t ↦ rw t (
      ground
        (arith, t, sum_counts-insert_found id (record e { cancelled = true }) e s.fleets found))
  | inr f ↦ rw f (
      ground (
        arith,
        sum_counts-insert_found id (record e { cancelled = true; status = stopped }) e s.fleets
            found,
      ))
])

one_le-fleet_count : (n : ℤ) → 1 ≤ fleet_count n
unfolding fleet_count
one_le-fleet_count (pos n) = ground arith
one_le-fleet_count (negsuc n) = ground arith

-- A fleet that is created under a new ID adds its count to TotalVMs (at least 1, whatever the
-- request asks for), and a delete takes it away again, so that TotalVMs is as before.
pub total_vms-stop_add :
    {R : Type 0} (uuid : Text) (now : ℤ) (req : FleetCreateRequest) (s : Server R)
    → lookup uuid s.fleets ≡ none
    → (total_vms (add_fleet uuid now req s) ≡ total_vms s + fleet_count req.count)
      × (1 ≤ fleet_count req.count)
      × (total_vms (stop_fleet uuid (add_fleet uuid now req s)) ≡ total_vms s)
unfolding total_vms add_fleet new_fleet
total_vms-stop_add uuid now req s fresh =
    let ids = allocate_vm_ids s.used_ids (fleet_count req.count) in
    let f = new_fleet uuid now (fleet_count req.count) ids in
    let stored = rw (text_eq_refl uuid) at (lookup-insert uuid uuid f s.fleets) in
    let added = sum_counts-insert_new uuid f s.fleets fresh in
    (
      added,
      one_le-fleet_count req.count,
      omega (arith, added, stop_found-sum_counts uuid f (add_fleet uuid now req s) stored),
    )
