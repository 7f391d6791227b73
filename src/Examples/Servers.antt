-- ===== src/Examples/Servers.antt =====
-- Package api on small histories.
use onfire.Prelude.{
  ℕ, ◌<◌, ◌≡◌, refl, [], ◌∷◌, true, false, some, Result, ok, err, contains, length,
}
use onfire.Prelude.Int.{ℤ, pos}
use onfire.Prelude.Text.{Text, codes, text_ne}
use onfire.Prelude.Dict.{lookup}
use onfire.Scenario.Types.{Scenario}
use onfire.Scenario.Parser.{LoadError, unreadable}
use onfire.Vm.Config.{default_config}
use onfire.Api.Ids.{allocate_vm_ids}
use onfire.Api.Ids.Allocation.{IsRisingFree, allocate_vm_ids_lowest}
use onfire.Api.State.{Server, new_server}
use onfire.Api.Fleets.{FleetCreateRequest, create_fleet, new_fleet, delete_fleet, fleet_count}
use onfire.Api.Ownership.{held, zombie}
use onfire.Api.Ownership.Ledger.{Owner, IsOwned, fleet, scenario}
use onfire.Api.Ownership.Steps.{Reach, Reach-IsOwned, here, next, fleet_created, fleet_deleted}
use onfire.Api.Ownership.DoubleRelease.{raced, double_release_shares_ids}
use onfire.Examples.Sample.{thousandths}

allocate_two : allocate_vm_ids (0 ∷ 2 ∷ []) 3 ≡ 1 ∷ 3 ∷ 4 ∷ []
unfolding allocate_vm_ids
allocate_two = refl

allocate_vm_ids_lowest_example :
    let ids = allocate_vm_ids (0 ∷ 2 ∷ []) 3 in
    (length ids ≡ 3)
    × IsRisingFree (0 ∷ 2 ∷ []) 0 ids
    × ((x y : ℕ)
        → contains y ids ≡ true
        → x < y
        → contains x (0 ∷ 2 ∷ []) ≡ false
        → contains x ids ≡ true)
allocate_vm_ids_lowest_example = allocate_vm_ids_lowest (0 ∷ 2 ∷ []) 3

abbrev two_vms : FleetCreateRequest
two_vms = record {
  count = pos 2;
  kernel = [];
  rootfs = [];
  cloud_init_iso = [];
  mem_mb = pos 0;
  vcpus = pos 0;
  disk_mb = pos 0;
}

abbrev start : Server ℤ
start = new_server default_config

abbrev one_fleet : Server ℤ
one_fleet = (create_fleet (codes "a") (pos 0) (ok two_vms) start).0

abbrev no_files : Text → Result LoadError (Scenario ℤ)
no_files path = err unreadable

history : Reach thousandths no_files start (delete_fleet (codes "a") one_fleet).0
unfolding new_server lookup
history =
    next (next here (fleet_created (codes "a") (pos 0) (ok two_vms) calm refl))
      (fleet_deleted (codes "a"))
  where
    calm : (o : Owner) → zombie start o ≡ false
    calm (fleet id) = refl
    calm (scenario id) = refl

Reach-IsOwned_example :
    IsOwned
      (held (delete_fleet (codes "a") one_fleet).0)
      (zombie (delete_fleet (codes "a") one_fleet).0)
      (delete_fleet (codes "a") one_fleet).0.used_ids
Reach-IsOwned_example = Reach-IsOwned thousandths no_files default_config history

double_release_shares_ids_example :
    (lookup (codes "b") (raced (codes "a") (codes "b") (codes "c") (pos 0) two_vms start).fleets
      ≡ some (new_fleet (codes "b") (pos 0) 2 (0 ∷ 1 ∷ [])))
    × (lookup (codes "c") (raced (codes "a") (codes "b") (codes "c") (pos 0) two_vms start).fleets
        ≡ some (new_fleet (codes "c") (pos 0) 2 (0 ∷ 1 ∷ [])))
unfolding allocate_vm_ids new_server fleet_count
double_release_shares_ids_example =
    double_release_shares_ids (codes "a") (codes "b") (codes "c") (pos 0) two_vms start
      (text_ne _ _ refl) (text_ne _ _ refl)
