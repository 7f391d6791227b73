-- ===== src/Api/Ownership.antt =====
-- Who holds which VM IDs: the entries of api/fleet.go and api/scenario.go whose goroutines have not
-- finished, as the owners of a ledger that the map usedIDs of api/server.go stands for.
pub mod Ledger
pub mod Fleets
pub mod Scenarios
pub mod Steps
pub mod DoubleRelease
use onfire.Prelude.{ℕ, ◌≡◌, List, [], ◌∷◌, Bool, true, false, ◌&&◌, Option, none, some}
use onfire.Prelude.Text.{Text}
use onfire.Prelude.Dict.{Dict, lookup}
use onfire.Api.State.{
  FleetEntry, ScenarioEntry, Server, Phase, spawned, launched, finished, stopped,
}
use Ledger.{Owner, fleet, scenario, IsOwned}

abbrev pub is_unfinished : Phase → Bool
is_unfinished finished = false
is_unfinished _ = true

abbrev pub unfinished_ids : Phase → List ℕ → List ℕ
unfinished_ids finished ids = []
unfinished_ids _ ids = ids

abbrev pub fleet_ids : Option FleetEntry → List ℕ
fleet_ids none = []
fleet_ids (some e) = unfinished_ids e.phase e.vm_ids

abbrev pub fleet_zombie : Option FleetEntry → Bool
fleet_zombie none = false
fleet_zombie (some e) = e.cancelled && is_unfinished e.phase

-- A fleet whose goroutine has finished is stopped.
abbrev pub IsSettled : Dict FleetEntry → Type 0
IsSettled m =
    (id : Text) (e : FleetEntry) → lookup id m ≡ some e → e.phase ≡ finished → e.status ≡ stopped

module _ {R : Type 0} where
  abbrev pub scenario_ids : Option (ScenarioEntry R) → List ℕ
  scenario_ids none = []
  scenario_ids (some e) = unfinished_ids e.phase e.vm_ids

  -- The IDs of an entry whose goroutine has not finished.
  abbrev pub held : Server R → Owner → List ℕ
  held s (fleet id) = fleet_ids (lookup id s.fleets)
  held s (scenario id) = scenario_ids (lookup id s.scenarios)

  -- A fleet that has been deleted, and whose goroutine has not finished.
  abbrev pub zombie : Server R → Owner → Bool
  zombie s (fleet id) = fleet_zombie (lookup id s.fleets)
  zombie s (scenario id) = false

  pub record Inv (s : Server R) : Type 0 where
    pub owned : IsOwned (held s) (zombie s) s.used_ids
    pub settled : IsSettled s.fleets

  -- No deleted fleet still runs.
  abbrev pub IsCalm : Server R → Type 0
  IsCalm s = (o : Owner) → zombie s o ≡ false
