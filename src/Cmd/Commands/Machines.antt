-- ===== src/Cmd/Commands/Machines.antt =====
-- The VMs that the commands of onfire leave behind, and those that a browser reaches.
use onfire.Prelude.{◌≡◌, List, [], ◌∷◌, Bool, true, false, ◌&&◌, ◌||◌, arith, ◌==◌}
use onfire.Vm.Config.{Config}
use onfire.Api.Launch.{LaunchDeps, Event, wait, machine_created, machine_stopped}
use onfire.Cmd.Fleet.{run_single}

abbrev pub is_created : Event → Bool
is_created (machine_created cfg) = true
is_created _ = false

abbrev pub is_stopped : Event → Bool
is_stopped (machine_stopped cfg) = true
is_stopped _ = false

abbrev pub any : (Event → Bool) → List Event → Bool
any f [] = false
any f (e ∷ es) = f e || any f es

-- runSingleVM exits with 0 exactly when the machine has been created and started and its Wait has
-- succeeded, or has failed after the context was done; it stops the machine exactly then. A machine
-- that does not start, or that exits with an error, is not stopped.
pub run_single_iff :
    (deps : LaunchDeps) (cfg : Config)
    → let (events, code) = run_single deps cfg in
      ((code == 0)
        ≡ (deps.factory cfg && deps.starts cfg && (deps.waits cfg || deps.cancelled 0 wait)))
      × (any is_stopped events ≡ (code == 0))
      × (any is_created events ≡ deps.factory cfg)
unfolding run_single
run_single_iff deps cfg = ground arith
