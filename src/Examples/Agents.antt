-- ===== src/Examples/Agents.antt =====
-- The agent on small histories.
use onfire.Prelude.Dict.{lookup}
use onfire.Agent.Commands.{tc_failed}
use onfire.Agent.Faults.Race.{overlapped, has_job, overlapped_leaks}
use onfire.Prelude.{inr, none, false, contains, ◌≡◌, refl, [], ◌∷◌, true, some}
use onfire.Prelude.Int.{pos}
use onfire.Prelude.Text.{codes}
use onfire.Agent.Faults.{
  begin_start, finish_start, run_fault, Agent, FaultRequest, Machine, new_agent, start_fault,
  stop_fault,
}
use onfire.Agent.Faults.Tracking.{
  IsTracked, History, begin, then_move, began, finished, stopped, new_running, History-IsTracked,
}
use onfire.Agent.Faults.Start.{IsStart, start_fault-IsStart}

-- A machine where every command succeeds, and a duration is five seconds.
abbrev machine : Machine
machine = record {
  runs = λ c. true;
  appends = true;
  parse_duration = λ d. some (pos 5_000_000_000);
}

abbrev slow_network : FaultRequest
slow_network = record {
  id = codes "slow";
  fault_type = codes "network";
  params = (codes "action", codes "delay") ∷ (codes "duration", codes "5s") ∷ [];
}

abbrev slowed : Agent
slowed = (start_fault machine slow_network new_agent).0

slowed_active : slowed.active ≡ (codes "slow", 0) ∷ []
unfolding start_fault
slowed_active = refl

-- The delay is started; a request to start it again is refused while its commands run, and then it is
-- stopped.
abbrev slowing : Agent
slowing = (begin_start slow_network new_agent).0

abbrev refused : Agent
refused = (begin_start slow_network slowing).0

history : History machine new_running (record {
  agent = stop_fault (codes "slow") (finish_start machine slow_network 0 refused).0;
  starting = [];
})
unfolding begin_start
history =
    then_move
      (then_move (then_move (then_move begin (began slow_network)) (began slow_network))
        (finished slow_network 0 [] [] refl (inr refl)))
      (stopped (codes "slow"))

History-IsTracked_example :
    IsTracked (stop_fault (codes "slow") (finish_start machine slow_network 0 refused).0)
History-IsTracked_example = History-IsTracked history

start_fault-IsStart_example : IsStart slow_network slowed (start_fault machine slow_network slowed)
start_fault-IsStart_example = start_fault-IsStart machine slow_network slowed

-- tc fails on this machine.
abbrev no_tc : Machine
no_tc = record machine { runs = λ c. false }

abbrev load : FaultRequest
load = record { id = codes "slow"; fault_type = codes "cpu"; params = [] }

no_tc_fails : (run_fault no_tc slow_network).error ≡ some tc_failed
unfolding run_fault
no_tc_fails = refl

overlapped_leaks_example :
    let b = overlapped no_tc slow_network load new_agent in
    (lookup (codes "slow") b.active ≡ none)
    × (stop_fault (codes "slow") b ≡ b)
    × (contains 1 b.cancelled ≡ false)
    × (has_job 1 b.jobs ≡ true)
unfolding lookup
overlapped_leaks_example =
    overlapped_leaks no_tc slow_network load new_agent tc_failed refl refl refl refl no_tc_fails
