-- ===== src/Scenario/Run.antt =====
-- Run of scenario/runner.go from the point where the VMs are up, as a machine that takes one event at
-- a time: the timers of the faults, the ticker of the poll, the context, the hints that are asked for,
-- and the select at the end. An event that cannot happen in a state leaves it unchanged.
-- time.ParseDuration is an argument, none on an error.
pub mod Timers
pub mod Faults
pub mod Done
use onfire.Prelude.{
  ℕ, ◌+◌, List, [], ◌∷◌, Bool, true, false, ◌&&◌, ◌||◌, not, Option, none, some, get_elem?,
  contains, remove, if◌then◌else◌,
}
use onfire.Prelude.Int.{ℤ, pos}
use onfire.Prelude.Text.{Text, text_eq}
use onfire.Prelude.Dict.{Dict, insert}
use onfire.Scenario.Floats.{FloatOps}
use onfire.Scenario.Types.{Fault, FaultTrigger}
use onfire.Scenario.Score.{current}
use onfire.Scenario.Runner.{Runner, request_hint_text, current_score}
use onfire.Scenario.Delivery.{Post, Outcome, sent, panicked, inject_fault}
use onfire.Scenario.Objectives.{Network, Verdict, pass, fail, panic, check_all_objectives}

-- AtDuration and DurationDuration.
unfoldable pub at_duration : (Text → Option ℤ) → Fault → Option ℤ
at_duration parse f = if text_eq f.at [] then some (pos 0) else parse f.at

unfoldable pub duration_duration : (Text → Option ℤ) → Fault → Option ℤ
duration_duration parse f = if text_eq f.duration [] then some (pos 0) else parse f.duration

abbrev is_timed : List FaultTrigger → Option ℤ → Bool
is_timed (t ∷ ts) at = false
is_timed [] none = false
is_timed [] (some d) = true

-- A fault that gets a timer: no triggers, and a time that can be read.
unfoldable pub is_scheduled : (Text → Option ℤ) → Fault → Bool
unfolding at_duration
is_scheduled parse f = is_timed f.triggers (at_duration parse f)

-- The positions of the faults with a timer, from position `i` on.
unfoldable pub schedule : (Text → Option ℤ) → ℕ → List Fault → List ℕ
unfolding is_scheduled
schedule parse i [] = []
schedule parse i (f ∷ fs) =
    let rest = schedule parse (i + 1) fs in if is_scheduled parse f then i ∷ rest else rest

-- What printResult is given: whether the scenario is solved, and the score that it prints.
pub record Ending : Type 0 where
  pub solved : Bool
  pub final_score : ℤ

abbrev pub has_ended : Option Ending → Bool
has_ended none = false
has_ended (some e) = true

-- `waiting` are the faults whose timer runs and `injected` those that injectFault was called for, by
-- position, the newest first; `cancel_funcs` is the map faultCancelFuncs; `done` the closed channel.
pub record RunState (R : Type 0) : Type 0 where
  pub runner : Runner R
  pub waiting : List ℕ
  pub injected : List ℕ
  pub cancel_funcs : Dict ℕ
  pub polling : Bool
  pub done : Bool
  pub cancelled : Bool
  pub ending : Option Ending
  pub crashed : Bool

-- The time that an event reads is the one since r.startAt. `answer` and `network` are what the agents
-- answer then.
pub data Event (R : Type 0) : Type 0 where
  time_up : ℕ → (Post → Option ℤ) → Event R
  timer_dropped : ℕ → Event R
  tick : ℤ → Network R → Event R
  poll_dropped : Event R
  hint_asked : Event R
  score_read : ℤ → Event R
  context_done : Event R
  select_done : ℤ → Event R
  select_context : ℤ → Event R

module _ {R : Type 0} where
  -- Where the fleet is up: r.startAt is set, and the goroutines have been started.
  unfoldable pub start_run : (Text → Option ℤ) → Runner R → RunState R
  unfolding schedule
  start_run parse r = record {
    runner = record r { score = record r.score { elapsed = pos 0 } };
    waiting = schedule parse 0 r.scenario.faults;
    injected = [];
    cancel_funcs = [];
    polling = true;
    done = false;
    cancelled = false;
    ending = none;
    crashed = false;
  }

  abbrev pub after_inject : ℕ → Fault → Outcome → RunState R → RunState R
  after_inject i f sent s = record s { cancel_funcs = insert f.id i s.cancel_funcs }
  after_inject i f panicked s = record s { crashed = true }
  after_inject i f o s = s

  abbrev pub inject_position : ℕ → (Post → Option ℤ) → Option Fault → RunState R → RunState R
  inject_position i answer none s = s
  inject_position i answer (some f) s =
      after_inject i f (inject_fault answer f s.runner.plan).outcome
        (record s { waiting = remove i s.waiting; injected = i ∷ s.injected })

  unfoldable pub fire : ℕ → (Post → Option ℤ) → RunState R → RunState R
  unfolding inject_fault insert remove
  fire i answer s =
      if contains i s.waiting
      then inject_position i answer (get_elem? s.runner.scenario.faults i) s
      else s

  abbrev pub set_elapsed : ℤ → RunState R → RunState R
  set_elapsed t s = record s {
    runner = record s.runner { score = record s.runner.score { elapsed = t } };
  }

module _ {R : Type 0} (fl : FloatOps R) where
  abbrev pub polled : Verdict → RunState R → RunState R
  polled pass s = record s { done = true; polling = false }
  polled fail s = s
  polled panic s = record s { crashed = true }

  unfoldable pub poll : ℤ → Network R → RunState R → RunState R
  unfolding check_all_objectives
  poll t network s =
      if s.polling
      then polled (check_all_objectives fl network s.runner.plan s.runner.scenario.objectives)
          (set_elapsed t s)
      else s

  -- printResult, which reads Score.Current.
  abbrev pub print_result : Bool → RunState R → RunState R
  print_result solved s = record s {
    ending = some (record { solved = solved; final_score = current fl s.runner.score });
  }

  -- The two cases of the select. Only the first one copies the number of hints into the score.
  unfoldable pub end_done : ℤ → RunState R → RunState R
  unfolding current
  end_done t s =
      if s.done && not (has_ended s.ending)
      then print_result true (record s {
        runner = record s.runner {
          score = record s.runner.score { elapsed = t; hints_used = pos s.runner.hints_used };
        };
      })
      else s

  unfoldable pub end_context : ℤ → RunState R → RunState R
  unfolding current
  end_context t s =
      if s.cancelled && not (has_ended s.ending) then print_result false (set_elapsed t s) else s

  unfoldable pub live_step : Event R → RunState R → RunState R
  unfolding fire poll end_done end_context request_hint_text current_score
  live_step (time_up i answer) s = fire i answer s
  live_step (timer_dropped i) s =
      if s.cancelled then record s { waiting = remove i s.waiting } else s
  live_step (tick t network) s = poll t network s
  live_step poll_dropped s = if s.cancelled then record s { polling = false } else s
  live_step hint_asked s = record s { runner = (request_hint_text s.runner).0 }
  live_step (score_read t) s = record s { runner = (current_score fl s.runner t).0 }
  live_step context_done s = record s { cancelled = true }
  live_step (select_done t) s = end_done t s
  live_step (select_context t) s = end_context t s

  -- A panic ends the process.
  unfoldable pub step : Event R → RunState R → RunState R
  unfolding live_step
  step e s = if s.crashed then s else live_step e s

  -- A history, the first event first.
  unfoldable pub steps : List (Event R) → RunState R → RunState R
  unfolding step
  steps [] s = s
  steps (e ∷ es) s = steps es (step e s)
