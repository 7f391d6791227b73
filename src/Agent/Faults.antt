-- ===== src/Agent/Faults.antt =====
-- startFault and stopFault of agent/faults.go, over the map activeFaults. A context is a number, in
-- the order of creation; a goroutine that startFault spawns is a job of its context, and the one
-- that waits for the duration is a timer. time.ParseDuration is an argument, none on an error.
pub mod Tracking
pub mod Start
pub mod Race
use onfire.Prelude.{
  ℕ, ◌+◌, List, [], ◌∷◌, Bool, true, false, ◌&&◌, ◌||◌, not, Option, none, some, if◌then◌else◌,
  contains,
}
use onfire.Prelude.Int.{ℤ}
use onfire.Prelude.Text.{Text, codes, text_eq}
use onfire.Prelude.Dict.{Dict, lookup, insert, delete}
use onfire.Agent.Commands.{
  Params, Command, FaultError, already_running, unknown_type, Effect, effect_of, run_network_fault,
  run_process_fault, run_dns_fault,
}

pub record FaultRequest : Type 0 where
  pub id : Text
  pub fault_type : Text
  pub params : Params

-- What a goroutine does until its context is cancelled: the fault of its type, which for a network
-- fault is to wait, and then to run the commands that undo it.
pub record Job : Type 0 where
  pub context : ℕ
  pub fault_type : Text
  pub on_cancel : List Command

pub record Timer : Type 0 where
  pub context : ℕ
  pub id : Text
  pub duration : ℤ

pub record Agent : Type 0 where
  pub active : Dict ℕ
  pub created : ℕ
  pub cancelled : List ℕ
  pub jobs : List Job
  pub timers : List Timer

abbrev pub new_agent : Agent
new_agent = record { active = []; created = 0; cancelled = []; jobs = []; timers = [] }

-- The types whose fault is a goroutine from the start.
abbrev pub is_background : Text → Bool
is_background t =
    text_eq t (codes "cpu")
    || text_eq t (codes "memory")
    || text_eq t (codes "disk")
    || text_eq t (codes "filesystem")

-- What the agent's machine does: a command succeeds, /etc/hosts is written, a duration is read.
pub record Machine : Type 0 where
  pub runs : Command → Bool
  pub appends : Bool
  pub parse_duration : Text → Option ℤ

module _ (m : Machine) where
  unfoldable pub run_fault : FaultRequest → Effect
  unfolding run_network_fault run_process_fault run_dns_fault
  run_fault req =
      if is_background req.fault_type
      then effect_of [] none
      else if text_eq req.fault_type (codes "network")
      then run_network_fault m.runs req.params
      else if text_eq req.fault_type (codes "process")
      then run_process_fault m.runs req.params
      else if text_eq req.fault_type (codes "dns")
      then run_dns_fault m.appends req.params
      else effect_of [] (some unknown_type)

  abbrev has_job : Text → Bool
  has_job t = is_background t || text_eq t (codes "network")

  abbrev timer_of : ℕ → Text → Option ℤ → List Timer → List Timer
  timer_of n id none timers = timers
  timer_of n id (some d) timers = record { context = n; id = id; duration = d } ∷ timers

  abbrev timed : ℕ → Text → Option Text → List Timer → List Timer
  timed n id none timers = timers
  timed n id (some text) timers = timer_of n id (m.parse_duration text) timers

  -- What follows the switch: cancel and delete on an error, and the timer otherwise.
  abbrev pub settle :
      FaultRequest → ℕ → Effect → Option FaultError → Agent → Agent × Option FaultError
  settle req n effect (some e) a =
      (record a { active = delete req.id a.active; cancelled = n ∷ a.cancelled }, some e)
  settle req n effect none a = (
    record a {
      jobs =
          if has_job req.fault_type
          then record { context = n; fault_type = req.fault_type; on_cancel = effect.on_cancel }
            ∷ a.jobs
          else a.jobs;
      timers = timed n req.id (lookup (codes "duration") req.params) a.timers;
    },
    none,
  )

-- The first critical section, on what the map holds for the ID: the number of the new context, or the
-- refusal.
abbrev pub registered : FaultRequest → Option ℕ → Agent → Agent × Option ℕ
registered req (some other) a =
    (record a { created = a.created + 1; cancelled = a.created ∷ a.cancelled }, none)
registered req none a = (
  record a { active = insert req.id a.created a.active; created = a.created + 1 },
  some a.created,
)

unfoldable pub begin_start : FaultRequest → Agent → Agent × Option ℕ
unfolding lookup insert
begin_start req a = registered req (lookup req.id a.active) a

module _ (m : Machine) where
  -- What follows: the commands, for which the mutex is free, and then the second section on an error,
  -- and the timer otherwise.
  unfoldable pub finish_start : FaultRequest → ℕ → Agent → Agent × Option FaultError
  unfolding run_fault delete
  finish_start req n a = let effect = run_fault m req in settle m req n effect effect.error a

  abbrev pub after_begin : FaultRequest → Agent × Option ℕ → Agent × Option FaultError
  after_begin req (a, none) = (a, some already_running)
  after_begin req (a, some n) = finish_start req n a

  -- startFault where no other request comes between its two sections. Tracking and Race have what
  -- comes between them.
  unfoldable pub start_fault : FaultRequest → Agent → Agent × Option FaultError
  unfolding begin_start finish_start
  start_fault req a = after_begin req (begin_start req a)

abbrev pub stop_active : Text → Option ℕ → Agent → Agent
stop_active id none a = a
stop_active id (some n) a = record a { active = delete id a.active; cancelled = n ∷ a.cancelled }

unfoldable pub stop_fault : Text → Agent → Agent
unfolding lookup delete
stop_fault id a = stop_active id (lookup id a.active) a

-- A timer's duration is over: it stops the fault under its ID. If its context is done as well, select
-- takes one of the two cases: `late` is whether it takes this one.
unfoldable pub fire_timer : Bool → Timer → Agent → Agent
unfolding stop_fault
fire_timer late t a = if contains t.context a.cancelled && not late then a else stop_fault t.id a
