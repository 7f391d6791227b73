-- ===== src/Agent/Handlers.antt =====
-- The handlers of agent/main.go. The decoded body is an argument, and so is
-- the text of the error where it is no JSON.
use onfire.Prelude.{ℕ, ◌++◌, List, Bool, not, Option, none, some, Result, ok, err, if◌then◌else◌}
use onfire.Prelude.Text.{Text, codes, text_eq}
use onfire.Agent.Commands.{Command, FaultError}
use onfire.Agent.Metrics.{FloatMath, Files, Metrics, collect_metrics, ServiceStatus, list_services}
use onfire.Agent.Faults.{FaultRequest, Agent, Machine, start_fault, stop_fault}

-- The bodies: the text of http.Error, which for a fault is its error, or the JSON of a map.
pub data AgentBody : Type 0 where
  refused : Text → AgentBody
  fault_failed : FaultError → AgentBody
  healthy : AgentBody
  fault_started fault_stopped : Text → AgentBody
  service_list : List ServiceStatus → AgentBody

pub record AgentResponse : Type 0 where
  pub code : ℕ
  pub body : AgentBody

abbrev reply : ℕ → AgentBody → AgentResponse
reply code body = record { code = code; body = body }

unfoldable pub handle_health : AgentResponse
handle_health = reply 200 healthy

-- `runs` is whether a command succeeds.
unfoldable pub handle_services : (Command → Bool) → AgentResponse
unfolding list_services
handle_services runs = reply 200 (service_list (list_services runs))

-- The status and the metrics that are encoded; collectMetrics returns no error.
unfoldable pub handle_metrics : {R : Type 0} → FloatMath R → Files → ℕ × Metrics R
unfolding collect_metrics
handle_metrics fm files = (200, collect_metrics fm files)

abbrev start_response : Text → Option FaultError → AgentResponse
start_response id none = reply 200 (fault_started id)
start_response id (some e) = reply 500 (fault_failed e)

unfoldable pub handle_fault_start :
    Machine → Text → Result Text FaultRequest → Agent → Agent × AgentResponse
unfolding start_fault
handle_fault_start m method (err e) a =
    if not (text_eq method (codes "POST"))
    then (a, reply 405 (refused (codes "POST required")))
    else (a, reply 400 (refused (codes "invalid JSON: " ++ e)))
handle_fault_start m method (ok req) a =
    if not (text_eq method (codes "POST"))
    then (a, reply 405 (refused (codes "POST required")))
    else ((start_fault m req a).0, start_response req.id (start_fault m req a).1)

unfoldable pub handle_fault_stop : Text → Result Text Text → Agent → Agent × AgentResponse
unfolding stop_fault
handle_fault_stop method (err e) a =
    if not (text_eq method (codes "POST"))
    then (a, reply 405 (refused (codes "POST required")))
    else (a, reply 400 (refused (codes "invalid JSON: " ++ e)))
handle_fault_stop method (ok id) a =
    if not (text_eq method (codes "POST"))
    then (a, reply 405 (refused (codes "POST required")))
    else (stop_fault id a, reply 200 (fault_stopped id))
