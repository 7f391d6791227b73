-- ===== src/Scenario/Injection.antt =====
-- The POSTs of injectFault and stopFault (scenario/runner.go) at the handlers of an agent
-- (agent/main.go). An agent gets the requests to the addresses that begin with the URL of its VM.
pub mod Active
pub mod Reached
use onfire.Prelude.{List, [], ◌∷◌, ◌++◌, Bool, ok, if◌then◌else◌}
use onfire.Prelude.Text.{Text, codes, text_eq}
use onfire.Scenario.Delivery.{AgentFaultRequest, Post, start_post, stop_post}
use onfire.Agent.Faults.{FaultRequest, Agent, Machine}
use onfire.Agent.Handlers.{handle_fault_start, handle_fault_stop}

-- json.Unmarshal of what json.Marshal has made: both structs have the same keys.
unfoldable pub received : AgentFaultRequest → FaultRequest
received r = record { id = r.id; fault_type = r.fault_type; params = r.params }

-- The agent behind a URL takes the requests to it; `m` is its machine.
module _ (m : Machine) (url : Text) where
  unfoldable pub take_post : Post → Agent → Agent
  unfolding received handle_fault_start handle_fault_stop
  take_post (start_post address r) a =
      if text_eq address (url ++ codes "/fault/start")
      then (handle_fault_start m (codes "POST") (ok (received r)) a).0
      else a
  take_post (stop_post address id) a =
      if text_eq address (url ++ codes "/fault/stop")
      then (handle_fault_stop (codes "POST") (ok id) a).0
      else a

  -- One after another.
  unfoldable pub take_posts : List Post → Agent → Agent
  unfolding take_post
  take_posts [] a = a
  take_posts (p ∷ ps) a = take_posts ps (take_post p a)
