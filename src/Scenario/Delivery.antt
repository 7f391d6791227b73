-- ===== src/Scenario/Delivery.antt =====
-- injectFault and stopFault of scenario/runner.go, with AgentFaultRequest. What a POST to an address
-- comes to is an argument: the status of the response, none where http.Post fails.
pub mod Reach
use onfire.Prelude.{
  ℕ, List, [], ◌∷◌, ◌++◌, Bool, Option, none, some, Result, ok, err, get_elem?, if◌then◌else◌,
}
use onfire.Prelude.Int.{ℤ, pos, ltb_ℤ}
use onfire.Prelude.Text.{Text, codes, text_eq}
use onfire.Prelude.Dict.{Dict, insert}
use onfire.Scenario.Types.{Fault, VmEntry, VmPlan, agent_url}
use onfire.Scenario.Targets.{TargetError, index_panic, resolve_targets}

pub record AgentFaultRequest : Type 0 where
  pub id : Text
  pub fault_type : Text
  pub params : Dict Text

-- A request that has been sent to an address: the body is the value that encoding/json is given.
pub data Post : Type 0 where
  start_post : Text → AgentFaultRequest → Post
  stop_post : Text → Text → Post

pub data DeliveryError : Type 0 where
  no_targets : TargetError → DeliveryError
  post_failed : Text → DeliveryError
  bad_status : Text → ℤ → DeliveryError

-- How a call ends: it returns nil, it returns an error, or an index is out of range.
pub data Outcome : Type 0 where
  sent : Outcome
  failed : DeliveryError → Outcome
  panicked : Outcome

pub record Delivery : Type 0 where
  pub posts : List Post
  pub outcome : Outcome

abbrev with_duration : Text → Dict Text → Dict Text
with_duration duration params =
    if text_eq duration [] then params else insert (codes "duration") duration params

-- The loop that copies f.Params makes a map with the same entries.
unfoldable pub fault_request : Fault → AgentFaultRequest
unfolding insert
fault_request f = record {
  id = f.id;
  fault_type = f.fault_type;
  params = with_duration f.duration f.params;
}

abbrev pub start_at : Fault → VmEntry → Post
start_at f e = start_post (agent_url e ++ codes "/fault/start") (fault_request f)

abbrev pub stop_at : Fault → VmEntry → Post
stop_at f e = stop_post (agent_url e ++ codes "/fault/stop") f.id

-- lastErr after a POST to a VM.
abbrev pub next_outcome : VmEntry → Option ℤ → Outcome → Outcome
next_outcome e none last = failed (post_failed e.name)
next_outcome e (some status) last =
    if ltb_ℤ status (pos 300) then last else failed (bad_status e.name status)

abbrev pub add_post : Post → Delivery → Delivery
add_post p d = record { posts = p ∷ d.posts; outcome = d.outcome }

module _ (answer : Post → Option ℤ) where
  unfoldable pub inject_at : Fault → List VmEntry → List ℕ → Outcome → Delivery
  inject_at f vms [] last = record { posts = []; outcome = last }
  inject_at f vms (i ∷ is) last = elim (get_elem? vms i) [
    | none ↦ record { posts = []; outcome = panicked }
    | some e ↦
        add_post (start_at f e) (inject_at f vms is (next_outcome e (answer (start_at f e)) last))
  ]

  abbrev pub inject_resolved : Fault → VmPlan → Result TargetError (List ℕ) → Delivery
  inject_resolved f plan (err index_panic) = record { posts = []; outcome = panicked }
  inject_resolved f plan (err e) = record { posts = []; outcome = failed (no_targets e) }
  inject_resolved f plan (ok is) = inject_at f plan.vms is sent

  unfoldable pub inject_fault : Fault → VmPlan → Delivery
  unfolding inject_at resolve_targets
  inject_fault f plan = inject_resolved f plan (resolve_targets f.target plan)

-- The answers to a stop are not looked at, and a failed POST is passed over.
unfoldable pub stop_posts : Fault → List VmEntry → List ℕ → Delivery
stop_posts f vms [] = record { posts = []; outcome = sent }
stop_posts f vms (i ∷ is) = elim (get_elem? vms i) [
  | none ↦ record { posts = []; outcome = panicked }
  | some e ↦ add_post (stop_at f e) (stop_posts f vms is)
]

abbrev pub stop_resolved : Fault → VmPlan → Result TargetError (List ℕ) → Delivery
stop_resolved f plan (err index_panic) = record { posts = []; outcome = panicked }
stop_resolved f plan (err e) = record { posts = []; outcome = sent }
stop_resolved f plan (ok is) = stop_posts f plan.vms is

unfoldable pub stop_fault : Fault → VmPlan → Delivery
unfolding stop_posts resolve_targets
stop_fault f plan = stop_resolved f plan (resolve_targets f.target plan)
