-- ===== src/Scenario/Injection/Active.antt =====
-- A fault that the runner injects is active on the agents of its target, and nowhere else.
use onfire.Prelude.{
  ℕ, zero, suc, ◌+◌, ◌≡◌, ◌⊎◌, refl, ap, sym, ◌∙◌, subst, List, [], ◌∷◌, ◌++◌, Bool, true, false,
  Option, none, some, map, get_elem?, contains, if◌then◌else◌, Bool-cases, some_eq_some, inl, inr,
  ==_refl,
}
use onfire.Prelude.Text.{Text, codes, text_eq, text_eq_refl}
use onfire.Prelude.Dict.{lookup, insert, lookup-insert, lookup-delete}
use onfire.Scenario.Types.{Fault, VmEntry, agent_url}
use onfire.Scenario.Delivery.{start_at, stop_at, fault_request}
use onfire.Agent.Faults
use onfire.Agent.Faults.{
  FaultRequest, Agent, Machine, run_fault, start_fault, settle, registered, begin_start,
  finish_start, after_begin, stop_active,
}
use onfire.Agent.Handlers.{handle_fault_start, handle_fault_stop}
use onfire.Scenario.Injection.{received, take_post, take_posts}

module _ (m : Machine) (req : FaultRequest) (a : Agent) where
  started :
      lookup req.id a.active ≡ none
      → (run_fault m req).error ≡ none
      → lookup req.id (start_fault m req a).0.active ≡ some a.created
  unfolding start_fault begin_start finish_start
  started free runs =
      ap (λ o. lookup req.id (after_begin m req (registered req o a)).0.active) free
      ∙ ap
          (λ e.
            lookup req.id
              (settle m req a.created (run_fault m req) e (record a {
                active = insert req.id a.created a.active;
                created = a.created + 1;
              })).0.active)
          runs
      ∙ lookup-insert req.id req.id a.created a.active
      ∙ rw (text_eq_refl req.id) refl

  -- A request whose ID is active changes the map in no way.
  refused : (n : ℕ) → lookup req.id a.active ≡ some n → (start_fault m req a).0.active ≡ a.active
  unfolding start_fault begin_start finish_start
  refused n h = ap (λ o. (after_begin m req (registered req o a)).0.active) h

module _ (id : Text) (a : Agent) where
  stopped :
      (n : ℕ)
      → lookup id a.active ≡ some n
      → (lookup id (Faults.stop_fault id a).active ≡ none)
        × (contains n (Faults.stop_fault id a).cancelled ≡ true)
  unfolding Faults.stop_fault
  stopped n h =
      subst
        (λ o.
          (lookup id (stop_active id o a).active ≡ none)
          × (contains n (stop_active id o a).cancelled ≡ true))
        (sym h) (lookup-delete id id a.active ∙ rw (text_eq_refl id) refl, rw (==_refl n) refl)

  idle : lookup id a.active ≡ none → Faults.stop_fault id a ≡ a
  unfolding Faults.stop_fault
  idle h = ap (λ o. stop_active id o a) h

-- What the agent behind a URL makes of a fault's requests to the agents of some VMs.
module _ (m : Machine) (f : Fault) (url : Text) where
  abbrev pub request : FaultRequest
  request = received (fault_request f)

  abbrev pub starts : List VmEntry → Agent → Agent
  starts es a = take_posts m url (map (start_at f) es) a

  abbrev pub stops : List VmEntry → Agent → Agent
  stops es a = take_posts m url (map (stop_at f) es) a

  abbrev pub for_start : VmEntry → Bool
  for_start e = text_eq (agent_url e ++ codes "/fault/start") (url ++ codes "/fault/start")

  abbrev pub for_stop : VmEntry → Bool
  for_stop e = text_eq (agent_url e ++ codes "/fault/stop") (url ++ codes "/fault/stop")

  request-id : request.id ≡ f.id
  unfolding received fault_request
  request-id = refl

  unfoldable pub started_by : Agent → Agent
  unfolding start_fault received fault_request
  started_by a = (start_fault m request a).0

  -- A request is for another agent, or is taken.
  pub starts_cases :
      (e : VmEntry) (es : List VmEntry) (a : Agent)
      → ((for_start e ≡ false) × (starts (e ∷ es) a ≡ starts es a))
        ⊎ ((for_start e ≡ true) × (starts (e ∷ es) a ≡ starts es (started_by a)))
  unfolding take_posts take_post handle_fault_start started_by
  starts_cases e es a = elim (Bool-cases (for_start e)) [
    | inr h ↦ inl (h, ap (λ b. starts es (if b then (start_fault m request a).0 else a)) h)
    | inl h ↦ inr (h, ap (λ b. starts es (if b then (start_fault m request a).0 else a)) h)
  ]

  pub stops_cases :
      (e : VmEntry) (es : List VmEntry) (a : Agent)
      → ((for_stop e ≡ false) × (stops (e ∷ es) a ≡ stops es a))
        ⊎ ((for_stop e ≡ true) × (stops (e ∷ es) a ≡ stops es (Faults.stop_fault f.id a)))
  unfolding take_posts take_post handle_fault_stop
  stops_cases e es a = elim (Bool-cases (for_stop e)) [
    | inr h ↦ inl (h, ap (λ b. stops es (if b then Faults.stop_fault f.id a else a)) h)
    | inl h ↦ inr (h, ap (λ b. stops es (if b then Faults.stop_fault f.id a else a)) h)
  ]

  -- The context of the fault in the map of an agent.
  unfoldable pub active_of : Agent → Option ℕ
  unfolding lookup
  active_of a = lookup f.id a.active

  started_by-active : (a : Agent) (n : ℕ) → active_of a ≡ some n → active_of (started_by a) ≡ some n
  unfolding active_of started_by received fault_request
  started_by-active a n h = ap (lookup f.id) (refused m request a n h) ∙ h

  starts-active :
      (es : List VmEntry) (a : Agent) (n : ℕ)
      → active_of a ≡ some n
      → active_of (starts es a) ≡ some n
  unfolding take_posts
  starts-active [] a n h = h
  starts-active (e ∷ es) a n h = elim (starts_cases e es a) [
    | inl (other, same) ↦ ap active_of same ∙ starts-active es a n h
    | inr (here, same) ↦
        ap active_of same ∙ starts-active es (started_by a) n (started_by-active a n h)
  ]

  started_by-free :
      (a : Agent)
      → active_of a ≡ none
      → (run_fault m request).error ≡ none
      → active_of (started_by a) ≡ some a.created
  unfolding active_of started_by received fault_request
  started_by-free a free runs = started m request a free runs

  for_start-own : (e : VmEntry) → agent_url e ≡ url → for_start e ≡ true
  for_start-own e this =
      ap (λ u. text_eq (u ++ codes "/fault/start") (url ++ codes "/fault/start")) this
      ∙ text_eq_refl (url ++ codes "/fault/start")

  for_stop-own : (e : VmEntry) → agent_url e ≡ url → for_stop e ≡ true
  for_stop-own e this =
      ap (λ u. text_eq (u ++ codes "/fault/stop") (url ++ codes "/fault/stop")) this
      ∙ text_eq_refl (url ++ codes "/fault/stop")

  -- The agent of one of the VMs, on which the fault can run.
  pub starts-free :
      (es : List VmEntry) (k : ℕ) (e : VmEntry) (a : Agent)
      → get_elem? es k ≡ some e
      → agent_url e ≡ url
      → active_of a ≡ none
      → (run_fault m request).error ≡ none
      → active_of (starts es a) ≡ some a.created
  starts-free [] k e a at this free runs = cc at
  starts-free (d ∷ es) zero e a at this free runs = elim (starts_cases d es a) [
    | inr (here, same) ↦
        ap active_of same ∙ starts-active es (started_by a) a.created (started_by-free a free runs)
    | inl (other, same) ↦ cc (other, ap for_start (some_eq_some at), for_start-own e this)
  ]
  starts-free (d ∷ es) (suc k) e a at this free runs = elim (starts_cases d es a) [
    | inr (here, same) ↦
        ap active_of same ∙ starts-active es (started_by a) a.created (started_by-free a free runs)
    | inl (other, same) ↦ ap active_of same ∙ starts-free es k e a at this free runs
  ]

  -- Behind a stop nothing is left to stop.
  stops-idle :
      (es : List VmEntry) (a : Agent) (n : ℕ)
      → active_of a ≡ none
      → contains n a.cancelled ≡ true
      → (active_of (stops es a) ≡ none) × (contains n (stops es a).cancelled ≡ true)
  unfolding take_posts active_of
  stops-idle [] a n free done = (free, done)
  stops-idle (e ∷ es) a n free done =
      let left = stops-idle es a n free done in
      elim (stops_cases e es a) [
        | inl (other, same) ↦
            (ap active_of same ∙ left.0, ap (λ b. contains n b.cancelled) same ∙ left.1)
        | inr (here, same) ↦
            let same' = same ∙ ap (stops es) (idle f.id a free) in
            (ap active_of same' ∙ left.0, ap (λ b. contains n b.cancelled) same' ∙ left.1)
      ]

  abbrev pub Ended : ℕ → Agent → Type 0
  Ended n a = (active_of a ≡ none) × (contains n a.cancelled ≡ true)

  pub stops-Ended :
      (es : List VmEntry) (k : ℕ) (e : VmEntry) (a : Agent) (n : ℕ)
      → get_elem? es k ≡ some e
      → agent_url e ≡ url
      → active_of a ≡ some n
      → Ended n (stops es a)
  unfolding active_of
  stops-Ended [] k e a n at this on = cc at
  stops-Ended (d ∷ es) zero e a n at this on = elim (stops_cases d es a) [
    | inr (here, same) ↦
        let (free, done) = stopped f.id a n on in
        subst (Ended n) (sym same) (stops-idle es (Faults.stop_fault f.id a) n free done)
    | inl (other, same) ↦ cc (other, ap for_stop (some_eq_some at), for_stop-own e this)
  ]
  stops-Ended (d ∷ es) (suc k) e a n at this on = elim (stops_cases d es a) [
    | inr (here, same) ↦
        let (free, done) = stopped f.id a n on in
        subst (Ended n) (sym same) (stops-idle es (Faults.stop_fault f.id a) n free done)
    | inl (other, same) ↦ subst (Ended n) (sym same) (stops-Ended es k e a n at this on)
  ]
