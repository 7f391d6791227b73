-- ===== src/Scenario/Injection/Reached.antt =====
-- From a fault of a document to the maps of the agents: injectFault and stopFault of scenario/runner.go
-- with the handlers of agent/main.go.
use onfire.Prelude.{
  ℕ, zero, suc, ◌≡◌, ◌≢◌, refl, ap, sym, ◌∙◌, List, [], ◌∷◌, ◌++◌, Bool, true, false, ◌||◌, Option,
  none, some, ok, get_elem?, contains, length, length-append, All, Bool-cases, inl, inr, arith,
  ◌==◌, ==_iff, ==_refl,
}
use onfire.Prelude.Int.{ℤ}
use onfire.Prelude.Text.{Text, codes, text_eq, text_eq_sound}
use onfire.Scenario.Types.{Tier, Overrides, Fault, VmEntry, VmPlan, agent_url}
use onfire.Scenario.Plan.{build_vm_plan}
use onfire.Scenario.Targets.{resolve_targets}
use onfire.Scenario.Delivery.{fault_request, Post, inject_fault, stop_fault}
use onfire.Scenario.Delivery.Reach.{IsAt, inject_fault-reaches-All}
use onfire.Agent.Faults.{Agent, Machine, run_fault}
use onfire.Scenario.Injection.{received, take_posts}
use onfire.Prelude.Dict.{lookup}
use onfire.Scenario.Injection.Active.{
  starts_cases, stops_cases, starts, stops, active_of, starts-free, stops-Ended,
}

append_cancel : (s u t : Text) → s ++ t ≡ u ++ t → s ≡ u
append_cancel [] [] t h = refl
append_cancel [] (y ∷ u) t h = absurd (omega (arith, ap length h, length-append u t))
append_cancel (x ∷ s) [] t h = absurd (omega (arith, ap length h, length-append s t))
append_cancel (x ∷ s) (y ∷ u) t h = let rest = append_cancel s u t (cc h) in cc (h, rest)

-- The requests for a fault pass an agent by that is none of theirs.
module _ (m : Machine) (f : Fault) (url : Text) where
  not_for :
      (e : VmEntry) (tail : Text)
      → agent_url e ≢ url
      → text_eq (agent_url e ++ tail) (url ++ tail) ≡ false
  not_for e tail away = elim (Bool-cases (text_eq (agent_url e ++ tail) (url ++ tail))) [
    | inl t ↦ absurd (
        away (
          append_cancel (agent_url e) url tail
            (text_eq_sound (agent_url e ++ tail) (url ++ tail) t)))
    | inr n ↦ n
  ]

  starts-away :
      (es : List VmEntry) (a : Agent) → All (λ e. agent_url e ≢ url) es → starts m f url es a ≡ a
  unfolding take_posts
  starts-away [] a h = refl
  starts-away (e ∷ es) a h = elim (starts_cases m f url e es a) [
    | inl (other, same) ↦ same ∙ starts-away es a h.1
    | inr (here, same) ↦ cc (here, not_for e (codes "/fault/start") h.0)
  ]

  stops-away :
      (es : List VmEntry) (a : Agent) → All (λ e. agent_url e ≢ url) es → stops m f url es a ≡ a
  unfolding take_posts
  stops-away [] a h = refl
  stops-away (e ∷ es) a h = elim (stops_cases m f url e es a) [
    | inl (other, same) ↦ same ∙ stops-away es a h.1
    | inr (here, same) ↦ cc (here, not_for e (codes "/fault/stop") h.0)
  ]

-- Positions of a plan, and the VMs there.
IsAt-get_elem? :
    (vms : List VmEntry) (is : List ℕ) (es : List VmEntry) (i : ℕ) (e : VmEntry)
    → IsAt vms is es
    → contains i is ≡ true
    → get_elem? vms i ≡ some e
    → (k : ℕ) × (get_elem? es k ≡ some e)
IsAt-get_elem? vms [] es i e h there at = cc there
IsAt-get_elem? vms (j ∷ is) [] i e h there at = cc h
IsAt-get_elem? vms (j ∷ is) (d ∷ es) i e h there at = elim (Bool-cases (j == i)) [
  | inl t ↦
      let same : get_elem? vms j ≡ some d = cc h in
      (zero, sym same ∙ ap (get_elem? vms) ((==_iff j i).0 t) ∙ at)
  | inr n ↦
      let (k, found) = IsAt-get_elem? vms is es i e (cc h) (rw n at there) at in (suc k, found)
]

IsAt-All {κ} :
    (P : VmEntry → Type κ) (vms : List VmEntry) (is : List ℕ) (es : List VmEntry)
    → IsAt vms is es
    → ((j : ℕ) (d : VmEntry) → contains j is ≡ true → get_elem? vms j ≡ some d → P d)
    → All P es
IsAt-All P vms [] [] h f = tt
IsAt-All P vms [] (d ∷ es) h f = cc h
IsAt-All P vms (j ∷ is) [] h f = cc h
IsAt-All P vms (j ∷ is) (d ∷ es) h f = (
  f j d (rw (==_refl j) refl) (cc h),
  IsAt-All P vms is es (cc h) (λ k c there at. f k c (or_true (j == k) there) at),
)
  where
    or_true : (b : Bool) {c : Bool} → c ≡ true → (b || c) ≡ true
    or_true true h = refl
    or_true false h = h

-- A fault is injected into a built plan, its target resolves, and it can run on the machine of a VM of the
-- target, whose agent has no fault of its ID. Then this agent has the fault in its map, under a new
-- context, once it has taken the requests of injectFault; and once it has taken those of stopFault the
-- fault is out of the map, and the context is cancelled. An agent at an address that is of no VM of the
-- target is left as it was by both. The agents' answers to the runner have no part in it.
pub inject_fault-active :
    (answer : Post → Option ℤ) (tiers : List Tier) (o : Overrides) (plan : VmPlan) (f : Fault)
    (is : List ℕ) (i : ℕ) (e : VmEntry) (m : Machine) (a : Agent) (other : Text) (m' : Machine)
    (a' : Agent)
    → build_vm_plan tiers o ≡ ok plan
    → resolve_targets f.target plan ≡ ok is
    → contains i is ≡ true
    → get_elem? plan.vms i ≡ some e
    → lookup f.id a.active ≡ none
    → (run_fault m (received (fault_request f))).error ≡ none
    → ((j : ℕ) (d : VmEntry)
        → contains j is ≡ true
        → get_elem? plan.vms j ≡ some d
        → agent_url d ≢ other)
    → let starting = (inject_fault answer f plan).posts in
      let stopping = (stop_fault f plan).posts in
      let b = take_posts m (agent_url e) starting a in
      let c = take_posts m (agent_url e) stopping b in
      (lookup f.id b.active ≡ some a.created)
      × (lookup f.id c.active ≡ none)
      × (contains a.created c.cancelled ≡ true)
      × (take_posts m' other starting a' ≡ a')
      × (take_posts m' other stopping a' ≡ a')
unfolding active_of
inject_fault-active answer tiers o plan f is i e m a other m' a' built found chosen at free runs
      away =
    let (es, places, started, safe, exact, stopped) =
      inject_fault-reaches-All answer tiers o plan f is built found in
    let (k, there) = IsAt-get_elem? plan.vms is es i e places chosen at in
    let absent = IsAt-All (λ d. agent_url d ≢ other) plan.vms is es places away in
    let url = agent_url e in
    let b = starts m f url es a in
    let same : take_posts m url (inject_fault answer f plan).posts a ≡ b =
      ap (λ ps. take_posts m url ps a) started in
    let on = starts-free m f url es k e a there refl free runs in
    let off = stops-Ended m f url es k e b a.created there refl on in
    let then' : take_posts m url (stop_fault f plan).posts
          (take_posts m url (inject_fault answer f plan).posts a)
        ≡ stops m f url es b =
      ap (λ s. take_posts m url (s.posts) (take_posts m url (inject_fault answer f plan).posts a))
        stopped
      ∙ ap (λ x. stops m f url es x) same in
    (
      ap (λ x. lookup f.id x.active) same ∙ on,
      ap (λ x. lookup f.id x.active) then' ∙ off.0,
      ap (λ x. contains a.created x.cancelled) then' ∙ off.1,
      ap (λ ps. take_posts m' other ps a') started ∙ starts-away m' f other es a' absent,
      ap (λ s. take_posts m' other (s.posts) a') stopped ∙ stops-away m' f other es a' absent,
    )
