-- ===== src/Scenario/Run/Faults.antt =====
-- Which faults a run injects, and that a run on a built plan never panics.
use onfire.Prelude.{
  ◌&&◌, not, ok_eq_ok, ap, ◌∙◌, subst, sym, ℕ, ◌≡◌, ◌≢◌, refl, inl, inr, List, [], true, false,
  Option, none, some, Result, ok, err, get_elem?, contains, Bool-cases,
}
use onfire.Prelude.Int.{ℤ}
use onfire.Prelude.Text.{Text}
use onfire.Scenario.Floats.{FloatOps}
use onfire.Scenario.Types.{Scenario, RunOptions, Fault, VmPlan, Tier, Overrides}
use onfire.Scenario.Plan.{PlanError, build_vm_plan}
use onfire.Scenario.Delivery.Reach.{inject_fault-ne-panicked}
use onfire.Scenario.Objectives.Met.{check_all_objectives_iff}
use onfire.Scenario.Runner.{Runner, runner_for, new_runner}
use onfire.Scenario.Delivery.{Post, Outcome, sent, failed, panicked, inject_fault}
use onfire.Scenario.Objectives.{Network, Verdict, pass, fail, panic, check_all_objectives}
use onfire.Scenario.Run.{
  RunState, Event, start_run, after_inject, inject_position, fire, polled, poll, live_step,
  has_ended,
}
use onfire.Scenario.Run.{
  time_up, timer_dropped, tick, poll_dropped, hint_asked, score_read, context_done, select_done,
  select_context,
}
use onfire.Scenario.Run.Timers.{
  IsTimed, IsTimed-schedule, IsTimed-move, IsTimed-cancel, IsTimed-drop,
}

-- What an event keeps: the document and the plan are the runner's, the timers are in order, and the
-- process has not panicked.
pub record IsRunOf {R : Type 0} (parse : Text → Option ℤ) (r : Runner R) (s : RunState R)
    : Type 0 where
  pub same_scenario : s.runner.scenario ≡ r.scenario
  pub same_plan : s.runner.plan ≡ r.plan
  pub timed : IsTimed parse r.scenario.faults s.waiting s.injected s.cancelled
  pub alive : s.crashed ≡ false

IsRunOf-same :
    {R : Type 0} (parse : Text → Option ℤ) (r : Runner R) (s t : RunState R)
    → t.runner.scenario ≡ s.runner.scenario
    → t.runner.plan ≡ s.runner.plan
    → t.waiting ≡ s.waiting
    → t.injected ≡ s.injected
    → t.crashed ≡ s.crashed
    → t.cancelled ≡ s.cancelled
    → IsRunOf parse r s
    → IsRunOf parse r t
IsRunOf-same parse r s t sc pl w i c d inv = record {
  same_scenario = sc ∙ inv.same_scenario;
  same_plan = pl ∙ inv.same_plan;
  timed =
      subst (λ v. IsTimed parse r.scenario.faults v t.injected t.cancelled) (sym w)
        (subst (λ v. IsTimed parse r.scenario.faults s.waiting v t.cancelled) (sym i)
          (subst (IsTimed parse r.scenario.faults s.waiting s.injected) (sym d) inv.timed));
  alive = c ∙ inv.alive;
}

pub start_run-IsRunOf :
    {R : Type 0} (parse : Text → Option ℤ) (r : Runner R) → IsRunOf parse r (start_run parse r)
unfolding start_run
start_run-IsRunOf parse r = record {
  same_scenario = refl;
  same_plan = refl;
  timed = IsTimed-schedule parse r.scenario.faults;
  alive = refl;
}

module _ {R : Type 0} (fl : FloatOps R) (parse : Text → Option ℤ) (r : Runner R) (tiers : List Tier)
    (o : Overrides) (built : build_vm_plan tiers o ≡ ok r.plan) where
  after_inject-IsRunOf :
      (i : ℕ) (f : Fault) (out : Outcome) (s : RunState R)
      → out ≢ panicked
      → IsRunOf parse r s
      → IsRunOf parse r (after_inject i f out s)
  after_inject-IsRunOf i f sent s ne inv =
      IsRunOf-same parse r s _ refl refl refl refl refl refl inv
  after_inject-IsRunOf i f (failed e) s ne inv = inv
  after_inject-IsRunOf i f panicked s ne inv = absurd (ne refl)

  fire-IsRunOf :
      (i : ℕ) (answer : Post → Option ℤ) (s : RunState R)
      → IsRunOf parse r s
      → IsRunOf parse r (fire i answer s)
  unfolding fire
  fire-IsRunOf i answer s inv = elim (Bool-cases (contains i s.waiting)) [
    | inr f ↦ simp f inv
    | inl t ↦ simp t (placed (get_elem? s.runner.scenario.faults i) t)
  ]
    where
      placed :
          (found : Option Fault)
          → contains i s.waiting ≡ true
          → IsRunOf parse r (inject_position i answer found s)
      placed none t = inv
      placed (some f) t =
          after_inject-IsRunOf i f _ _
            (subst (λ p. (inject_fault answer f p).outcome ≢ panicked) (sym inv.same_plan)
              (inject_fault-ne-panicked answer tiers o r.plan f built))
            (record {
              same_scenario = inv.same_scenario;
              same_plan = inv.same_plan;
              timed =
                  IsTimed-move parse r.scenario.faults s.waiting s.injected s.cancelled i t
                    inv.timed;
              alive = inv.alive;
            })

  polled-IsRunOf :
      (v : Verdict) (s : RunState R)
      → v ≢ panic
      → IsRunOf parse r s
      → IsRunOf parse r (polled fl v s)
  polled-IsRunOf pass s ne inv = IsRunOf-same parse r s _ refl refl refl refl refl refl inv
  polled-IsRunOf fail s ne inv = inv
  polled-IsRunOf panic s ne inv = absurd (ne refl)

  poll-IsRunOf :
      (t : ℤ) (network : Network R) (s : RunState R)
      → IsRunOf parse r s
      → IsRunOf parse r (poll fl t network s)
  unfolding poll
  poll-IsRunOf t network s inv = elim (Bool-cases s.polling) [
    | inr f ↦ simp f inv
    | inl p ↦ simp p (
        polled-IsRunOf _ _
          (subst (λ q. check_all_objectives fl network q s.runner.scenario.objectives ≢ panic)
            (sym inv.same_plan)
            (check_all_objectives_iff fl network tiers o r.plan s.runner.scenario.objectives []
              built).0)
          (IsRunOf-same parse r s _ refl refl refl refl refl refl inv))
  ]

  pub live_step-IsRunOf :
      (e : Event R) (s : RunState R) → IsRunOf parse r s → IsRunOf parse r (live_step fl e s)
  unfolding live_step
  live_step-IsRunOf (time_up i answer) s inv = fire-IsRunOf i answer s inv
  live_step-IsRunOf (timer_dropped i) s inv = elim (Bool-cases s.cancelled) [
    | inl t ↦ simp t (record {
      same_scenario = inv.same_scenario;
      same_plan = inv.same_plan;
      timed = IsTimed-drop parse r.scenario.faults s.waiting s.injected s.cancelled i inv.timed;
      alive = inv.alive;
    })
    | inr f ↦ simp f inv
  ]
  live_step-IsRunOf (tick t network) s inv = poll-IsRunOf t network s inv
  live_step-IsRunOf poll_dropped s inv = elim (Bool-cases s.cancelled) [
    | inl t ↦ simp t (record {
      same_scenario = inv.same_scenario;
      same_plan = inv.same_plan;
      timed = IsTimed-cancel parse r.scenario.faults s.waiting s.injected s.cancelled inv.timed;
      alive = inv.alive;
    })
    | inr f ↦ simp f inv
  ]
  live_step-IsRunOf hint_asked s inv = IsRunOf-same parse r s _ refl refl refl refl refl refl inv
  live_step-IsRunOf (score_read t) s inv =
      IsRunOf-same parse r s _ refl refl refl refl refl refl inv
  live_step-IsRunOf context_done s inv = record {
    same_scenario = inv.same_scenario;
    same_plan = inv.same_plan;
    timed = IsTimed-cancel parse r.scenario.faults s.waiting s.injected s.cancelled inv.timed;
    alive = inv.alive;
  }
  live_step-IsRunOf (select_done t) s inv = elim (Bool-cases (s.done && not (has_ended s.ending))) [
    | inl e ↦ simp e (IsRunOf-same parse r s _ refl refl refl refl refl refl inv)
    | inr e ↦ simp e inv
  ]
  live_step-IsRunOf (select_context t) s inv =
      elim (Bool-cases (s.cancelled && not (has_ended s.ending))) [
        | inl e ↦ simp e (IsRunOf-same parse r s _ refl refl refl refl refl refl inv)
        | inr e ↦ simp e inv
      ]

-- The plan of a new runner is one that BuildVMPlan has returned.
pub new_runner-built :
    {R : Type 0} (sc : Scenario R) (o : RunOptions) (r : Runner R)
    → new_runner sc o ≡ ok r
    → (build_vm_plan sc.environment.tiers o.overrides ≡ ok r.plan) × (r.scenario ≡ sc)
unfolding new_runner
new_runner-built {R} sc o r = go (build_vm_plan sc.environment.tiers o.overrides)
  where
    go :
        (p : Result PlanError VmPlan)
        → runner_for sc o p ≡ ok r
        → (p ≡ ok r.plan) × (r.scenario ≡ sc)
    go (err e) h = cc
    go (ok plan) h = (ap (λ q. ok q.plan) (ok_eq_ok h), sym (ap (λ q. q.scenario) (ok_eq_ok h)))
