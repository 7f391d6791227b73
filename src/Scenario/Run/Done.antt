-- ===== src/Scenario/Run/Done.antt =====
-- When a run that is not cancelled is done.
use onfire.Prelude.{
  ◌≢◌, All, ℕ, ◌≡◌, refl, ◌∙◌, ap, sym, ◌⊎◌, ◌↔◌, inl, inr, List, [], ◌∷◌, Bool, true, false, ◌&&◌,
  not, Option, none, some, ok, arith, Bool-cases, get_elem?, contains,
}
use onfire.Prelude.Int.{ℤ}
use onfire.Prelude.Text.{Text}
use onfire.Scenario.Floats.{FloatOps}
use onfire.Scenario.Types.{Tier, Overrides, Fault, Scenario, RunOptions}
use onfire.Scenario.Plan.{build_vm_plan}
use onfire.Scenario.Runner.{Runner, new_runner}
use onfire.Scenario.Delivery.{Post, Outcome, sent, failed, panicked}
use onfire.Scenario.Objectives.{Network, Verdict, pass, fail, panic, check_all_objectives}
use onfire.Scenario.Run.{
  RunState, Event, start_run, fire, poll, polled, live_step, steps, has_ended, inject_position,
  after_inject, set_elapsed,
}
use onfire.Scenario.Run.{
  time_up, timer_dropped, tick, poll_dropped, hint_asked, score_read, context_done, select_done,
  select_context,
}
use onfire.Scenario.Objectives.Met.{IsMet, check_all_objectives_iff}
use onfire.Scenario.Run.Faults.{IsRunOf, live_step-IsRunOf, start_run-IsRunOf, new_runner-built}

module _ {R : Type 0} (fl : FloatOps R) (r : Runner R) where
  -- A poll that finds every objective of the runner met.
  abbrev pub Passes : Event R → Type 0
  Passes (tick t network) = check_all_objectives fl network r.plan r.scenario.objectives ≡ pass
  Passes e = ⊥

  abbrev pub HasPassed : List (Event R) → Type 0
  HasPassed [] = ⊥
  HasPassed (e ∷ es) = Passes e ⊎ HasPassed es

-- The context is not done by this event, and at no point of a history.
abbrev is_context_done : {R : Type 0} → Event R → Bool
is_context_done context_done = true
is_context_done _ = false

abbrev pub IsUncancelled : {R : Type 0} → List (Event R) → Type 0
IsUncancelled [] = Unit
IsUncancelled (e ∷ es) = (is_context_done e ≡ false) × IsUncancelled es

-- The poll goes on until it has closed the channel.
record IsPolled {R : Type 0} (s : RunState R) : Type 0 where
  polls : s.polling ≡ not s.done
  calm : s.cancelled ≡ false

module _ {R : Type 0} where
  after_inject_fields :
      (i : ℕ) (f : Fault) (o : Outcome) (s : RunState R)
      → ((after_inject i f o s).done ≡ s.done)
        × ((after_inject i f o s).polling ≡ s.polling)
        × ((after_inject i f o s).cancelled ≡ s.cancelled)
  after_inject_fields i f sent s = (refl, refl, refl)
  after_inject_fields i f (failed e) s = (refl, refl, refl)
  after_inject_fields i f panicked s = (refl, refl, refl)

  inject_position_fields :
      (i : ℕ) (answer : Post → Option ℤ) (o : Option Fault) (s : RunState R)
      → ((inject_position i answer o s).done ≡ s.done)
        × ((inject_position i answer o s).polling ≡ s.polling)
        × ((inject_position i answer o s).cancelled ≡ s.cancelled)
  inject_position_fields i answer none s = (refl, refl, refl)
  inject_position_fields i answer (some f) s = after_inject_fields i f _ _

  fire_fields :
      (i : ℕ) (answer : Post → Option ℤ) (s : RunState R)
      → ((fire i answer s).done ≡ s.done)
        × ((fire i answer s).polling ≡ s.polling)
        × ((fire i answer s).cancelled ≡ s.cancelled)
  unfolding fire
  fire_fields i answer s = elim (Bool-cases (contains i s.waiting)) [
    | inl t ↦ simp t (inject_position_fields i answer (get_elem? s.runner.scenario.faults i) s)
    | inr f ↦ simp f (refl, refl, refl)
  ]

is_done : {R : Type 0} {s : RunState R} → s.polling ≡ false → IsPolled s → s.done ≡ true
is_done f inv = ground (arith, f, inv.polls)

only : {P : Type 0} {a b : Bool} → (P → ⊥) → a ≡ b → (b ≡ true) ⊎ P → a ≡ true
only never d (inl h) = d ∙ h
only never d (inr p) = absurd (never p)

or_never : {P : Type 0} → P ⊎ ⊥ → P
or_never (inl p) = p
or_never (inr n) = absurd n

was_started : {P : Type 0} → (false ≡ true) ⊎ P → P
was_started (inl h) = cc
was_started (inr p) = p

map_left : {P Q S : Type 0} → (P → Q) → P ⊎ S → Q ⊎ S
map_left f (inl p) = inl (f p)
map_left f (inr s) = inr s

regroup : {P Q S : Type 0} → (P ⊎ Q) ⊎ S → P ⊎ (Q ⊎ S)
regroup (inl (inl p)) = inl p
regroup (inl (inr q)) = inr (inl q)
regroup (inr s) = inr (inr s)

ungroup : {P Q S : Type 0} → P ⊎ (Q ⊎ S) → (P ⊎ Q) ⊎ S
ungroup (inl p) = inl (inl p)
ungroup (inr (inl q)) = inl (inr q)
ungroup (inr (inr s)) = inr s

module _ {R : Type 0} (fl : FloatOps R) (r : Runner R) where
  -- What an event does to the channel.
  abbrev Next : Event R → RunState R → RunState R → Type 0
  Next e s t = IsPolled t × ((t.done ≡ true) ↔ ((s.done ≡ true) ⊎ Passes fl r e))

  Next-same :
      (e : Event R) (s t : RunState R)
      → (Passes fl r e → ⊥)
      → (t.done ≡ s.done) × (t.polling ≡ s.polling) × (t.cancelled ≡ s.cancelled)
      → IsPolled s
      → Next e s t
  Next-same e s t never (d, p, c) inv = (
    record { polls = p ∙ inv.polls ∙ ap not (sym d); calm = c ∙ inv.calm },
    ((λ h. inl (sym d ∙ h)), λ h. only never d h),
  )

  polled-Next :
      (t : ℤ) (network : Network R) (v : Verdict) (s u : RunState R)
      → check_all_objectives fl network r.plan r.scenario.objectives ≡ v
      → (u.done ≡ s.done) × (u.polling ≡ s.polling) × (u.cancelled ≡ s.cancelled)
      → IsPolled s
      → Next (tick t network) s (polled fl v u)
  polled-Next t network pass s u e (d, p, c) inv =
      (record { polls = refl; calm = c ∙ inv.calm }, ((λ h. inr e), λ h. refl))
  polled-Next t network fail s u e (d, p, c) inv = (
    record { polls = p ∙ inv.polls ∙ ap not (sym d); calm = c ∙ inv.calm },
    ((λ h. inl (sym d ∙ h)), λ h. only (λ q. cc (sym e ∙ q)) d h),
  )
  polled-Next t network panic s u e (d, p, c) inv = (
    record { polls = p ∙ inv.polls ∙ ap not (sym d); calm = c ∙ inv.calm },
    ((λ h. inl (sym d ∙ h)), λ h. only (λ q. cc (sym e ∙ q)) d h),
  )

  poll-Next :
      (t : ℤ) (network : Network R) (s : RunState R)
      → s.runner.scenario ≡ r.scenario
      → s.runner.plan ≡ r.plan
      → IsPolled s
      → Next (tick t network) s (poll fl t network s)
  unfolding poll
  poll-Next t network s sc pl inv = elim (Bool-cases s.polling) [
    | inr f ↦ simp f (inv, ((λ h. inl h), λ h. is_done f inv))
    | inl p ↦ simp p (
        polled-Next t network
          (check_all_objectives fl network s.runner.plan s.runner.scenario.objectives) s
          (record (set_elapsed t s) { polling = true }) same (refl, sym p, refl) inv)
  ]
    where
      same :
          check_all_objectives fl network r.plan r.scenario.objectives
          ≡ check_all_objectives fl network s.runner.plan s.runner.scenario.objectives
      same =
          ap (λ q. check_all_objectives fl network q r.scenario.objectives) (sym pl)
          ∙ ap (λ d. check_all_objectives fl network s.runner.plan d.objectives) (sym sc)

  live_step-Next :
      (e : Event R) (s : RunState R)
      → is_context_done e ≡ false
      → s.runner.scenario ≡ r.scenario
      → s.runner.plan ≡ r.plan
      → IsPolled s
      → Next e s (live_step fl e s)
  unfolding live_step
  live_step-Next (time_up i answer) s n sc pl inv =
      Next-same (time_up i answer) s _ (λ p. p) (fire_fields i answer s) inv
  live_step-Next (timer_dropped i) s n sc pl inv =
      simp (inv.calm) (Next-same (timer_dropped i) s s (λ p. p) (refl, refl, refl) inv)
  live_step-Next (tick t network) s n sc pl inv = poll-Next t network s sc pl inv
  live_step-Next poll_dropped s n sc pl inv =
      simp (inv.calm) (Next-same poll_dropped s s (λ p. p) (refl, refl, refl) inv)
  live_step-Next hint_asked s n sc pl inv = Next-same hint_asked s _ (λ p. p) (refl, refl, refl) inv
  live_step-Next (score_read t) s n sc pl inv =
      Next-same hint_asked s _ (λ p. p) (refl, refl, refl) inv
  live_step-Next context_done s n sc pl inv = cc
  live_step-Next (select_done t) s n sc pl inv =
      elim (Bool-cases (s.done && not (has_ended s.ending))) [
        | inl e ↦ simp e (Next-same (select_done t) s _ (λ p. p) (refl, refl, refl) inv)
        | inr e ↦ simp e (Next-same (select_done t) s s (λ p. p) (refl, refl, refl) inv)
      ]
  live_step-Next (select_context t) s n sc pl inv =
      simp (inv.calm) (Next-same (select_context t) s s (λ p. p) (refl, refl, refl) inv)

module _ {R : Type 0} (fl : FloatOps R) (parse : Text → Option ℤ) (r : Runner R) (tiers : List Tier)
    (o : Overrides) (built : build_vm_plan tiers o ≡ ok r.plan) where
  steps-done :
      (es : List (Event R)) (s : RunState R)
      → IsUncancelled es
      → IsRunOf parse r s
      → IsPolled s
      → ((steps fl es s).done ≡ true) ↔ ((s.done ≡ true) ⊎ HasPassed fl r es)
  unfolding steps
  steps-done [] s n run inv = ((λ h. inl h), or_never)
  steps-done (e ∷ es) s (n, ns) run inv =
      let (polled', (there, back)) =
        live_step-Next fl r e s n run.same_scenario run.same_plan inv in
      let (later, sooner) =
        steps-done es (live_step fl e s) ns (live_step-IsRunOf fl parse r tiers o built e s run)
          polled' in
      simp run.alive
        ((λ h. regroup (map_left there (later h))), λ h. sooner (map_left back (ungroup h)))

module _ {R : Type 0} (fl : FloatOps R) (r : Runner R) where
  -- A poll at which there is an objective, and each one is met.
  abbrev pub FindsMet : Event R → Type 0
  FindsMet (tick t network) =
      (r.scenario.objectives ≢ []) × All (IsMet fl network r.plan) r.scenario.objectives
  FindsMet e = ⊥

  abbrev pub HasMet : List (Event R) → Type 0
  HasMet [] = ⊥
  HasMet (e ∷ es) = FindsMet e ⊎ HasMet es

  module _ (tiers : List Tier) (o : Overrides) (built : build_vm_plan tiers o ≡ ok r.plan) where
    finds_iff : (e : Event R) → Passes fl r e ↔ FindsMet e
    finds_iff (tick t network) =
        (check_all_objectives_iff fl network tiers o r.plan r.scenario.objectives [] built).1
    finds_iff (time_up i answer) = ((λ h. h), λ h. h)
    finds_iff (timer_dropped i) = ((λ h. h), λ h. h)
    finds_iff poll_dropped = ((λ h. h), λ h. h)
    finds_iff hint_asked = ((λ h. h), λ h. h)
    finds_iff (score_read t) = ((λ h. h), λ h. h)
    finds_iff context_done = ((λ h. h), λ h. h)
    finds_iff (select_done t) = ((λ h. h), λ h. h)
    finds_iff (select_context t) = ((λ h. h), λ h. h)

    passed_met : (es : List (Event R)) → HasPassed fl r es → HasMet es
    passed_met [] h = absurd h
    passed_met (e ∷ es) (inl h) = inl ((finds_iff e).0 h)
    passed_met (e ∷ es) (inr h) = inr (passed_met es h)

    met_passed : (es : List (Event R)) → HasMet es → HasPassed fl r es
    met_passed [] h = absurd h
    met_passed (e ∷ es) (inl h) = inl ((finds_iff e).1 h)
    met_passed (e ∷ es) (inr h) = inr (met_passed es h)

-- For every runner that NewRunner has made and every history in which the context is not done: the
-- run is done, so that the select prints the result, exactly when the history has a poll at which there
-- is an objective and each one is met, with what the network answers then. One such poll is enough:
-- how long a check must pass, its window, is not looked at.
pub steps-done_iff :
    {R : Type 0} (fl : FloatOps R) (parse : Text → Option ℤ) (sc : Scenario R) (o : RunOptions)
    (r : Runner R) (es : List (Event R))
    → new_runner sc o ≡ ok r
    → IsUncancelled es
    → ((steps fl es (start_run parse r)).done ≡ true) ↔ HasMet fl r es
unfolding start_run
steps-done_iff fl parse sc o r es made n =
    let built = (new_runner-built sc o r made).0 in
    let (there, back) =
      steps-done fl parse r sc.environment.tiers o.overrides built es (start_run parse r) n
        (start_run-IsRunOf parse r) (record { polls = refl; calm = refl }) in
    (
      (λ h. passed_met fl r sc.environment.tiers o.overrides built es (was_started (there h))),
      λ h. back (inr (met_passed fl r sc.environment.tiers o.overrides built es h)),
    )
