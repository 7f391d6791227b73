-- ===== src/Cmd/Commands/Terminals.antt =====
-- The web terminal that "onfire scenario run" starts, and the VMs of the plan: cmd/scenario.go, Run of
-- scenario/runner.go, and StartWebTerminal of cmd/serve.go.
use onfire.Prelude.{
  ℕ, zero, suc, ◌<◌, ◌≡◌, ◌↔◌, refl, ap, ◌∙◌, List, [], ◌∷◌, Bool, true, some, Result, ok, err,
  Bool-cases, inl, inr, arith, length, get_elem?, ok_eq_ok, some_eq_some,
}
use onfire.Prelude.Int.{ℤ, pos, ltb_ℤ}
use onfire.Prelude.Text.{Text, codes, text_eq, or_else}
use onfire.Prelude.Numerals.{atoi}
use onfire.Scenario.Types.{Scenario, VmEntry, VmPlan, Tier, Overrides, RunOptions}
use onfire.Scenario.Parser.{LoadError}
use onfire.Scenario.Plan.{PlanError, build_vm_plan}
use onfire.Scenario.Plan.Invariant.{build_vm_plan-IsIndexed}
use onfire.Scenario.Runner.{Runner, new_runner, runner_for, web_terminal}
use onfire.Cmd.Terminal.{
  ScenarioFlags, ready, options_of, scenario_run_cmd, made_runner, with_scenario,
}
use onfire.Cmd.Terminal.Reach.{ws_vm_iff}
use onfire.Cmd.Server.{shell, serve_terminal}
use onfire.Cmd.Server.Shells.{serve_terminal-shell}

-- A VM of the plan has this number.
abbrev pub HasIndex : VmPlan → ℕ → Type 0
HasIndex plan vm = (i : ℕ) × (e : VmEntry) × (get_elem? plan.vms i ≡ some e) × (e.index ≡ vm)

get_elem?-lt {ℓ} :
    {A : Type ℓ} (xs : List A) (i : ℕ) {a : A} → get_elem? xs i ≡ some a → i < length xs
get_elem?-lt [] i h = cc
get_elem?-lt (x ∷ xs) zero h = omega arith
get_elem?-lt (x ∷ xs) (suc i) h = omega (arith, get_elem?-lt xs i h)

lt-get_elem? {ℓ} :
    {A : Type ℓ} (xs : List A) (i : ℕ) → i < length xs → (a : A) × (get_elem? xs i ≡ some a)
lt-get_elem? [] i h = absurd (omega (arith, h))
lt-get_elem? (x ∷ xs) zero h = (x, refl)
lt-get_elem? (x ∷ xs) (suc i) h = lt-get_elem? xs i (omega (arith, h))

-- Without allocated IDs, the numbers of a plan's VMs are those below its total.
build_vm_plan-HasIndex :
    (tiers : List Tier) (o : Overrides) (plan : VmPlan) (vm : ℕ)
    → build_vm_plan tiers o ≡ ok plan
    → o.vm_ids ≡ []
    → (vm < plan.total_vms) ↔ HasIndex plan vm
build_vm_plan-HasIndex tiers o plan vm made none_given =
    let v = build_vm_plan-IsIndexed tiers o plan made in
    let at = λ (i : ℕ) (e : VmEntry) (h : get_elem? plan.vms i ≡ some e).
      (v.covered i e h).1 ∙ ap (λ ids. or_else (get_elem? ids i) i) none_given in
    (
      (λ h.
          let (e, there) = lt-get_elem? plan.vms vm (omega (arith, h, v.counted)) in
          (vm, e, there, at vm e there)),
      λ (i, e, there, same).
          omega (arith, v.counted, get_elem?-lt plan.vms i there, at i e there, same),
    )

module _ {R : Type 0} where
  new_runner-plan :
      (s : Scenario R) (o : RunOptions) (r : Runner R)
      → new_runner s o ≡ ok r
      → build_vm_plan s.environment.tiers o.overrides ≡ ok r.plan
  unfolding new_runner
  new_runner-plan s o r h = from (build_vm_plan s.environment.tiers o.overrides) h
    where
      from : (p : Result PlanError VmPlan) → runner_for s o p ≡ ok r → p ≡ ok r.plan
      from (err e) h = cc h
      from (ok plan) h = ap (λ k. ok k.plan) (ok_eq_ok h)

  ready_runner :
      (load : Text → Result LoadError (Scenario R)) (o : Result PlanError (Runner R)) (r : Runner R)
      → made_runner load o ≡ ready r
      → o ≡ ok r
  ready_runner load (err e) r h = cc h
  ready_runner load (ok s) r h = cc h

  ready_scenario :
      (load : Text → Result LoadError (Scenario R)) (f : ScenarioFlags)
      (o : Result LoadError (Scenario R)) (r : Runner R)
      → with_scenario load f o ≡ ready r
      → (s : Scenario R) × (new_runner s (options_of f) ≡ ok r)
  ready_scenario load f (err e) r h = cc h
  ready_scenario load f (ok s) r h = (s, ready_runner load _ r h)

  scenario_run_cmd-plan :
      (load : Text → Result LoadError (Scenario R)) (f : ScenarioFlags) (r : Runner R)
      → scenario_run_cmd load f ≡ ready r
      → (s : Scenario R) × (build_vm_plan s.environment.tiers (options_of f).overrides ≡ ok r.plan)
  unfolding scenario_run_cmd
  scenario_run_cmd-plan load f r h = elim (Bool-cases (text_eq f.file [])) [
    | inl e ↦ cc (rw e at h)
    | inr e ↦
        let (s, made) = ready_scenario load f (load f.file) r (rw e at h) in
        (s, new_runner-plan s (options_of f) r made)
  ]

  web_terminal-total :
      (r : Runner R) (count : ℕ) (port : ℤ)
      → web_terminal true r ≡ some (count, port)
      → r.plan.total_vms ≡ count
  unfolding web_terminal
  web_terminal-total r count port h = elim (Bool-cases (ltb_ℤ (pos 0) r.opts.web_port)) [
    | inl e ↦ ap (λ p. p.0) (some_eq_some (rw e at h))
    | inr e ↦ cc (rw e at h)
  ]

-- "onfire scenario run" starts the web terminal for the VMs of the plan: where it has one, a browser gets
-- a shell from it exactly on the numbers of these VMs, if its connection can be upgraded.
pub scenario_terminal_iff :
    {R : Type 0} (load : Text → Result LoadError (Scenario R)) (f : ScenarioFlags) (r : Runner R)
    (count : ℕ) (port : ℤ) (query : Text) (upgrades : Bool) (vm : ℕ)
    → scenario_run_cmd load f ≡ ready r
    → web_terminal true r ≡ some (count, port)
    → (serve_terminal {R = R} query upgrades count (codes "/ws") ≡ shell vm)
      ↔ ((atoi query ≡ some (pos vm)) × HasIndex r.plan vm × (upgrades ≡ true))
scenario_terminal_iff load f r count port query upgrades vm started shown =
    let (s, made) = scenario_run_cmd-plan load f r started in
    let (lt, has) =
      build_vm_plan-HasIndex s.environment.tiers (options_of f).overrides r.plan vm made refl in
    let total = web_terminal-total r count port shown in
    let (there, back) = serve_terminal-shell query upgrades vm count in
    let (read, reads) = ws_vm_iff count query vm in
    (
      (λ h.
          let (u, up) = there h in
          let (asked, below) = read u in (asked, lt (omega (arith, below, total)), up)),
      λ (asked, there', up). back (reads (asked, omega (arith, has there', total)), up),
    )
