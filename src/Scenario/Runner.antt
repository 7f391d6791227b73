-- ===== src/Scenario/Runner.antt =====
-- The hints and the live score of a Runner (scenario/runner.go), and NewRunner. The clock is an
-- argument: `elapsed` is time.Since(r.startAt). A run sees fewer than 2^63 hint requests.
pub mod Hints
use onfire.Prelude.{
  ℕ, ◌+◌, List, [], ◌∷◌, Option, none, some, get_elem?, Result, ok, err, if◌then◌else◌, Bool, ◌&&◌,
}
use onfire.Prelude.Int.{ℤ, pos, ltb_ℤ}
use onfire.Prelude.Text.{Text, or_else}
use onfire.Scenario.Floats.{FloatOps}
use onfire.Scenario.Types.{Scenario, VmPlan, RunOptions}
use onfire.Scenario.Plan.{PlanError, build_vm_plan}
use onfire.Scenario.Score.{Score, current}

pub record Runner (R : Type 0) : Type 0 where
  pub scenario : Scenario R
  pub plan : VmPlan
  pub opts : RunOptions
  pub score : Score R
  pub hints_used : ℕ

-- What RequestHint prints: a hint with its price, or "No more hints available."
pub data HintLine : Type 0 where
  no_more_hints : HintLine
  hint : Text → ℤ → HintLine

abbrev hint_line : ℤ → Option Text → HintLine
hint_line penalty none = no_more_hints
hint_line penalty (some text) = hint text penalty

module _ {R : Type 0} where
  abbrev pub runner_for :
      Scenario R → RunOptions → Result PlanError VmPlan → Result PlanError (Runner R)
  runner_for s o (err e) = err e
  runner_for s o (ok plan) = ok (record {
    scenario = s;
    plan = plan;
    opts = o;
    score = record {
      base = s.scoring.base;
      elapsed = pos 0;
      hints_used = pos 0;
      hint_penalty = s.scoring.hint_penalty;
      time_penalty_per_second = s.scoring.time_penalty_per_second;
    };
    hints_used = 0;
  })

  unfoldable pub new_runner : Scenario R → RunOptions → Result PlanError (Runner R)
  unfolding build_vm_plan
  new_runner s o = runner_for s o (build_vm_plan s.environment.tiers o.overrides)

  -- What Run starts the web terminal with, where `set` is whether there is one: the number of VMs, and
  -- the port.
  unfoldable pub web_terminal : Bool → Runner R → Option (ℕ × ℤ)
  web_terminal set r =
      if set && ltb_ℤ (pos 0) r.opts.web_port
      then some (r.plan.total_vms, r.opts.web_port)
      else none

  -- The counter is raised first; a hint beyond the last one is the empty text.
  unfoldable pub request_hint_text : Runner R → Runner R × Text
  request_hint_text r = (
    record r { hints_used = r.hints_used + 1 },
    or_else (get_elem? r.scenario.hints r.hints_used) [],
  )

  unfoldable pub request_hint : Runner R → Runner R × HintLine
  request_hint r = (
    record r { hints_used = r.hints_used + 1 },
    hint_line r.scenario.scoring.hint_penalty (get_elem? r.scenario.hints r.hints_used),
  )

module _ {R : Type 0} (fl : FloatOps R) where
  -- The score record is brought up to date, and read.
  unfoldable pub current_score : Runner R → ℤ → Runner R × ℤ
  unfolding current
  current_score r elapsed =
      let score = record r.score { elapsed = elapsed; hints_used = pos r.hints_used } in
      (record r { score = score }, current fl score)
