-- ===== src/Scenario/Screen.antt =====
-- What the trainee reads: buildMOTD, printSignals and printResult of scenario/runner.go. strings.ToUpper
-- and the text of a rounded duration are arguments.
use onfire.Prelude.{◌+◌, List, [], ◌∷◌, ◌++◌, Bool, true, false}
use onfire.Prelude.Int.{ℤ, pos, negsuc}
use onfire.Prelude.Text.{Text, codes, decimal, trim_space}
use onfire.Scenario.Types.{Alert, Objective}
use onfire.Scenario.Floats.{FloatOps}
use onfire.Scenario.Score.{current}
use onfire.Scenario.Runner.{Runner}

-- fmt's %d
unfoldable pub printed : ℤ → Text
unfolding decimal
printed (pos n) = decimal n
printed (negsuc n) = b'-' ∷ decimal (n + 1)

abbrev line : Text → Text
line s = s ++ (b'\n' ∷ [])

unfoldable pub alert_lines : (Text → Text) → List Alert → Text
alert_lines upper [] = []
alert_lines upper (a ∷ alerts) =
    line (b'[' ∷ (upper a.severity ++ (codes "] " ++ (a.name ++ (codes " — " ++ a.message)))))
    ++ alert_lines upper alerts

unfoldable pub symptom_lines : List Text → Text
symptom_lines [] = []
symptom_lines (s ∷ symptoms) = line (codes "  • " ++ s) ++ symptom_lines symptoms

-- With its title, if there is a symptom.
abbrev pub symptom_part : List Text → Text
symptom_part [] = []
symptom_part (s ∷ symptoms) =
    b'\n' ∷ (line (codes "--- What you're seeing ---") ++ symptom_lines (s ∷ symptoms))

unfoldable pub objective_lines : List Objective → Text
objective_lines [] = []
objective_lines (o ∷ objectives) =
    line (codes "  [ ] " ++ o.description) ++ objective_lines objectives

unfoldable pub concat : List Text → Text
concat [] = []
concat (s ∷ ss) = s ++ concat ss

abbrev hint_line : ℤ → Text
hint_line penalty =
    b'\n'
    ∷ (codes "Type 'onfire hint' for a hint (-"
        ++ (printed penalty ++ line (line (codes " pts each)."))))

module _ {R : Type 0} (upper : Text → Text) (r : Runner R) where
  unfoldable pub build_motd : Text
  unfolding concat alert_lines symptom_lines objective_lines printed trim_space
  build_motd = concat (
      (b'\n' ∷ line (codes "=== " ++ (r.scenario.info.title ++ codes " ===")))
      ∷ line (
          line (
            codes "Difficulty: "
            ++ (r.scenario.info.difficulty
                ++ (codes " | Architecture: " ++ r.scenario.info.architecture))))
      ∷ line (trim_space r.scenario.info.description)
      ∷ (b'\n' ∷ line (codes "--- Active Alerts ---"))
      ∷ alert_lines upper r.scenario.signals.alerts
      ∷ symptom_part r.scenario.signals.symptoms
      ∷ (b'\n' ∷ line (codes "Objectives:"))
      ∷ objective_lines r.scenario.objectives
      ∷ hint_line r.scenario.scoring.hint_penalty
      ∷ [])

  abbrev pub runbook_part : Text → Text
  runbook_part [] = []
  runbook_part (c ∷ url) = b'\n' ∷ line (codes "Runbook: " ++ (c ∷ url))

  unfoldable pub print_signals : Text
  unfolding concat alert_lines symptom_lines objective_lines printed
  print_signals = concat (
      (b'\n' ∷ line (codes "--- Active Alerts ---"))
      ∷ alert_lines upper r.scenario.signals.alerts
      ∷ symptom_part r.scenario.signals.symptoms
      ∷ runbook_part r.scenario.signals.runbook_url
      ∷ (b'\n' ∷ line (codes "Objectives:"))
      ∷ objective_lines r.scenario.objectives
      ∷ hint_line r.scenario.scoring.hint_penalty
      ∷ [])

abbrev result_title : Bool → Text
result_title true = codes "SCENARIO COMPLETE"
result_title false = codes "SCENARIO ABORTED"

-- `rounded` prints the time, rounded to seconds.
unfoldable pub result_text : {R : Type 0} → FloatOps R → (ℤ → Text) → Bool → Runner R → Text
unfolding concat current printed decimal
result_text fl rounded solved r = concat (
    (b'\n' ∷ line (codes "=== " ++ (result_title solved ++ codes " ===")))
    ∷ line (codes "Time elapsed : " ++ rounded r.score.elapsed)
    ∷ line (codes "Hints used   : " ++ decimal r.hints_used)
    ∷ line (
        codes "Final score  : "
        ++ (printed (current fl r.score) ++ (codes " / " ++ printed r.scenario.scoring.base)))
    ∷ [])
