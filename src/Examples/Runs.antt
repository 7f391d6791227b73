-- ===== src/Examples/Runs.antt =====
-- Runs of the sample with the objective of Examples/Deliveries.
use onfire.Prelude.{true, ◌≡◌, ◌↔◌, refl, List, [], ◌∷◌, Option, some, ok}
use onfire.Prelude.Int.{ℤ, pos}
use onfire.Prelude.Text.{Text}
use onfire.Scenario.Types.{Scenario}
use onfire.Scenario.Runner.{Runner, new_runner}
use onfire.Scenario.Run.{RunState, Event, time_up, tick, hint_asked, select_done, start_run, steps}
use onfire.Scenario.Run.Done.{IsUncancelled, HasMet, steps-done_iff}
use onfire.Examples.Sample.{thousandths, sample_options}
use onfire.Examples.Scenarios.{valid_sample, sample_runner}
use onfire.Examples.Deliveries.{network, pages, willing}

-- The sample with an objective.
abbrev playable : Scenario ℤ
playable = record valid_sample { objectives = pages ∷ [] }

abbrev player : Runner ℤ
player = record sample_runner { scenario = playable }

player_made : new_runner playable sample_options ≡ ok player
unfolding new_runner
player_made = refl

-- Every duration is read as 0.
abbrev at_once : Text → Option ℤ
at_once s = some (pos 0)

-- The fault, a hint, the poll that finds the page, and the end.
abbrev game : List (Event ℤ)
game =
    time_up 0 willing
    ∷ hint_asked
    ∷ tick (pos 10_000_000_000) network
    ∷ select_done (pos 10_000_000_000)
    ∷ []

game_ends :
    (steps thousandths game (start_run at_once player)).ending
    ≡ some (record { solved = true; final_score = pos 90 })
unfolding steps start_run
game_ends = refl

game_goes_on : IsUncancelled game
game_goes_on = (refl, (refl, (refl, (refl, tt))))

steps-done_iff_example :
    ((steps thousandths game (start_run at_once player)).done ≡ true)
    ↔ HasMet thousandths player game
steps-done_iff_example =
    steps-done_iff thousandths at_once playable sample_options player game player_made game_goes_on

abbrev begun : RunState ℤ
begun = start_run at_once player
