-- ===== src/Scenario/Runner/Hints.antt =====
-- The order in which hints are given, and what they cost.
use onfire.Prelude.{
  ℕ, zero, suc, ◌+◌, ◌-◌, ◌*◌, ◌≤◌, ◌<◌, ◌≡◌, refl, ◌∙◌, List, [], ◌∷◌, none, arith, get_elem?,
  length, ok, ap,
}
use onfire.Prelude.Int.{ℤ, pos}
use onfire.Prelude.Text.{or_else}
use onfire.Scenario.Floats.{FloatOps}
use onfire.Scenario.Types.{Scenario, RunOptions}
use onfire.Scenario.Score.Exact.{current-eq_sub}
use onfire.Scenario.Runner.{Runner, new_runner, request_hint_text, current_score}

get_elem?_beyond {ℓ} : {A : Type ℓ} (xs : List A) (i : ℕ) → length xs ≤ i → get_elem? xs i ≡ none
get_elem?_beyond [] i h = refl
get_elem?_beyond (x ∷ xs) zero h = absurd (omega arith)
get_elem?_beyond (x ∷ xs) (suc i) h = get_elem?_beyond xs i (omega arith)

module _ {R : Type 0} where
  -- The runner after so many requests.
  unfoldable pub after_requests : ℕ → Runner R → Runner R
  unfolding request_hint_text
  after_requests zero r = r
  after_requests (suc k) r = (request_hint_text (after_requests k r)).0

  after_requests_fields :
      (k : ℕ) (r : Runner R)
      → ((after_requests k r).scenario ≡ r.scenario)
        × ((after_requests k r).hints_used ≡ r.hints_used + k)
  unfolding after_requests
  after_requests_fields zero r = (refl, omega arith)
  after_requests_fields (suc k) r = let (s, h) = after_requests_fields k r in (s, omega (arith, h))

  new_runner_fields :
      (s : Scenario R) (o : RunOptions) (r : Runner R)
      → new_runner s o ≡ ok r
      → (r.scenario ≡ s) × (r.hints_used ≡ 0)
  unfolding new_runner
  new_runner_fields s o r e = ground arith

  -- From a new runner, the request that follows `k` others returns the hint of index `k`, or the
  -- empty text if the scenario has no such hint, and leaves the counter at k + 1.
  pub request_hint_text-order :
      (s : Scenario R) (o : RunOptions) (r : Runner R) (k : ℕ)
      → new_runner s o ≡ ok r
      → let (next, text) = request_hint_text (after_requests k r) in
        (text ≡ or_else (get_elem? s.hints k) []) × (next.hints_used ≡ k + 1)
  unfolding request_hint_text
  request_hint_text-order s o r k e =
      let (rs, rh) = new_runner_fields s o r e in
      let (ks, kh) = after_requests_fields k r in
      (ground (arith, rs, rh, ks, kh), omega (arith, rh, kh))

module _ {R : Type 0} (fl : FloatOps R) where
  module _ (r : Runner R) (elapsed : ℤ) (base time penalty : ℕ) (b : r.score.base ≡ pos base)
      (t : fl.to_int (fl.mul (fl.seconds elapsed) r.score.time_penalty_per_second) ≡ pos time)
      (p : r.score.hint_penalty ≡ pos penalty) (lb : base < 4611686018427387904)
      (lt : time < 4611686018427387904) where
    current_score-eq_sub :
        r.hints_used * penalty < 4611686018427387904
        → (current_score fl r elapsed).1 ≡ pos (base - time - r.hints_used * penalty)
    unfolding current_score
    current_score-eq_sub lh =
        current-eq_sub fl (record r.score { elapsed = elapsed; hints_used = pos r.hints_used }) base
          time r.hints_used penalty b t refl p lb lt lh

  -- A request that comes after the last hint returns the empty text, and costs as much as a hint:
  -- the score then falls by the penalty, down to 0 at most. The score is taken at one elapsed time;
  -- base, time penalty and hint penalty are not negative and below 2^62.
  pub exhausted_hint_costs :
      (r : Runner R) (elapsed : ℤ) (base time penalty : ℕ)
      → length r.scenario.hints ≤ r.hints_used
      → r.score.base ≡ pos base
      → fl.to_int (fl.mul (fl.seconds elapsed) r.score.time_penalty_per_second) ≡ pos time
      → r.score.hint_penalty ≡ pos penalty
      → base < 4611686018427387904
      → time < 4611686018427387904
      → r.hints_used * penalty + penalty < 4611686018427387904
      → let (next, text) = request_hint_text r in
        let score = base - time - r.hints_used * penalty in
        (text ≡ [])
        × ((current_score fl r elapsed).1 ≡ pos score)
        × ((current_score fl next elapsed).1 ≡ pos (score - penalty))
  unfolding request_hint_text
  exhausted_hint_costs r elapsed base time penalty gone b t p lb lt lh = (
    rw (get_elem?_beyond r.scenario.hints r.hints_used gone) refl,
    current_score-eq_sub r elapsed base time penalty b t p lb lt (omega arith),
    current_score-eq_sub (record r { hints_used = r.hints_used + 1 }) elapsed base time penalty b t
          p lb lt (grind arith)
        ∙ ap pos (grind arith),
  )
