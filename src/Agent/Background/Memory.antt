-- ===== src/Agent/Background/Memory.antt =====
-- When the memory fault panics, and what it holds: runMemoryFault of agent/faults.go.
use onfire.Prelude.{
  ℕ, ◌+◌, ◌≢◌, ap, ◌∙◌, ◌/◌, ◌≤◌, ◌<◌, List, [], ◌∷◌, Bool, true, false, ◌||◌, not, none, ◌≡◌, refl,
  ◌↔◌, inl, inr, ◌==◌, if◌then◌else◌, Bool-cases, arith,
}
use native.Mathlib.Nat.{le-div_iff_mul-le}
use onfire.Prelude.Int.{ℤ, pos, negsuc, ◌≤ℤ◌, ◌-ℤ◌}
use onfire.Prelude.Text.{Text, codes}
use onfire.Agent.Faults.{FaultRequest, Machine, run_fault}
use onfire.Agent.Metrics.{FloatMath, read_mem_info}
use onfire.Agent.Background.{
  above_zero, memory_rate, memory_ticker, tick_interval, MemoryRound, memory_tick, memory_cancelled,
  MemoryRun, at_ceiling, memory_steps, memory_step, no_chunks,
}

-- The rates in MB per minute that leave a ticker above 0.
abbrev pub HasInterval : ℤ → Type 0
HasInterval rate = (pos 1 ≤ℤ rate) × (rate ≤ℤ pos 60_000_000_000)

quotient_iff : (n : ℕ) → 0 < n → (1 ≤ 60_000_000_000 / n) ↔ (n ≤ 60_000_000_000)
quotient_iff n h =
    let (to, from) = le-div_iff_mul-le {x = 1} {y = 60_000_000_000} h in
    (λ e. omega (arith, to e), λ e. from (omega arith))

tick_interval_iff : (rate : ℤ) → (above_zero (tick_interval rate) ≢ none) ↔ HasInterval rate
unfolding tick_interval ◌-ℤ◌
tick_interval_iff (pos n) = elim (Bool-cases (n == 0)) [
  | inl t ↦ rw t (ground arith)
  | inr f ↦ rw f (ground (arith, quotient_iff n (ground arith)))
]
tick_interval_iff (negsuc n) = ground arith

-- A memory fault is answered as started, whatever its parameters are: running it returns no error.
-- Its goroutine gets a ticker if and only if the rate is from 1 to 60 000 000 000 MB per minute; with
-- any other rate, 0 included, it panics, and with it the agent.
pub memory_ticker_iff :
    (m : Machine) (to_lower : Text → Text) (req : FaultRequest)
    → req.fault_type ≡ codes "memory"
    → ((run_fault m req).error ≡ none)
      × ((memory_ticker to_lower req.params ≢ none) ↔ HasInterval (memory_rate to_lower req.params))
unfolding run_fault memory_ticker
memory_ticker_iff m to_lower req h =
    (simp h refl, tick_interval_iff (memory_rate to_lower req.params))

-- The rounds that take another MB, up to the end of the context.
module _ {R : Type 0} (fm : FloatMath R) (ceiling : ℤ) where
  abbrev takes_chunk : MemoryRound → Bool
  takes_chunk memory_cancelled = false
  takes_chunk (memory_tick first second) =
      not (at_ceiling fm ceiling (read_mem_info first) (read_mem_info second))

  abbrev pub count_chunks : List MemoryRound → ℕ
  count_chunks [] = 0
  count_chunks (r ∷ rs) = let rest = count_chunks rs in if takes_chunk r then rest + 1 else rest

abbrev pub is_stop : MemoryRound → Bool
is_stop memory_cancelled = true
is_stop (memory_tick first second) = false

abbrev pub any_stop : List MemoryRound → Bool
any_stop [] = false
any_stop (r ∷ rs) = is_stop r || any_stop rs

abbrev pub stopped : MemoryRun
stopped = record { chunks = 0; running = false }

module _ {R : Type 0} (fm : FloatMath R) (ceiling : ℤ) where
  stopped-memory_steps : (rs : List MemoryRound) → memory_steps fm ceiling rs (stopped) ≡ stopped
  unfolding memory_steps memory_step
  stopped-memory_steps [] = refl
  stopped-memory_steps (memory_cancelled ∷ rs) = stopped-memory_steps rs
  stopped-memory_steps (memory_tick first second ∷ rs) = stopped-memory_steps rs

  running-memory_steps :
      (rs : List MemoryRound) (n : ℕ)
      → memory_steps fm ceiling rs (record { chunks = n; running = true }) ≡ (
          if any_stop rs
          then stopped
          else record { chunks = n + count_chunks fm ceiling rs; running = true })
  unfolding memory_steps memory_step
  running-memory_steps [] n = ap (λ k. record { chunks = k; running = true }) (omega arith)
  running-memory_steps (memory_cancelled ∷ rs) n = stopped-memory_steps rs
  running-memory_steps (memory_tick first second ∷ rs) n =
      elim (Bool-cases (at_ceiling fm ceiling (read_mem_info first) (read_mem_info second))) [
        | inl t ↦ rw t (running-memory_steps rs n)
        | inr f ↦ rw f (
            running-memory_steps rs (n + 1)
            ∙ ap (λ k. if any_stop rs then stopped else record { chunks = k; running = true })
                (omega arith))
      ]

-- After any rounds, a memory fault that has seen its context done has freed everything and is over;
-- one that has not is running and holds one MB for each tick at which the use that it read was under
-- the ceiling.
pub memory_steps_exact :
    {R : Type 0} (fm : FloatMath R) (ceiling : ℤ) (rs : List MemoryRound)
    → memory_steps fm ceiling rs no_chunks ≡ (
        if any_stop rs
        then stopped
        else record { chunks = count_chunks fm ceiling rs; running = true })
memory_steps_exact fm ceiling rs =
    running-memory_steps fm ceiling rs 0
    ∙ ap (λ k. if any_stop rs then stopped else record { chunks = k; running = true }) (omega arith)
