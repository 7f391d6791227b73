-- ===== src/Examples/Machines.antt =====
-- What the agent reads of its machine, and its background faults, at small inputs.
use onfire.Prelude.{
  All, ◌++◌, ◌-◌, ◌/◌, ◌*◌, leb, not, true, false, ◌≡◌, ◌≢◌, ◌↔◌, refl, List, [], ◌∷◌, none, some,
  arith, ℕ,
}
use onfire.Prelude.Int.{pos, pos_part}
use onfire.Prelude.Text.{Text, codes}
use onfire.Prelude.Numerals.{fields}
use onfire.Agent.Faults.{FaultRequest, Machine, run_fault}
use onfire.Agent.Metrics.{FloatMath, Files, collect_metrics, read_mem_info, percent}
use onfire.Agent.Metrics.Memory.{IsOther, mem_info_file, collect_metrics-mem_info_file}
use onfire.Agent.Background.{
  memory_rate, memory_ticker, MemoryRound, memory_tick, memory_steps, no_chunks, DiskRound, DiskRun,
  ended, run_disk_fault, run_cpu_fault, stress,
}
use onfire.Agent.Background.Memory.{HasInterval, memory_ticker_iff}
use onfire.Agent.Background.Disk.{any_last, leading_writes, run_disk_fault_iff}

-- Whole numbers.
abbrev whole : FloatMath ℕ
whole = record {
  of_uint = λ n. n;
  of_int = λ z. pos_part z;
  div = λ a b. a / b;
  mul = λ a b. a * b;
  at_least = λ a b. leb b a;
  parse = λ s. 0;
}

abbrev free_line : List Text
free_line = codes "MemFree:          123456 kB" ∷ []

abbrev meminfo : List Text
meminfo = mem_info_file [] 7 4_096_000 free_line 4 1_024_000 (codes "Buffers:  77 kB" ∷ [])

others : All IsOther free_line × All IsOther (codes "Buffers:  77 kB" ∷ [])
unfolding fields
others = ((refl, tt), (refl, tt))

abbrev files : Files
files = record { mem_info = some meminfo; cpu_stat = none; root_stat = none; load_avg = none }

collect_metrics-mem_info_file_example :
    (read_mem_info files.mem_info ≡ some (record { total = 4_096_000; available = 1_024_000 }))
    × ((collect_metrics whole files).mem_total_mb ≡ 4_096_000 / 1024)
    × ((collect_metrics whole files).mem_used_mb ≡ (4_096_000 - 1_024_000) / 1024)
    × ((collect_metrics whole files).mem_used_pct ≡ percent whole (4_096_000 - 1_024_000) 4_096_000)
collect_metrics-mem_info_file_example =
    collect_metrics-mem_info_file whole files [] free_line (codes "Buffers:  77 kB" ∷ []) 7
      4_096_000 4 1_024_000 tt others.0 others.1 refl (omega arith) (omega arith) (omega arith)

-- A machine where nothing runs.
abbrev bare : Machine
bare = record { runs = λ c. false; appends = false; parse_duration = λ d. none }

abbrev same : Text → Text
same s = s

abbrev leak : FaultRequest
leak = record {
  id = codes "leak";
  fault_type = codes "memory";
  params = (codes "rate", codes "0 mb/min") ∷ [];
}

-- A rate of 0 is refused by nothing but the division.
leak_rate : memory_rate same leak.params ≡ pos 0
unfolding memory_rate
leak_rate = refl

memory_ticker_iff_example :
    ((run_fault bare leak).error ≡ none)
    × ((memory_ticker same leak.params ≢ none) ↔ HasInterval (memory_rate same leak.params))
memory_ticker_iff_example = memory_ticker_iff bare same leak refl

abbrev ticks : List MemoryRound
ticks = memory_tick none none ∷ memory_tick (some meminfo) (some meminfo) ∷ []

ticks_held : memory_steps whole (pos 0) ticks no_chunks ≡ record { chunks = 1; running = true }
unfolding memory_steps mem_info_file
ticks_held = refl

-- Two writes, a full disk, and the file gone.
abbrev rounds : List DiskRound
rounds =
    record { is_cancelled = false; is_gone = false; writes = true }
    ∷ record { is_cancelled = false; is_gone = false; writes = true }
    ∷ record { is_cancelled = false; is_gone = false; writes = false }
    ∷ record { is_cancelled = false; is_gone = true; writes = false }
    ∷ []

abbrev join : Text → Text → Text
join a b = a ++ b

run_disk_fault_iff_example :
    (s : DiskRun) × (run_disk_fault join true [] rounds ≡ some s)
    × ((s.mode ≡ ended) ↔ (any_last rounds ≡ true))
    × (s.is_open ≡ not (any_last rounds))
    × (s.removed ≡ any_last rounds)
    × (s.written ≡ leading_writes rounds)
run_disk_fault_iff_example = run_disk_fault_iff join [] rounds

two_written : leading_writes rounds ≡ 2
two_written = refl

stressed :
    run_cpu_fault true 2 ((codes "load", codes "95%") ∷ [])
    ≡ stress (
        codes "stress-ng"
        ∷ codes "--cpu"
        ∷ codes "2"
        ∷ codes "--cpu-load"
        ∷ codes "95"
        ∷ codes "--timeout"
        ∷ codes "0"
        ∷ [])
unfolding run_cpu_fault
stressed = refl
