-- ===== src/Agent/Background.antt =====
-- The faults of agent/faults.go that run in a goroutine until their context is cancelled: runCPUFault,
-- runMemoryFault and runDiskFault. strings.ToLower, filepath.Join and the number of CPUs are
-- arguments, and so is what the machine answers in each round of a loop.
pub mod Memory
pub mod Disk
use onfire.Prelude.{
  ℕ, ◌+◌, ◌/◌, List, [], ◌∷◌, ◌++◌, Bool, true, false, ◌&&◌, ◌||◌, not, Option, none, some, ltb,
  ◌==◌, if◌then◌else◌,
}
use onfire.Prelude.Int.{ℤ, pos, negsuc, ◌*ℤ◌, ◌-ℤ◌, wrap64, ltb_ℤ}
use onfire.Prelude.Text.{Text, codes, trim_suffix, decimal, or_else}
use onfire.Prelude.Dict.{lookup}
use onfire.Prelude.Numerals.{atoi}
use onfire.Agent.Commands.{Params, Command, param_or}
use onfire.Agent.Metrics.{MemInfo, FloatMath, percent, sub_uint, read_mem_info}

-- A number among the parameters, behind what `clean` leaves of its text.
abbrev pub number_of : (Text → Text) → ℤ → Option Text → ℤ
number_of clean d none = d
number_of clean d (some v) = or_else (atoi (clean v)) d

abbrev percent_param : Text → ℤ → Params → ℤ
percent_param key d params = number_of (λ v. trim_suffix v (codes "%")) d (lookup key params)

-- strconv.Itoa
unfoldable pub itoa : ℤ → Text
unfolding decimal
itoa (pos n) = decimal n
itoa (negsuc n) = b'-' ∷ decimal (n + 1)

-- stress-ng if it is found, and else a goroutine for each CPU, which in turn works and sleeps, in
-- nanoseconds.
pub data CpuLoad : Type 0 where
  stress : Command → CpuLoad
  workers : ℕ → ℤ → ℤ → CpuLoad

unfoldable pub load_pct : Params → ℤ
unfolding lookup atoi trim_suffix
load_pct params = percent_param (codes "load") (pos 80) params

-- `found` is whether there is a stress-ng.
unfoldable pub run_cpu_fault : Bool → ℕ → Params → CpuLoad
unfolding load_pct itoa decimal wrap64 ◌*ℤ◌ ◌-ℤ◌
run_cpu_fault found cpus params =
    let load = load_pct params in
    if found
    then stress (
        codes "stress-ng"
        ∷ codes "--cpu"
        ∷ decimal cpus
        ∷ codes "--cpu-load"
        ∷ itoa load
        ∷ codes "--timeout"
        ∷ codes "0"
        ∷ [])
    else workers cpus (wrap64 (load *ℤ pos 1_000_000))
        (wrap64 (wrap64 (pos 100 -ℤ load) *ℤ pos 1_000_000))

-- strings.ReplaceAll(v, " ", "")
unfoldable pub without_blanks : Text → Text
without_blanks [] = []
without_blanks (c ∷ s) = let rest = without_blanks s in if c == b' ' then rest else c ∷ rest

unfoldable pub memory_rate : (Text → Text) → Params → ℤ
unfolding lookup atoi trim_suffix without_blanks
memory_rate to_lower params =
    number_of
      (λ v. trim_suffix (trim_suffix (to_lower (without_blanks v)) (codes "mb/min")) (codes "mb"))
      (pos 10) (lookup (codes "rate") params)

unfoldable pub memory_ceiling : Params → ℤ
unfolding lookup atoi trim_suffix
memory_ceiling params = percent_param (codes "ceiling") (pos 90) params

abbrev pub negated : ℕ → ℤ
negated n = pos 0 -ℤ pos n

-- time.Minute / time.Duration(rate), which is cut towards 0; a division by 0 panics.
unfoldable pub tick_interval : ℤ → Option ℤ
unfolding ◌-ℤ◌
tick_interval (pos n) = if n == 0 then none else some (pos (60_000_000_000 / n))
tick_interval (negsuc n) = some (negated (60_000_000_000 / (n + 1)))

-- time.NewTicker panics at an interval that is not above 0.
abbrev pub above_zero : Option ℤ → Option ℤ
above_zero none = none
above_zero (some d) = if ltb_ℤ (pos 0) d then some d else none

-- The interval of the ticker, none where the goroutine panics.
unfoldable pub memory_ticker : (Text → Text) → Params → Option ℤ
unfolding memory_rate tick_interval
memory_ticker to_lower params = above_zero (tick_interval (memory_rate to_lower params))

-- A round of the memory loop: a tick, with what /proc/meminfo holds at the first and at the second
-- reading, or the context.
pub data MemoryRound : Type 0 where
  memory_tick : Option (List Text) → Option (List Text) → MemoryRound
  memory_cancelled : MemoryRound

-- The chunks of 1 MB that are held.
pub record MemoryRun : Type 0 where
  pub chunks : ℕ
  pub running : Bool

abbrev total_of : Option MemInfo → ℕ
total_of none = 0
total_of (some i) = i.total

module _ {R : Type 0} (fm : FloatMath R) where
  -- Whether the use is at the ceiling, by the available memory of one reading and the total of the
  -- next one.
  abbrev pub at_ceiling : ℤ → Option MemInfo → Option MemInfo → Bool
  at_ceiling ceiling none second = false
  at_ceiling ceiling (some i) second =
      ltb 0 (total_of second)
      && fm.at_least (percent fm (sub_uint (total_of second) i.available) (total_of second))
          (fm.of_int ceiling)

  unfoldable pub memory_step : ℤ → MemoryRound → MemoryRun → MemoryRun
  unfolding read_mem_info percent
  memory_step ceiling memory_cancelled s =
      if s.running then record { chunks = 0; running = false } else s
  memory_step ceiling (memory_tick first second) s =
      if not s.running || at_ceiling ceiling (read_mem_info first) (read_mem_info second)
      then s
      else record { chunks = s.chunks + 1; running = true }

  unfoldable pub memory_steps : ℤ → List MemoryRound → MemoryRun → MemoryRun
  unfolding memory_step
  memory_steps ceiling [] s = s
  memory_steps ceiling (r ∷ rs) s = memory_steps ceiling rs (memory_step ceiling r s)

abbrev pub no_chunks : MemoryRun
no_chunks = record { chunks = 0; running = true }

-- A round of the disk loop: whether the context is done, whether the file is gone, and whether a
-- write succeeds.
pub record DiskRound : Type 0 where
  pub is_cancelled : Bool
  pub is_gone : Bool
  pub writes : Bool

pub data DiskMode : Type 0 where
  filling polling ended : DiskMode

-- `written` counts the writes, of 1 MB each; `is_open` is whether the agent holds the file open.
pub record DiskRun : Type 0 where
  pub path : Text
  pub mode : DiskMode
  pub written : ℕ
  pub is_open : Bool
  pub removed : Bool

-- The deferred Close and Remove.
abbrev pub end_disk : DiskRun → DiskRun
end_disk s = record s { mode = ended; is_open = false; removed = true }

abbrev pub fill : Bool → DiskRun → DiskRun
fill true s = record s { written = s.written + 1 }
fill false s = record s { mode = polling }

abbrev pub disk_round : DiskMode → DiskRound → DiskRun → DiskRun
disk_round ended r s = s
disk_round filling r s = if r.is_cancelled || r.is_gone then end_disk s else fill r.writes s
disk_round polling r s = if r.is_cancelled || r.is_gone then end_disk s else s

unfoldable pub disk_rounds : List DiskRound → DiskRun → DiskRun
disk_rounds [] s = s
disk_rounds (r ∷ rs) s = disk_rounds rs (disk_round s.mode r s)

-- `creates` is whether os.Create succeeds; if it does not, the fault is over.
unfoldable pub run_disk_fault :
    (Text → Text → Text) → Bool → Params → List DiskRound → Option DiskRun
unfolding lookup disk_rounds
run_disk_fault join creates params rounds =
    if creates
    then some (
        disk_rounds rounds (record {
          path = join (param_or params (codes "path") (codes "/")) (codes ".onfire-diskfill");
          mode = filling;
          written = 0;
          is_open = true;
          removed = false;
        }))
    else none
