-- ===== src/Agent/Metrics.antt =====
-- agent/metrics.go over what the machine's files hold. bufio.Scanner is taken at its lines, none where
-- the file is not opened. float64 is the parameter `fm`, and a uint64 difference wraps around.
pub mod Lines
pub mod Memory
use onfire.Prelude.{
  ℕ, ◌+◌, ◌-◌, ◌*◌, ◌%◌, ◌^◌, List, [], ◌∷◌, map, Bool, true, false, Option, none, some, ltb,
  if◌then◌else◌,
}
use onfire.Prelude.Int.{ℤ}
use onfire.Prelude.Text.{Text, codes, text_eq, has_prefix}
use onfire.Prelude.Numerals.{fields, parse_uint}
use onfire.Agent.Commands.{Command}

-- total and available, in kB.
pub record MemInfo : Type 0 where
  pub total : ℕ
  pub available : ℕ

abbrev pub read_field : Text → ℕ → MemInfo → MemInfo
read_field name value m =
    if text_eq name (codes "MemTotal:")
    then record m { total = value }
    else if text_eq name (codes "MemAvailable:")
    then record m { available = value }
    else m

abbrev pub read_words : List Text → MemInfo → MemInfo
read_words [] m = m
read_words (name ∷ []) m = m
read_words (name ∷ value ∷ rest) m = read_field name (parse_uint value) m

unfoldable pub scan_mem_info : List Text → MemInfo → MemInfo
unfolding fields parse_uint
scan_mem_info [] m = m
scan_mem_info (line ∷ lines) m = scan_mem_info lines (read_words (fields line) m)

-- readMemInfo, none where it returns an error.
unfoldable pub read_mem_info : Option (List Text) → Option MemInfo
unfolding scan_mem_info
read_mem_info none = none
read_mem_info (some lines) = some (scan_mem_info lines (record { total = 0; available = 0 }))

abbrev words_behind : List Text → List ℕ
words_behind [] = []
words_behind (name ∷ values) = map parse_uint values

-- The values of the first line that is of the whole CPU.
unfoldable pub scan_cpu_stat : List Text → Option (List ℕ)
unfolding has_prefix fields parse_uint
scan_cpu_stat [] = none
scan_cpu_stat (line ∷ lines) =
    let rest = scan_cpu_stat lines in
    if has_prefix (codes "cpu ") line then some (words_behind (fields line)) else rest

unfoldable pub read_cpu_stat : Option (List Text) → Option (List ℕ)
unfolding scan_cpu_stat
read_cpu_stat none = none
read_cpu_stat (some lines) = scan_cpu_stat lines

-- The float64 operations of collectMetrics and of runMemoryFault. The conversions are those of uint64
-- and of int; `at_least x y` is x >= y.
pub record FloatMath (R : Type 0) : Type 0 where
  pub of_uint : ℕ → R
  pub of_int : ℤ → R
  pub div : R → R → R
  pub mul : R → R → R
  pub at_least : R → R → Bool
  -- strconv.ParseFloat(s, 64) as it is with its error dropped
  pub parse : Text → R

-- The fields of syscall.Statfs_t that are read.
pub record DiskStat : Type 0 where
  pub blocks : ℕ
  pub free_blocks : ℕ
  pub block_size : ℕ

pub record Metrics (R : Type 0) : Type 0 where
  pub cpu_pct : R
  pub mem_used_mb : R
  pub mem_total_mb : R
  pub mem_used_pct : R
  pub disk_used_pct : R
  pub disk_free_mb : R
  pub load_avg_1 : R

-- The machine's files: /proc/meminfo and /proc/stat by lines, the root's file system, /proc/loadavg.
pub record Files : Type 0 where
  pub mem_info : Option (List Text)
  pub cpu_stat : Option (List Text)
  pub root_stat : Option DiskStat
  pub load_avg : Option Text

-- a - b of two uint64.
abbrev pub sub_uint : ℕ → ℕ → ℕ
sub_uint a b = (a + 2 ^ 64 - b) % 2 ^ 64

module _ {R : Type 0} (fm : FloatMath R) where
  unfoldable pub percent : ℕ → ℕ → R
  percent part whole = fm.mul (fm.div (fm.of_uint part) (fm.of_uint whole)) (fm.of_uint 100)

  abbrev pub with_memory : Option MemInfo → Metrics R → Metrics R
  with_memory none m = m
  with_memory (some i) m = record m {
    mem_total_mb = fm.div (fm.of_uint i.total) (fm.of_uint 1024);
    mem_used_mb = fm.div (fm.of_uint (sub_uint i.total i.available)) (fm.of_uint 1024);
    mem_used_pct =
        if ltb 0 i.total then percent (sub_uint i.total i.available) i.total else m.mem_used_pct;
  }

  abbrev pub with_disk : Option DiskStat → Metrics R → Metrics R
  with_disk none m = m
  with_disk (some d) m =
      let total = (d.blocks * d.block_size) % 2 ^ 64 in
      let free = (d.free_blocks * d.block_size) % 2 ^ 64 in
      record m {
        disk_free_mb = fm.div (fm.div (fm.of_uint free) (fm.of_uint 1024)) (fm.of_uint 1024);
        disk_used_pct =
            if ltb 0 total then percent (sub_uint total free) total else m.disk_used_pct;
      }

  abbrev pub first_load : List Text → Metrics R → Metrics R
  first_load [] m = m
  first_load (word ∷ words) m = record m { load_avg_1 = fm.parse word }

  abbrev pub with_load : Option Text → Metrics R → Metrics R
  with_load none m = m
  with_load (some text) m = first_load (fields text) m

  -- readCPUPercent, which is 0 with an error and without.
  unfoldable pub read_cpu_percent : Option (List Text) → R × Bool
  unfolding read_cpu_stat
  read_cpu_percent file = elim (read_cpu_stat file) [
    | none ↦ (fm.of_uint 0, false)
    | some s ↦ (fm.of_uint 0, true)
  ]

  abbrev pub no_metrics : Metrics R
  no_metrics = record {
    cpu_pct = fm.of_uint 0;
    mem_used_mb = fm.of_uint 0;
    mem_total_mb = fm.of_uint 0;
    mem_used_pct = fm.of_uint 0;
    disk_used_pct = fm.of_uint 0;
    disk_free_mb = fm.of_uint 0;
    load_avg_1 = fm.of_uint 0;
  }

  unfoldable pub collect_metrics : Files → Metrics R
  unfolding read_mem_info percent fields read_cpu_percent
  collect_metrics files =
      let m =
        with_load files.load_avg
          (with_disk files.root_stat (with_memory (read_mem_info files.mem_info) no_metrics)) in
      record m { cpu_pct = (read_cpu_percent files.cpu_stat).0 }

pub record ServiceStatus : Type 0 where
  pub name : Text
  pub active : Bool

abbrev pub candidates : List Text
candidates =
    codes "ssh"
    ∷ codes "sshd"
    ∷ codes "nginx"
    ∷ codes "apache2"
    ∷ codes "mysql"
    ∷ codes "postgresql"
    ∷ codes "postgres"
    ∷ codes "redis"
    ∷ codes "redis-server"
    ∷ codes "app-server"
    ∷ codes "celery"
    ∷ codes "onfire-agent"
    ∷ []

unfoldable pub is_active_command : Text → Command
is_active_command name = codes "systemctl" ∷ codes "is-active" ∷ codes "--quiet" ∷ name ∷ []

-- `runs` is whether a command succeeds.
unfoldable pub is_service_active : (Command → Bool) → Text → Bool
unfolding is_active_command
is_service_active runs name = runs (is_active_command name)

unfoldable pub list_services : (Command → Bool) → List ServiceStatus
unfolding is_active_command
list_services runs =
    map (λ name. record { name = name; active = runs (is_active_command name) }) candidates
