-- ===== src/Agent/Metrics/Memory.antt =====
-- The memory that the agent reports, from /proc/meminfo as the kernel prints it: readMemInfo and
-- collectMetrics of agent/metrics.go.
use onfire.Prelude.{
  append_empty, ◌||◌, Option, none, lt→ltb, ℕ, ◌-◌, ◌≤◌, ◌<◌, List, [], ◌∷◌, ◌++◌, Bool, false,
  some, ◌≡◌, refl, sym, ap, ◌∙◌, All, arith,
}
use onfire.Prelude.Text.{Text, codes, text_eq, is_space}
use onfire.Prelude.Numerals.{fields, parse_uint-decimal, max_uint64}
use onfire.Agent.Metrics.{
  Metrics, DiskStat, with_disk, first_load, with_load, with_memory, no_metrics, sub_uint, MemInfo,
  scan_mem_info, read_words, read_mem_info, FloatMath, Files, percent, collect_metrics,
}
use onfire.Agent.Metrics.Lines.{mem_line, fields-mem_line}

abbrev is_memory_name : List Text → Bool
is_memory_name [] = false
is_memory_name (name ∷ words) =
    text_eq name (codes "MemTotal:") || text_eq name (codes "MemAvailable:")

-- A line whose first word is neither of the two names.
abbrev pub IsOther : Text → Type 0
IsOther line = is_memory_name (fields line) ≡ false

read_words-IsOther :
    (ws : List Text) (m : MemInfo) → is_memory_name ws ≡ false → read_words ws m ≡ m
read_words-IsOther [] m h = refl
read_words-IsOther (name ∷ []) m h = refl
read_words-IsOther (name ∷ value ∷ ws) m h = ground (arith, h)

scan_mem_info-All :
    (lines rest : List Text) (m : MemInfo)
    → All IsOther lines
    → scan_mem_info (lines ++ rest) m ≡ scan_mem_info rest m
unfolding scan_mem_info
scan_mem_info-All [] rest m h = refl
scan_mem_info-All (line ∷ lines) rest m h =
    ap (scan_mem_info (lines ++ rest)) (read_words-IsOther (fields line) m h.0)
    ∙ scan_mem_info-All lines rest m h.1

-- The file, with other lines before, between and behind the two.
unfoldable pub mem_info_file : List Text → ℕ → ℕ → List Text → ℕ → ℕ → List Text → List Text
unfolding mem_line
mem_info_file before b1 total between b2 available behind =
    before
    ++ (mem_line (codes "MemTotal:") b1 total
        ∷ (between ++ (mem_line (codes "MemAvailable:") b2 available ∷ behind)))

scan_mem_info-total :
    (blanks n : ℕ) (rest : List Text) (m : MemInfo)
    → n ≤ max_uint64
    → scan_mem_info (mem_line (codes "MemTotal:") blanks n ∷ rest) m
      ≡ scan_mem_info rest (record m { total = n })
unfolding scan_mem_info is_space
scan_mem_info-total blanks n rest m h =
    ap (λ ws. scan_mem_info rest (read_words ws m))
      (fields-mem_line (codes "MemTotal:") blanks n (ground arith) refl)
    ∙ ap (λ v. scan_mem_info rest (record m { total = v })) (parse_uint-decimal n h)

scan_mem_info-available :
    (blanks n : ℕ) (rest : List Text) (m : MemInfo)
    → n ≤ max_uint64
    → scan_mem_info (mem_line (codes "MemAvailable:") blanks n ∷ rest) m
      ≡ scan_mem_info rest (record m { available = n })
unfolding scan_mem_info is_space
scan_mem_info-available blanks n rest m h =
    ap (λ ws. scan_mem_info rest (read_words ws m))
      (fields-mem_line (codes "MemAvailable:") blanks n (ground arith) refl)
    ∙ ap (λ v. scan_mem_info rest (record m { available = v })) (parse_uint-decimal n h)

scan_mem_info-mem_info_file :
    (before between behind : List Text) (b1 total b2 available : ℕ)
    → All IsOther before
    → All IsOther between
    → All IsOther behind
    → total ≤ max_uint64
    → available ≤ max_uint64
    → scan_mem_info
        (mem_info_file before b1 total between b2 available behind)
        (record { total = 0; available = 0 })
      ≡ record { total = total; available = available }
unfolding mem_info_file scan_mem_info
scan_mem_info-mem_info_file before between behind b1 total b2 available h1 h2 h3 ht ha =
    let tail : List Text = mem_line (codes "MemAvailable:") b2 available ∷ behind in
    scan_mem_info-All before (mem_line (codes "MemTotal:") b1 total ∷ (between ++ tail)) _ h1
    ∙ scan_mem_info-total b1 total (between ++ tail) _ ht
    ∙ scan_mem_info-All between tail _ h2
    ∙ scan_mem_info-available b2 available behind _ ha
    ∙ sym (
        ap (λ ls. scan_mem_info ls (record { total = total; available = available }))
          (append_empty behind))
    ∙ scan_mem_info-All behind [] _ h3

module _ {R : Type 0} (fm : FloatMath R) where
  -- The three values about memory: total, used, and used of the total.
  abbrev memory_of : Metrics R → R × R × R
  memory_of m = (m.mem_total_mb, m.mem_used_mb, m.mem_used_pct)

  with_disk-memory_of :
      (d : Option DiskStat) (m : Metrics R) → memory_of (with_disk fm d m) ≡ memory_of m
  with_disk-memory_of none m = refl
  with_disk-memory_of (some d) m = refl

  first_load-memory_of :
      (ws : List Text) (m : Metrics R) → memory_of (first_load fm ws m) ≡ memory_of m
  first_load-memory_of [] m = refl
  first_load-memory_of (w ∷ ws) m = refl

  with_load-memory_of :
      (l : Option Text) (m : Metrics R) → memory_of (with_load fm l m) ≡ memory_of m
  with_load-memory_of none m = refl
  with_load-memory_of (some text) m = first_load-memory_of (fields text) m

  memory_of-collect_metrics :
      (files : Files) (i : MemInfo)
      → read_mem_info files.mem_info ≡ some i
      → memory_of (collect_metrics fm files) ≡ memory_of (with_memory fm (some i) (no_metrics fm))
  unfolding collect_metrics
  memory_of-collect_metrics files i h =
      with_load-memory_of files.load_avg _
      ∙ with_disk-memory_of files.root_stat _
      ∙ ap (λ o. memory_of (with_memory fm o (no_metrics fm))) h

sub_uint-le : (a b : ℕ) → b ≤ a → a ≤ max_uint64 → sub_uint a b ≡ a - b
sub_uint-le a b h le = omega arith

-- For every memory of less than 2^64 kB that is not smaller than what is available, the agent reads
-- both numbers back from /proc/meminfo as the kernel prints it, wherever the two lines stand among
-- lines of other names. If the memory is not 0, the memory it reports is then total / 1024 MB, of which
-- (total - available) / 1024 MB are used, (total - available) / total * 100 percent.
pub collect_metrics-mem_info_file :
    {R : Type 0} (fm : FloatMath R) (files : Files) (before between behind : List Text)
    (b1 total b2 available : ℕ)
    → All IsOther before
    → All IsOther between
    → All IsOther behind
    → files.mem_info ≡ some (mem_info_file before b1 total between b2 available behind)
    → 0 < total
    → available ≤ total
    → total ≤ max_uint64
    → (read_mem_info files.mem_info ≡ some (record { total = total; available = available }))
      × ((collect_metrics fm files).mem_total_mb ≡ fm.div (fm.of_uint total) (fm.of_uint 1024))
      × ((collect_metrics fm files).mem_used_mb
          ≡ fm.div (fm.of_uint (total - available)) (fm.of_uint 1024))
      × ((collect_metrics fm files).mem_used_pct ≡ percent fm (total - available) total)
unfolding read_mem_info
collect_metrics-mem_info_file fm files before between behind b1 total b2 available h1 h2 h3 hf pos
      le ht =
    let i : MemInfo = record { total = total; available = available } in
    let read : read_mem_info files.mem_info ≡ some i =
      ap read_mem_info hf
      ∙ ap some (
          scan_mem_info-mem_info_file before between behind b1 total b2 available h1 h2 h3 ht
            (omega arith)) in
    let all = memory_of-collect_metrics fm files i read in
    let used = sub_uint-le total available le ht in
    (
      read,
      ap (λ p. p.0) all,
      ap (λ p. p.1) all ∙ ap (λ u. fm.div (fm.of_uint u) (fm.of_uint 1024)) used,
      ap (λ p. p.2) all ∙ rw (lt→ltb 0 total pos, used) refl,
    )
