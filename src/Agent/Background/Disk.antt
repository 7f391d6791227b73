-- ===== src/Agent/Background/Disk.antt =====
-- When the disk fault ends, and what it leaves: runDiskFault of agent/faults.go.
use onfire.Prelude.{
  ℕ, ◌+◌, ap, ◌∙◌, List, [], ◌∷◌, Bool, true, false, ◌||◌, not, some, ◌≡◌, refl, ◌↔◌, if◌then◌else◌,
  Bool-cases, inl, inr, arith,
}
use onfire.Agent.Commands.{Params, param_or}
use onfire.Prelude.Text.{Text, codes}
use onfire.Agent.Background.{
  DiskRound, DiskMode, filling, polling, ended, DiskRun, end_disk, disk_rounds, run_disk_fault,
}

-- Whether a round sees the context done or the file gone.
abbrev pub is_last : DiskRound → Bool
is_last r = r.is_cancelled || r.is_gone

abbrev pub any_last : List DiskRound → Bool
any_last [] = false
any_last (r ∷ rs) = is_last r || any_last rs

-- The writes that succeed before the first one that fails and before the last round.
abbrev pub leading_writes : List DiskRound → ℕ
leading_writes [] = 0
leading_writes (r ∷ rs) =
    let rest = leading_writes rs in if is_last r || not r.writes then 0 else rest + 1

-- Whether the loop ends, and if not, in which of its two states it is.
abbrev pub mode_after : List DiskRound → DiskMode
mode_after [] = filling
mode_after (r ∷ rs) =
    let rest = mode_after rs in
    if is_last r then ended else if r.writes then rest else if any_last rs then ended else polling

abbrev live_run : Text → DiskMode → ℕ → DiskRun
live_run path mode n = record {
  path = path;
  mode = mode;
  written = n;
  is_open = true;
  removed = false;
}

abbrev pub run_of : Text → DiskMode → ℕ → Bool → DiskRun
run_of path mode n last = record {
  path = path;
  mode = mode;
  written = n;
  is_open = not last;
  removed = last;
}

disk_rounds-end_disk :
    (rs : List DiskRound) (s : DiskRun) → disk_rounds rs (end_disk s) ≡ end_disk s
unfolding disk_rounds
disk_rounds-end_disk [] s = refl
disk_rounds-end_disk (r ∷ rs) s = disk_rounds-end_disk rs s

disk_rounds-polling :
    (rs : List DiskRound) (path : Text) (n : ℕ)
    → disk_rounds rs (live_run path polling n)
      ≡ run_of path (if any_last rs then ended else polling) n (any_last rs)
unfolding disk_rounds
disk_rounds-polling [] path n = refl
disk_rounds-polling (r ∷ rs) path n = elim (Bool-cases (is_last r)) [
  | inl t ↦ rw t (disk_rounds-end_disk rs (live_run path polling n))
  | inr f ↦ rw f (disk_rounds-polling rs path n)
]

disk_rounds-filling :
    (rs : List DiskRound) (path : Text) (n : ℕ)
    → disk_rounds rs (live_run path filling n)
      ≡ run_of path (mode_after rs) (n + leading_writes rs) (any_last rs)
unfolding disk_rounds
disk_rounds-filling [] path n = ap (λ k. live_run path filling k) (omega arith)
disk_rounds-filling (r ∷ rs) path n = elim (Bool-cases (is_last r)) [
  | inl t ↦ rw t (
      disk_rounds-end_disk rs (live_run path filling n)
      ∙ ap (λ k. run_of path ended k true) (omega arith))
  | inr f ↦ elim (Bool-cases r.writes) [
    | inl w ↦
        rw (f, w)
          (disk_rounds-filling rs path (n + 1)
            ∙ ap (λ k. run_of path (mode_after rs) k (any_last rs)) (omega arith))
    | inr g ↦
        rw (f, g)
          (disk_rounds-polling rs path n
            ∙ ap (λ k. run_of path (if any_last rs then ended else polling) k (any_last rs))
                (omega arith))
  ]
]

mode_after_iff : (rs : List DiskRound) → (mode_after rs ≡ ended) ↔ (any_last rs ≡ true)
mode_after_iff [] = ground arith
mode_after_iff (r ∷ rs) = ground (arith, mode_after_iff rs)

-- Where its file is created, the disk fault ends if and only if some round of its loop sees the context
-- done or the file gone. It then has closed the file and removed it, and until then it holds the file
-- open. It has written as many MB as rounds before that one, and before the first write that fails,
-- wrote one.
pub run_disk_fault_iff :
    (join : Text → Text → Text) (params : Params) (rounds : List DiskRound)
    → (s : DiskRun) × (run_disk_fault join true params rounds ≡ some s)
      × ((s.mode ≡ ended) ↔ (any_last rounds ≡ true))
      × (s.is_open ≡ not (any_last rounds))
      × (s.removed ≡ any_last rounds)
      × (s.written ≡ leading_writes rounds)
unfolding run_disk_fault
run_disk_fault_iff join params rounds =
    let path = join (param_or params (codes "path") (codes "/")) (codes ".onfire-diskfill") in
    (
      run_of path (mode_after rounds) (0 + leading_writes rounds) (any_last rounds),
      ap some (disk_rounds-filling rounds path 0),
      mode_after_iff rounds,
      refl,
      refl,
      omega arith,
    )
