-- ===== src/Scenario/Run/Timers.antt =====
-- The timers of the faults: those that wait and those that have fired.
use onfire.Prelude.{
  ◌⊎◌, sym, some_eq_some, subst, ℕ, zero, suc, ◌+◌, ◌≤◌, ◌≡◌, refl, inl, inr, List, [], ◌∷◌, Bool,
  true, false, Option, some, get_elem?, contains, remove, contains-remove, arith, Bool-cases,
  if◌then◌else◌, ◌==◌, ==_iff,
}
use native.Mathlib.Nat.{zero-add}
use onfire.Prelude.Int.{ℤ}
use onfire.Prelude.Text.{Text}
use onfire.Scenario.Types.{Fault}
use onfire.Scenario.Run.{is_scheduled, schedule}

-- A list of positions with no repetition.
abbrev pub AreOnce : List ℕ → Type 0
AreOnce [] = Unit
AreOnce (i ∷ is) = (contains i is ≡ false) × AreOnce is

-- The fault at a position has a timer.
abbrev pub HasTimer : (Text → Option ℤ) → List Fault → ℕ → Type 0
HasTimer parse fs i = (f : Fault) × (get_elem? fs i ≡ some f) × (is_scheduled parse f ≡ true)

pub schedule_ge :
    (parse : Text → Option ℤ) (k i : ℕ) (fs : List Fault)
    → contains i (schedule parse k fs) ≡ true
    → k ≤ i
unfolding schedule
schedule_ge parse k i [] h = cc
schedule_ge parse k i (f ∷ fs) h = ground (arith, schedule_ge parse (k + 1) i fs)

too_small : (k : ℕ) → k + 1 ≤ k + 0 → ⊥
too_small k h = omega arith

moved_suc : (k j : ℕ) → k + 1 + j ≡ k + suc j
moved_suc k j = omega arith

pub schedule-HasTimer :
    (parse : Text → Option ℤ) (k j : ℕ) (fs : List Fault)
    → contains (k + j) (schedule parse k fs) ≡ true
    → HasTimer parse fs j
unfolding schedule
schedule-HasTimer parse k j [] h = cc
schedule-HasTimer parse k zero (f ∷ fs) h = elim (Bool-cases (is_scheduled parse f)) [
  | inl t ↦ (f, refl, t)
  | inr e ↦ absurd (too_small k (schedule_ge parse (k + 1) (k + 0) fs (rw e at h)))
]
schedule-HasTimer parse k (suc j) (f ∷ fs) h =
    schedule-HasTimer parse (k + 1) j fs (later (is_scheduled parse f) h)
  where
    later :
        (b : Bool)
        → contains
            (k + suc j)
            (if b then k ∷ schedule parse (k + 1) fs else schedule parse (k + 1) fs)
          ≡ true
        → contains (k + 1 + j) (schedule parse (k + 1) fs) ≡ true
    later true h' = ground arith
    later false h' = rw (moved_suc k j) h'

pub HasTimer-schedule :
    (parse : Text → Option ℤ) (k j : ℕ) (fs : List Fault)
    → HasTimer parse fs j
    → contains (k + j) (schedule parse k fs) ≡ true
unfolding schedule
HasTimer-schedule parse k j [] (g, e, t) = cc e
HasTimer-schedule parse k zero (f ∷ fs) (g, e, t) =
    let on : is_scheduled parse f ≡ true =
      subst (λ x. is_scheduled parse x ≡ true) (sym (some_eq_some e)) t in
    rw on (ground arith)
HasTimer-schedule parse k (suc j) (f ∷ fs) (g, e, t) =
    let later : contains (k + suc j) (schedule parse (k + 1) fs) ≡ true =
      subst (λ n. contains n (schedule parse (k + 1) fs) ≡ true) (moved_suc k j)
        (HasTimer-schedule parse (k + 1) j fs (g, e, t)) in
    elim (Bool-cases (is_scheduled parse f)) [
      | inl on ↦ rw on (ground (arith, later))
      | inr off ↦ rw off later
    ]

-- The faults that wait and those that were injected are among those with a timer; none is in both
-- lists, and none was injected twice. Each fault with a timer waits or was injected, until the context
-- is done.
pub record IsTimed (parse : Text → Option ℤ) (fs : List Fault) (waiting injected : List ℕ)
    (cancelled : Bool) : Type 0 where
  pub timers : (i : ℕ) → contains i waiting ≡ true → HasTimer parse fs i
  pub fired : (i : ℕ) → contains i injected ≡ true → HasTimer parse fs i
  pub apart : (i : ℕ) → contains i injected ≡ true → contains i waiting ≡ false
  pub once : AreOnce injected
  pub covered :
      (i : ℕ)
      → HasTimer parse fs i
      → (contains i waiting ≡ true) ⊎ (contains i injected ≡ true) ⊎ (cancelled ≡ true)

pub IsTimed-schedule :
    (parse : Text → Option ℤ) (fs : List Fault) → IsTimed parse fs (schedule parse 0 fs) [] false
IsTimed-schedule parse fs = record {
  timers = λ i h. schedule-HasTimer parse 0 i fs (rw zero-add h);
  fired = λ i h. cc;
  apart = λ i h. cc;
  once = tt;
  covered = λ i h. inl (rw (sym (zero-add i)) (HasTimer-schedule parse 0 i fs h));
}

pub IsTimed-move :
    (parse : Text → Option ℤ) (fs : List Fault) (waiting injected : List ℕ) (b : Bool) (i : ℕ)
    → contains i waiting ≡ true
    → IsTimed parse fs waiting injected b
    → IsTimed parse fs (remove i waiting) (i ∷ injected) b
IsTimed-move parse fs waiting injected b i t inv = record {
  timers = λ j h. inv.timers j (ground (arith, contains-remove i j waiting));
  fired = λ j h. elim (Bool-cases (i == j)) [
    | inl e ↦ inv.timers j (subst (λ k. contains k waiting ≡ true) ((==_iff i j).0 e) t)
    | inr e ↦ inv.fired j (ground arith)
  ];
  apart = λ j h. ground (arith, contains-remove i j waiting, inv.apart j);
  once = (ground (arith, inv.apart i), inv.once);
  covered = λ j h. ground (arith, contains-remove i j waiting, inv.covered j h);
}

pub IsTimed-cancel :
    (parse : Text → Option ℤ) (fs : List Fault) (waiting injected : List ℕ) (b : Bool)
    → IsTimed parse fs waiting injected b
    → IsTimed parse fs waiting injected true
IsTimed-cancel parse fs waiting injected b inv = record {
  timers = inv.timers;
  fired = inv.fired;
  apart = inv.apart;
  once = inv.once;
  covered = λ j h. inr (inr refl);
}

pub IsTimed-drop :
    (parse : Text → Option ℤ) (fs : List Fault) (waiting injected : List ℕ) (b : Bool) (i : ℕ)
    → IsTimed parse fs waiting injected b
    → IsTimed parse fs (remove i waiting) injected true
IsTimed-drop parse fs waiting injected b i inv = record {
  timers = λ j h. inv.timers j (ground (arith, contains-remove i j waiting));
  fired = inv.fired;
  apart = λ j h. ground (arith, contains-remove i j waiting, inv.apart j);
  once = inv.once;
  covered = λ j h. inr (inr refl);
}
