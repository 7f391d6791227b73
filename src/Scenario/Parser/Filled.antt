-- ===== src/Scenario/Parser/Filled.antt =====
-- What validate fills in: the missing numbers of the tiers, and a missing scoring.
use onfire.Prelude.{
  All2, ◌↔◌, ◌⊎◌, inl, inr, true, if◌then◌else◌, ℕ, ◌+◌, ◌≡◌, refl, List, [], ◌∷◌, arith,
  Bool-cases, ok, Result-cases, ok_eq_ok, subst,
}
use onfire.Prelude.Int.{ℤ, pos, negsuc, ◌≤ℤ◌, ltb_ℤ}
use onfire.Prelude.Text.{codes, text_eq}
use onfire.Scenario.Floats.{FloatOps}
use onfire.Scenario.Types.{Tier, Scoring}
use onfire.Scenario.Parser.{with_defaults, validate_tiers, is_zero}

-- A number that has to be at least `least`: it is kept if it is, and is `d` otherwise.
abbrev pub IsKept : ℤ → ℤ → ℤ → ℤ → Type 0
IsKept least d a b = ((least ≤ℤ a) × (b ≡ a)) ⊎ ((ltb_ℤ a least ≡ true) × (b ≡ d))

-- A tier and the one with its missing numbers filled in: 1 VM, 1 vCPU, 512 MB, and the disk size 0.
pub record IsFilled (t u : Tier) : Type 0 where
  pub same_name : u.name ≡ t.name
  pub same_range : (u.count_min ≡ t.count_min) × (u.count_max ≡ t.count_max)
  pub same_services : u.services ≡ t.services
  pub same_setup : u.setup ≡ t.setup
  pub kept_count : IsKept (pos 1) (pos 1) t.count u.count
  pub kept_vcpus : IsKept (pos 1) (pos 1) t.vcpus u.vcpus
  pub kept_mem : IsKept (pos 1) (pos 512) t.mem_mb u.mem_mb
  pub kept_disk : IsKept (pos 0) (pos 0) t.disk_mb u.disk_mb

IsKept-of_test : (least d a : ℤ) → IsKept least d a (if ltb_ℤ a least then d else a)
IsKept-of_test least d a = elim (Bool-cases (ltb_ℤ a least)) [
  | inl t ↦ rw t (inr (refl, refl))
  | inr f ↦ rw f (inl (ground arith, refl))
]

with_defaults-IsFilled : (t : Tier) → IsFilled t (with_defaults t)
unfolding with_defaults
with_defaults-IsFilled t = record {
  same_name = refl;
  same_range = (refl, refl);
  same_services = refl;
  same_setup = refl;
  kept_count = IsKept-of_test (pos 1) (pos 1) t.count;
  kept_vcpus = IsKept-of_test (pos 1) (pos 1) t.vcpus;
  kept_mem = IsKept-of_test (pos 1) (pos 512) t.mem_mb;
  kept_disk = IsKept-of_test (pos 0) (pos 0) t.disk_mb;
}

pub validate_tiers-All2 :
    (i : ℕ) (ts us : List Tier) → validate_tiers i ts ≡ ok us → All2 IsFilled ts us
unfolding validate_tiers
validate_tiers-All2 i [] us h = subst (All2 IsFilled []) (ok_eq_ok h) tt
validate_tiers-All2 i (t ∷ ts) us h = elim (Bool-cases (text_eq t.name [])) [
  | inl e ↦ cc (rw e at h)
  | inr e ↦ elim (Result-cases (validate_tiers (i + 1) ts)) [
    | inl (vs, f) ↦
        let same : with_defaults t ∷ vs ≡ us = ok_eq_ok (rw (e, f) at h) in
        subst (All2 IsFilled (t ∷ ts)) same
          (with_defaults-IsFilled t, validate_tiers-All2 (i + 1) ts vs f)
    | inr (x, f) ↦ cc (rw (e, f) at h)
  ]
]

-- The scoring of a document that has none: 100 points, 0.05 for each second, 10 for each hint, and a
-- perfect window of five minutes.
abbrev pub HasDefaults : {R : Type 0} → FloatOps R → Scoring R → Type 0
HasDefaults fl s =
    (s.base ≡ pos 100)
    × (s.time_penalty_per_second ≡ fl.five_hundredths)
    × (s.hint_penalty ≡ pos 10)
    × (s.perfect_window ≡ codes "5m")

pub is_zero_iff : (a : ℤ) → (is_zero a ≡ true) ↔ (a ≡ pos 0)
is_zero_iff (pos n) = ground arith
is_zero_iff (negsuc n) = ((λ h. cc h), λ h. cc h)
