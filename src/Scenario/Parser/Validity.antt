-- ===== src/Scenario/Parser/Validity.antt =====
-- What a scenario satisfies that validate has accepted.
use onfire.Prelude.{
  All2, ℕ, ◌+◌, ◌≡◌, ◌≢◌, refl, List, [], ◌∷◌, false, ◌&&◌, ◌⊎◌, inl, inr, none, All, arith,
  Bool-cases, Option-cases, ok, Result-cases, ok_eq_ok, subst,
}
use onfire.Prelude.Int.{pos, ◌≤ℤ◌}
use onfire.Prelude.Text.{text_eq, text_eq_iff}
use onfire.Scenario.Floats.{FloatOps}
use onfire.Scenario.Types.{Tier, Fault, Scenario, default_scoring}
use onfire.Scenario.Parser.Filled.{IsFilled, HasDefaults, validate_tiers-All2, is_zero_iff}
use onfire.Scenario.Parser.{
  with_defaults, validate_tiers, validate_faults, apply_scoring, validate, is_zero, is_nil,
}

pub record IsValidTier (t : Tier) : Type 0 where
  pub named : t.name ≢ []
  pub counted : pos 1 ≤ℤ t.count
  pub vcpus_pos : pos 1 ≤ℤ t.vcpus
  pub mem_pos : pos 1 ≤ℤ t.mem_mb
  pub disk_nonneg : pos 0 ≤ℤ t.disk_mb

pub record IsValidFault (f : Fault) : Type 0 where
  pub has_id : f.id ≢ []
  pub has_target : (f.target.vm ≢ []) ⊎ (f.target.tier ≢ [])

with_defaults-IsValidTier : (t : Tier) → text_eq t.name [] ≡ false → IsValidTier (with_defaults t)
unfolding with_defaults
with_defaults-IsValidTier t h = ground (arith, text_eq_iff t.name [])

with_defaults_self : (t : Tier) → IsValidTier t → with_defaults t ≡ t
unfolding with_defaults
with_defaults_self t v = ground arith

validate_tiers-All : (i : ℕ) (ts us : List Tier) → validate_tiers i ts ≡ ok us → All IsValidTier us
unfolding validate_tiers
validate_tiers-All i [] us h = subst (All IsValidTier) (ok_eq_ok h) tt
validate_tiers-All i (t ∷ ts) us h = elim (Bool-cases (text_eq t.name [])) [
  | inl e ↦ cc (rw e at h)
  | inr e ↦ elim (Result-cases (validate_tiers (i + 1) ts)) [
    | inl (vs, f) ↦
        let same : with_defaults t ∷ vs ≡ us = ok_eq_ok (rw (e, f) at h) in
        subst (All IsValidTier) same
          (with_defaults-IsValidTier t e, validate_tiers-All (i + 1) ts vs f)
    | inr (x, f) ↦ cc (rw (e, f) at h)
  ]
]

validate_tiers_self : (i : ℕ) (ts : List Tier) → All IsValidTier ts → validate_tiers i ts ≡ ok ts
unfolding validate_tiers
validate_tiers_self i [] v = refl
validate_tiers_self i (t ∷ ts) v = ground (
  arith,
  v.0,
  text_eq_iff t.name [],
  validate_tiers_self (i + 1) ts v.1,
  with_defaults_self t v.0,
)

IsValidFault-of_tests :
    (f : Fault)
    → text_eq f.id [] ≡ false
    → (text_eq f.target.vm [] && text_eq f.target.tier []) ≡ false
    → IsValidFault f
IsValidFault-of_tests f h k = record {
  has_id = ground (arith, text_eq_iff f.id []);
  has_target = elim (Bool-cases (text_eq f.target.vm [])) [
    | inl e ↦ inr (ground (arith, text_eq_iff f.target.tier []))
    | inr e ↦ inl (ground (arith, text_eq_iff f.target.vm []))
  ];
}

tests_of_IsValidFault :
    (f : Fault)
    → IsValidFault f
    → (text_eq f.id [] ≡ false) × ((text_eq f.target.vm [] && text_eq f.target.tier []) ≡ false)
tests_of_IsValidFault f v = (
  ground (arith, v.has_id, text_eq_iff f.id []),
  elim v.has_target [
    | inl h ↦ ground (arith, h, text_eq_iff f.target.vm [])
    | inr h ↦ ground (arith, h, text_eq_iff f.target.tier [])
  ],
)

validate_faults-All : (fs : List Fault) → validate_faults fs ≡ none → All IsValidFault fs
unfolding validate_faults
validate_faults-All [] h = tt
validate_faults-All (f ∷ fs) h = elim (Bool-cases (text_eq f.id [])) [
  | inl e ↦ cc (rw e at h)
  | inr e ↦ elim (Bool-cases (text_eq f.target.vm [] && text_eq f.target.tier [])) [
    | inl k ↦ cc (rw (e, k) at h)
    | inr k ↦ (IsValidFault-of_tests f e k, validate_faults-All fs (rw (e, k) at h))
  ]
]

validate_faults_self : (fs : List Fault) → All IsValidFault fs → validate_faults fs ≡ none
unfolding validate_faults
validate_faults_self [] v = refl
validate_faults_self (f ∷ fs) v =
    let (e, k) = tests_of_IsValidFault f v.0 in rw e (rw k (validate_faults_self fs v.1))

validate_tiers-ne-nil :
    (i : ℕ) (ts us : List Tier) → is_nil ts ≡ false → validate_tiers i ts ≡ ok us → us ≢ []
unfolding validate_tiers
validate_tiers-ne-nil i [] us c h e = cc
validate_tiers-ne-nil i (t ∷ ts) us c h e = ground arith

module _ {R : Type 0} where
  pub record IsValidScenario (s : Scenario R) : Type 0 where
    pub has_id : s.info.id ≢ []
    pub has_title : s.info.title ≢ []
    pub has_tiers : s.environment.tiers ≢ []
    pub tiers_valid : All IsValidTier s.environment.tiers
    pub faults_valid : All IsValidFault s.faults
    pub scored : is_zero s.scoring.base ≡ false

  -- A document and the accepted one: only the missing numbers of the tiers are filled in, and the
  -- scoring where there is none.
  pub record HasSameContent (fl : FloatOps R) (s t : Scenario R) : Type 0 where
    pub same_extends : t.environment.extends ≡ s.environment.extends
    pub same_tiers : All2 IsFilled s.environment.tiers t.environment.tiers
    pub same_scoring :
        ((s.scoring.base ≢ pos 0) × (t.scoring ≡ s.scoring))
        ⊎ ((s.scoring.base ≡ pos 0) × HasDefaults fl t.scoring)
    pub same_info : t.info ≡ s.info
    pub same_faults : t.faults ≡ s.faults
    pub same_objectives : t.objectives ≡ s.objectives
    pub same_hints : t.hints ≡ s.hints
    pub same_signals : t.signals ≡ s.signals

module _ {R : Type 0} (fl : FloatOps R) where
  validate_self : (s : Scenario R) → IsValidScenario s → validate fl s ≡ ok s
  unfolding validate
  validate_self s v = ground (
    arith,
    text_eq_iff s.info.id [],
    text_eq_iff s.info.title [],
    validate_tiers_self 0 s.environment.tiers v.tiers_valid,
    validate_faults_self s.faults v.faults_valid,
  )

  -- The parts that a successful validate has passed through.
  validate_inversion :
      (s t : Scenario R)
      → validate fl s ≡ ok t
      → (ts : List Tier) × (text_eq s.info.id [] ≡ false)
        × (text_eq s.info.title [] ≡ false)
        × (is_nil s.environment.tiers ≡ false)
        × (validate_tiers 0 s.environment.tiers ≡ ok ts)
        × (validate_faults s.faults ≡ none)
        × (apply_scoring fl (record s { environment = record s.environment { tiers = ts } }) ≡ t)
  unfolding validate
  validate_inversion s t h = elim (Bool-cases (text_eq s.info.id [])) [
    | inl e ↦ cc (rw e at h)
    | inr a ↦ elim (Bool-cases (text_eq s.info.title [])) [
      | inl e ↦ cc (rw (a, e) at h)
      | inr b ↦ elim (Bool-cases (is_nil s.environment.tiers)) [
        | inl e ↦ cc (rw (a, b, e) at h)
        | inr c ↦ elim (Result-cases (validate_tiers 0 s.environment.tiers)) [
          | inr (x, e) ↦ cc (rw (a, b, c, e) at h)
          | inl (ts, d) ↦ elim (Option-cases (validate_faults s.faults)) [
            | inr (x, e) ↦ cc (rw (a, b, c, d, e) at h)
            | inl f ↦ (ts, a, b, c, d, f, ok_eq_ok (rw (a, b, c, d, f) at h))
          ]
        ]
      ]
    ]
  ]

  apply_scoring-IsValid :
      (s : Scenario R)
      → s.info.id ≢ []
      → s.info.title ≢ []
      → s.environment.tiers ≢ []
      → All IsValidTier s.environment.tiers
      → All IsValidFault s.faults
      → IsValidScenario (apply_scoring fl s)
  unfolding apply_scoring default_scoring
  apply_scoring-IsValid s a b c d f = elim (Bool-cases (is_zero s.scoring.base)) [
    | inl e ↦ rw e (record {
      has_id = a;
      has_title = b;
      has_tiers = c;
      tiers_valid = d;
      faults_valid = f;
      scored = refl;
    })
    | inr e ↦ rw e (record {
      has_id = a;
      has_title = b;
      has_tiers = c;
      tiers_valid = d;
      faults_valid = f;
      scored = e;
    })
  ]

  apply_scoring_content :
      (s : Scenario R) (ts : List Tier)
      → All2 IsFilled s.environment.tiers ts
      → HasSameContent fl s
          (apply_scoring fl (record s { environment = record s.environment { tiers = ts } }))
  unfolding apply_scoring default_scoring
  apply_scoring_content s ts filled = elim (Bool-cases (is_zero s.scoring.base)) [
    | inl z ↦ rw z (record {
      same_extends = refl;
      same_tiers = filled;
      same_scoring = inr ((is_zero_iff s.scoring.base).0 z, (refl, refl, refl, refl));
      same_info = refl;
      same_faults = refl;
      same_objectives = refl;
      same_hints = refl;
      same_signals = refl;
    })
    | inr z ↦ rw z (record {
      same_extends = refl;
      same_tiers = filled;
      same_scoring = inl ((λ e. cc (z, (is_zero_iff s.scoring.base).1 e)), refl);
      same_info = refl;
      same_faults = refl;
      same_objectives = refl;
      same_hints = refl;
      same_signals = refl;
    })
  ]

  -- A scenario that validate returns is valid: it has an ID, a title and at least one tier; every
  -- tier is named, with a positive count, vCPUs and memory and a disk size that is not negative;
  -- every fault has an ID and names a VM or a tier; and the base score is not zero. Each tier is
  -- the one that was given, but for a count, vCPUs or memory below 1, which become 1, 1 and 512, and a
  -- disk size below 0, which becomes 0; the scoring is the one that was given, or the default if its base
  -- was 0; the rest of the document is the same. Validating the result again returns it as it is.
  pub validate-IsValidScenario :
      (s t : Scenario R)
      → validate fl s ≡ ok t
      → IsValidScenario t × HasSameContent fl s t × (validate fl t ≡ ok t)
  validate-IsValidScenario s t h =
      let (ts, a, b, c, d, f, e) = validate_inversion s t h in
      let s' : Scenario R = record s { environment = record s.environment { tiers = ts } } in
      let valid : IsValidScenario t =
        subst (λ u. IsValidScenario u) e
          (apply_scoring-IsValid s' (ground (arith, text_eq_iff s.info.id []))
            (ground (arith, text_eq_iff s.info.title []))
            (validate_tiers-ne-nil 0 s.environment.tiers ts c d)
            (validate_tiers-All 0 s.environment.tiers ts d) (validate_faults-All s.faults f)) in
      (
        valid,
        subst (λ u. HasSameContent fl s u) e
            (apply_scoring_content s ts (validate_tiers-All2 0 s.environment.tiers ts d)),
        validate_self t valid,
      )
