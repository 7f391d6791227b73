-- ===== src/Scenario/Objectives/Healthy/Checks.antt =====
-- The switch of checkObjective and evalCondition of scenario/runner.go do what a check asks of a VM.
use onfire.Prelude.{
  ◌≡◌, ◌≢◌, ◌↔◌, ◌⊎◌, refl, inl, inr, List, [], ◌∷◌, ◌++◌, Bool, true, false, some, arith,
  Bool-cases, Option-cases, some_eq_some, subst, sym, ap, ◌∙◌, ==_iff, ◌==◌,
}
use onfire.Prelude.Int.{ℤ, pos, negsuc}
use onfire.Prelude.Text.{Text, codes, text_eq, text_eq_iff, decimal, trim_space}
use onfire.Scenario.Floats.{FloatOps}
use onfire.Scenario.Types.{ObjectiveCheck, VmEntry, agent_url}
use onfire.Scenario.Condition.{
  AgentMetrics, metric_value, normal_condition, compare_with, eval_value, eval_condition,
}
use onfire.Scenario.Objectives.{
  Network, AgentService, http_url, wanted_status, int_eq, status_ok, metrics_ok, is_active,
  service_ok, fetch_metrics, fetch_services, check_vm,
}
use onfire.Scenario.Objectives.Healthy.{
  IsMetric, cpu, memory, disk, free, load, Runs, Satisfies, IsUp, IsWithin, IsServing, IsHealthy,
}

int_eq_iff : (a b : ℤ) → (int_eq a b ≡ true) ↔ (a ≡ b)
int_eq_iff (pos a) (pos b) = ground (arith, ==_iff a b)
int_eq_iff (negsuc a) (negsuc b) = ground (arith, ==_iff a b)
int_eq_iff (pos a) (negsuc b) = ((λ h. cc h), λ h. cc h)
int_eq_iff (negsuc a) (pos b) = ((λ h. cc h), λ h. cc h)

abbrev IsWanted : ℤ → ℤ → Type 0
IsWanted expected code =
    ((expected ≡ pos 0) × (code ≡ pos 200)) ⊎ ((expected ≢ pos 0) × (code ≡ expected))

IsWanted-iff : (expected code : ℤ) → (code ≡ wanted_status expected) ↔ IsWanted expected code
IsWanted-iff (negsuc n) code = ((λ h. inr ((λ e. cc e), h)), go)
  where
    go : IsWanted (negsuc n) code → code ≡ negsuc n
    go (inl (e, h)) = cc e
    go (inr (e, h)) = h
IsWanted-iff (pos n) code = elim (Bool-cases (n == 0)) [
  | inl t ↦ rw t ((λ h. inl (ap pos ((==_iff n 0).0 t), h)), λ w. zero_wanted ((==_iff n 0).0 t) w)
  | inr f ↦ rw f ((λ h. inr ((λ e. nonzero f e), h)), λ w. kept_wanted f w)
]
  where
    nonzero : (n == 0) ≡ false → pos n ≡ pos 0 → ⊥
    nonzero f e = ground (arith, ==_iff n 0)

    zero_wanted : n ≡ 0 → IsWanted (pos n) code → code ≡ pos 200
    zero_wanted z (inl (e, h)) = h
    zero_wanted z (inr (e, h)) = absurd (e (ap pos z))

    kept_wanted : (n == 0) ≡ false → IsWanted (pos n) code → code ≡ pos n
    kept_wanted f (inl (e, h)) = absurd (nonzero f e)
    kept_wanted f (inr (e, h)) = h

metric_value-IsMetric :
    {R : Type 0} (m : AgentMetrics R) (name : Text) (v : R)
    → metric_value m name ≡ some v
    → IsMetric m name v
unfolding metric_value
metric_value-IsMetric {R} m name v h = elim (Bool-cases (text_eq name (codes "cpu_pct"))) [
  | inl t ↦ at_name (codes "cpu_pct") m.cpu_pct t (some_eq_some (rw t at h)) cpu
  | inr a ↦ elim (Bool-cases (text_eq name (codes "mem_used_pct"))) [
    | inl t ↦ at_name (codes "mem_used_pct") m.mem_used_pct t (some_eq_some (rw (a, t) at h)) memory
    | inr b ↦ elim (Bool-cases (text_eq name (codes "disk_used_pct"))) [
      | inl t ↦
          at_name (codes "disk_used_pct") m.disk_used_pct t (some_eq_some (rw (a, b, t) at h)) disk
      | inr c ↦ elim (Bool-cases (text_eq name (codes "disk_free_mb"))) [
        | inl t ↦
            at_name (codes "disk_free_mb") m.disk_free_mb t (some_eq_some (rw (a, b, c, t) at h))
              free
        | inr d ↦ elim (Bool-cases (text_eq name (codes "load_avg_1"))) [
          | inl t ↦
              at_name (codes "load_avg_1") m.load_avg_1 t (some_eq_some (rw (a, b, c, d, t) at h))
                load
          | inr g ↦ cc (rw (a, b, c, d, g) at h)
        ]
      ]
    ]
  ]
]
  where
    at_name :
        (known : Text) (w : R)
        → text_eq name known ≡ true
        → w ≡ v
        → IsMetric m known w
        → IsMetric m name v
    at_name known w t same i =
        subst (λ n. IsMetric m n v) (sym ((text_eq_iff name known).0 t))
          (subst (IsMetric m known) same i)

IsMetric-metric_value :
    {R : Type 0} (m : AgentMetrics R) (name : Text) (v : R)
    → IsMetric m name v
    → metric_value m name ≡ some v
unfolding metric_value
IsMetric-metric_value m _ _ cpu = refl
IsMetric-metric_value m _ _ memory = refl
IsMetric-metric_value m _ _ disk = refl
IsMetric-metric_value m _ _ free = refl
IsMetric-metric_value m _ _ load = refl

is_active_iff :
    (service : Text) (svcs : List AgentService)
    → (is_active service svcs ≡ true) ↔ Runs service svcs
unfolding is_active
is_active_iff service [] = ((λ h. cc h), λ r. absurd r)
is_active_iff service (svc ∷ svcs) =
    let (there, back) = is_active_iff service svcs in
    elim (Bool-cases (text_eq svc.name service)) [
      | inl t ↦ elim (Bool-cases svc.active) [
        | inl u ↦ rw (t, u) ((λ h. inl ((text_eq_iff svc.name service).0 t, refl)), λ r. refl)
        | inr u ↦ rw (t, u) ((λ h. inr (there h)), λ r. back (idle r))
      ]
      | inr f ↦ rw f ((λ h. inr (there h)), λ r. back (other f r))
    ]
  where
    idle : ((svc.name ≡ service) × (false ≡ true)) ⊎ Runs service svcs → Runs service svcs
    idle (inl (e, h)) = cc h
    idle (inr r) = r

    other :
        text_eq svc.name service ≡ false
        → ((svc.name ≡ service) × (svc.active ≡ true)) ⊎ Runs service svcs
        → Runs service svcs
    other f (inl (e, h)) = cc (f, (text_eq_iff svc.name service).1 e)
    other f (inr r) = r

module _ {R : Type 0} (fl : FloatOps R) (v : R) where
  -- The two signs, and the number behind them.
  abbrev Compares : Text → Type 0
  Compares s =
      (rest : Text) × (limit : R) × (fl.parse (trim_space rest) ≡ some limit)
      × (((s ≡ b'<' ∷ rest) × (fl.lt v limit ≡ true))
          ⊎ ((s ≡ b'>' ∷ rest) × (fl.lt limit v ≡ true)))

  compared : (s : Text) → compare_with fl v s ≡ true → Compares s
  unfolding compare_with
  compared [] h = cc h
  compared (c ∷ rest) h = elim (Bool-cases (c == b'<')) [
    | inl t ↦ elim (Option-cases (fl.parse (trim_space rest))) [
      | inl p ↦ cc (rw (t, p) at h)
      | inr (limit, p) ↦
          (rest, limit, p, inl (ap (λ x. x ∷ rest) ((==_iff c b'<').0 t), rw (t, p) at h))
    ]
    | inr f ↦ elim (Bool-cases (c == b'>')) [
      | inr g ↦ cc (rw (f, g) at h)
      | inl t ↦ elim (Option-cases (fl.parse (trim_space rest))) [
        | inl p ↦ cc (rw (f, t, p) at h)
        | inr (limit, p) ↦
            (rest, limit, p, inr (ap (λ x. x ∷ rest) ((==_iff c b'>').0 t), rw (f, t, p) at h))
      ]
    ]
  ]

  compares : (s : Text) → Compares s → compare_with fl v s ≡ true
  unfolding compare_with
  compares s (rest, limit, p, inl (e, h)) = rw e (rw p h)
  compares s (rest, limit, p, inr (e, h)) = rw e (rw p h)

module _ {R : Type 0} (fl : FloatOps R) (net : Network R) (check : ObjectiveCheck)
    (e : VmEntry) where
  up_iff :
      (status_ok check.expected_status (net.get_status (http_url e check.path)) ≡ true)
      ↔ IsUp fl net check e
  unfolding http_url
  up_iff =
      elim (Option-cases (
        net.get_status
          (codes "http://172.16." ++ (decimal e.index ++ (codes ".2" ++ check.path))))) [
            | inl n ↦ rw n ((λ h. cc h), λ (code, h, w). cc h)
            | inr (code, s) ↦ rw s (
              (λ h.
                  let same = (int_eq_iff code (wanted_status check.expected_status)).0 h in
                  (code, refl, (IsWanted-iff check.expected_status code).0 same)),
              λ (code', h, w).
                  let same = (IsWanted-iff check.expected_status code').1 w in
                  (int_eq_iff code (wanted_status check.expected_status)).1 (some_eq_some h ∙ same),
            )
          ]

  within_iff :
      (metrics_ok fl net check.metric check.condition (fetch_metrics fl net e) ≡ true)
      ↔ IsWithin fl net check e
  unfolding fetch_metrics eval_condition normal_condition
  within_iff = elim (Option-cases (net.get_metrics (agent_url e ++ codes "/metrics"))) [
    | inl n ↦ rw n ((λ h. cc h), λ (m, v, h, i, s). cc h)
    | inr (m, g) ↦ rw g ((λ h. there m h), λ (m', v, h, i, s). back m m' v (some_eq_some h) i s)
  ]
    where
      there :
          (m : AgentMetrics R)
          → eval_condition fl m check.metric check.condition ≡ true
          → (m' : AgentMetrics R) × (v : R) × (some m ≡ some m')
            × IsMetric m' check.metric v
            × Satisfies fl v check.condition
      there m h = elim (Option-cases (metric_value m check.metric)) [
        | inl n ↦ cc (rw n at h)
        | inr (v, w) ↦
            (m, v, refl, metric_value-IsMetric m check.metric v w, compared fl v _ (rw w at h))
      ]

      back :
          (m m' : AgentMetrics R) (v : R)
          → m ≡ m'
          → IsMetric m' check.metric v
          → Satisfies fl v check.condition
          → eval_condition fl m check.metric check.condition ≡ true
      back m m' v same i s =
          ap (λ x. eval_condition fl x check.metric check.condition) same
          ∙ ap (eval_value fl check.condition) (IsMetric-metric_value m' check.metric v i)
          ∙ compares fl v _ s

  serving_iff :
      (service_ok check.service (fetch_services fl net e) ≡ true) ↔ IsServing fl net check e
  unfolding fetch_services
  serving_iff = elim (Option-cases (net.get_services (agent_url e ++ codes "/services"))) [
    | inl n ↦ rw n ((λ h. cc h), λ (svcs, h, r). cc h)
    | inr (svcs, g) ↦
        let (there, back) = is_active_iff check.service svcs in
        rw g (
          (λ h. (svcs, refl, there h)),
          λ (svcs', h, r). back (subst (Runs check.service) (sym (some_eq_some h)) r),
        )
  ]

  abbrev has_type : Text → Bool
  has_type t = text_eq check.check_type t

  is_type : (t : Text) → has_type t ≡ true → check.check_type ≡ t
  is_type t h = (text_eq_iff check.check_type t).0 h

  not_type : (t : Text) → has_type t ≡ false → check.check_type ≢ t
  not_type t h e = cc (h, (text_eq_iff check.check_type t).1 e)

  pub check_vm_healthy : check_vm fl net check e ≡ true → IsHealthy fl net check e
  unfolding check_vm
  check_vm_healthy h = elim (Bool-cases (has_type (codes "http"))) [
    | inl t ↦ inl (is_type (codes "http") t, up_iff.0 (rw t at h))
    | inr a ↦ elim (Bool-cases (has_type (codes "agent-metric"))) [
      | inl t ↦ inr (inl (is_type (codes "agent-metric") t, within_iff.0 (rw (a, t) at h)))
      | inr b ↦ elim (Bool-cases (has_type (codes "process-running"))) [
        | inl t ↦
            inr (inr (inl (is_type (codes "process-running") t, serving_iff.0 (rw (a, b, t) at h))))
        | inr c ↦ inr (
            inr (
              inr (
                not_type (codes "http") a,
                not_type (codes "agent-metric") b,
                not_type (codes "process-running") c,
              )))
      ]
    ]
  ]

  off : (t : Text) → check.check_type ≢ t → has_type t ≡ false
  off t ne = elim (Bool-cases (has_type t)) [ inl h ↦ absurd (ne (is_type t h)) | inr h ↦ h ]

  pub healthy_check_vm : IsHealthy fl net check e → check_vm fl net check e ≡ true
  unfolding check_vm
  healthy_check_vm (inl (t, u)) = rw t (up_iff.1 u)
  healthy_check_vm (inr (inl (t, u))) = rw t (within_iff.1 u)
  healthy_check_vm (inr (inr (inl (t, u)))) = rw t (serving_iff.1 u)
  healthy_check_vm (inr (inr (inr (a, b, c)))) =
      rw (off (codes "http") a, off (codes "agent-metric") b, off (codes "process-running") c) refl
