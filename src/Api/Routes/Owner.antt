-- ===== src/Api/Routes/Owner.antt =====
-- Which runner handleVM asks for a hint.
use onfire.Prelude.{
  ℕ, ◌≡◌, refl, ◌⊎◌, inl, inr, [], ◌∷◌, Bool, true, false, ◌&&◌, none, some, Bool-cases,
  Option-cases, get_elem?, All, subst, suc, some_eq_some,
}
use onfire.Prelude.Int.{ℤ}
use onfire.Prelude.Text.{Text, codes, text_eq, cut, trim_prefix}
use onfire.Prelude.Dict.{Dict}
use onfire.Scenario.Floats.{FloatOps}
use onfire.Api.State.{ScenarioEntry, Server, message, respond}
use onfire.Api.Scenarios.{give_hint}
use onfire.Api.Routes.{Request, is_running, has_vm, find_owner, handle_vm}
use onfire.Prelude.Numerals.{atoi}

module _ {R : Type 0} (vm : ℤ) where
  -- The scenario runs, and the VM is one of its own.
  abbrev pub is_owner : Text × ScenarioEntry R → Bool
  is_owner (id, e) = is_running e.status && has_vm vm e.vms

  find_owner_sound :
      (m : Dict (ScenarioEntry R)) (kv : Text × ScenarioEntry R)
      → find_owner vm m ≡ some kv
      → (i : ℕ) × (get_elem? m i ≡ some kv) × (is_owner kv ≡ true)
  unfolding find_owner
  find_owner_sound [] kv h = cc
  find_owner_sound ((id, e) ∷ m) kv h = elim (Bool-cases (is_owner (id, e))) [
    | inl t ↦ (0, (rw t at h), subst (λ x. is_owner x ≡ true) (some_eq_some (rw t at h)) t)
    | inr f ↦ let (i, place, own) = find_owner_sound m kv (rw f at h) in (suc i, place, own)
  ]

  find_owner-none :
      (m : Dict (ScenarioEntry R)) → find_owner vm m ≡ none → All (λ kv. is_owner kv ≡ false) m
  unfolding find_owner
  find_owner-none [] h = tt
  find_owner-none ((id, e) ∷ m) h = elim (Bool-cases (is_owner (id, e))) [
    | inl t ↦ cc (rw t at h)
    | inr f ↦ (f, find_owner-none m (rw f at h))
  ]

-- For a POST to /api/v1/vms/{id}/hint with an id that Atoi reads: either the request has the effect
-- and the response of a hint to a scenario of the server that runs and has the VM; or no running
-- scenario has the VM, the response is 404, and the server is unchanged.
pub handle_vm-asks_owner :
    {R : Type 0} (fl : FloatOps R) (r : Request) (s : Server R) (id : Text) (vm : ℤ)
    → cut b'/' (trim_prefix r.path (codes "/api/v1/vms/")) ≡ (id, some (codes "hint"))
    → text_eq r.method (codes "POST") ≡ true
    → atoi id ≡ some vm
    → ((kv : Text × ScenarioEntry R) × (i : ℕ) × (get_elem? s.scenarios i ≡ some kv)
        × (is_owner vm kv ≡ true)
        × (handle_vm fl r s ≡ give_hint fl r.since_run kv.0 s kv.1 kv.1.runner))
      ⊎ (All (λ kv. is_owner vm kv ≡ false) s.scenarios
          × (handle_vm fl r s
              ≡ (s, respond 404 (message (codes "no running scenario owns this VM")))))
unfolding handle_vm
handle_vm-asks_owner {R} fl r s id vm path post number =
    elim (Option-cases (find_owner vm s.scenarios)) [
      | inl e ↦ inr (find_owner-none vm s.scenarios e, rw path (rw post (rw number (rw e refl))))
      | inr (kv, e) ↦
          let (i, place, own) = find_owner_sound vm s.scenarios kv e in
          inl (kv, i, place, own, rw path (rw post (rw number (rw e refl))))
    ]
