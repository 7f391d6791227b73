-- ===== src/Scenario/Provision/Exact.antt =====
-- When provisioning a VM succeeds, and how often it dials.
use onfire.Prelude.{
  ℕ, zero, suc, ◌+◌, ◌≡◌, ◌↔◌, refl, List, [], ◌∷◌, true, false, Option, none, some, All, ap,
  Bool-cases, inl, inr, ◌⊎◌,
}
use onfire.Prelude.Text.{Text}
use onfire.Scenario.Provision.{
  Ssh, SshError, no_session, bad_exit, ProvisionError, run_ssh, all_commands, run_commands, connect,
  when_connected, provision_vm,
}

module _ (ssh : Ssh) where
  -- From dial i on, the first `left` dials reach one that succeeds before the context is done.
  abbrev pub IsReachable : ℕ → ℕ → Type 0
  IsReachable zero i = ⊥
  IsReachable (suc left) i =
      (ssh.interrupted i ≡ false) × ((ssh.dials i ≡ true) ⊎ IsReachable left (i + 1))

  connect_iff : (left i : ℕ) → (connect ssh left i ≡ none) ↔ IsReachable left i
  unfolding connect
  connect_iff zero i = ((λ h. cc), λ r. absurd r)
  connect_iff (suc left) i =
      let (there, back) = connect_iff left (i + 1) in
      elim (Bool-cases (ssh.interrupted i)) [
        | inl t ↦ rw t ((λ h. cc), λ r. cc)
        | inr f ↦ elim (Bool-cases (ssh.dials i)) [
          | inl d ↦ rw f (rw d ((λ h. (refl, inl refl)), λ r. refl))
          | inr d ↦ rw f (rw d ((λ h. (refl, inr (there h))), λ r. back (next r.1)))
        ]
      ]
    where
      next : {P : Type 0} → (false ≡ true) ⊎ P → P
      next (inl e) = cc
      next (inr p) = p

  -- The session of the command opens, and the command exits with 0.
  abbrev pub Succeeds : Text → Type 0
  Succeeds cmd = (ssh.opens cmd ≡ true) × (ssh.outputs cmd ≡ true)

  run_ssh_cases :
      (cmd : Text)
      → ((run_ssh ssh cmd ≡ none) × Succeeds cmd)
        ⊎ ((e : SshError) × (run_ssh ssh cmd ≡ some e) × (Succeeds cmd → ⊥))
  unfolding run_ssh
  run_ssh_cases cmd = elim (Bool-cases (ssh.opens cmd)) [
    | inr f ↦ rw f (inr (no_session, refl, λ s. cc s.0))
    | inl t ↦ elim (Bool-cases (ssh.outputs cmd)) [
      | inr f ↦ rw (t, f) (inr (bad_exit, refl, λ s. cc s.1))
      | inl o ↦ rw (t, o) (inl (refl, (refl, refl)))
    ]
  ]

  run_commands_iff : (cmds : List Text) → ((run_commands ssh cmds).error ≡ none) ↔ All Succeeds cmds
  unfolding run_commands
  run_commands_iff [] = ((λ h. tt), λ a. refl)
  run_commands_iff (c ∷ cmds) =
      let (there, back) = run_commands_iff cmds in
      elim (run_ssh_cases c) [
        | inl (t, s) ↦ rw t ((λ h. (s, there h)), λ a. back a.1)
        | inr (e, f, fails) ↦ rw f ((λ h. cc), λ a. absurd (fails a.0))
      ]

  run_commands_all :
      (cmds : List Text) → (run_commands ssh cmds).error ≡ none → (run_commands ssh cmds).ran ≡ cmds
  unfolding run_commands
  run_commands_all [] h = refl
  run_commands_all (c ∷ cmds) h = elim (run_ssh_cases c) [
    | inl (t, s) ↦ rw t (ap (λ cs. c ∷ cs) (run_commands_all cmds (rw t at h)))
    | inr (e, f, fails) ↦ cc (rw f at h)
  ]

  -- For every SSH client, list of services and list of setup commands: provisionVM returns nil exactly
  -- when one of its first 15 dials succeeds, with no failure but of dials before it and the context
  -- not done up to it, and for each command of the installation and the setup its session opens and it
  -- exits with 0; and then all of these commands, and no others, have been run, in their order.
  pub provision_vm_iff :
      (services setup : List Text)
      → ((provision_vm ssh services setup).error ≡ none) ↔ (
          ((provision_vm ssh services setup).ran ≡ all_commands services setup)
          × IsReachable 15 0
          × All Succeeds (all_commands services setup))
  unfolding provision_vm
  provision_vm_iff services setup = go (connect ssh 15 0) refl
    where
      go :
          (o : Option ProvisionError)
          → connect ssh 15 0 ≡ o
          → ((when_connected ssh o (all_commands services setup)).error ≡ none) ↔ (
              ((when_connected ssh o (all_commands services setup)).ran
                ≡ all_commands services setup)
              × IsReachable 15 0
              × All Succeeds (all_commands services setup))
      go none e =
          let (there, back) = run_commands_iff (all_commands services setup) in
          ((λ h. (run_commands_all _ h, (connect_iff 15 0).0 e, there h)), λ a. back a.2)
      go (some x) e = ((λ h. cc), λ a. cc ((connect_iff 15 0).1 a.1, e))
