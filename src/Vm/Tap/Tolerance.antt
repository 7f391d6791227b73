-- ===== src/Vm/Tap/Tolerance.antt =====
-- When EnsureTAP succeeds.
use onfire.Prelude.{
  ℕ, ◌≡◌, ◌↔◌, ◌⊎◌, inl, inr, refl, List, [], ◌∷◌, true, false, Option, none, some, All, Bool-cases,
  Option-cases,
}
use onfire.Prelude.Text.{Text}
use onfire.Vm.Tap.{
  Command, is_already_exists, masquerade, setup_commands, add_rule, go_on, run_setup, ensure_tap,
}

module _ (run : Command → Option Text) where
  -- The command succeeds, or fails because what it makes exists.
  abbrev pub IsTolerated : Command → Type 0
  IsTolerated c =
      (run c ≡ none) ⊎ ((msg : Text) × (run c ≡ some msg) × (is_already_exists msg ≡ true))

  abbrev pub HasRule : Type 0
  HasRule = (run (masquerade "-C") ≡ none) ⊎ (run (masquerade "-A") ≡ none)

  add_rule_iff : ((add_rule run (run (masquerade "-C"))).error ≡ none) ↔ HasRule
  add_rule_iff = elim (Option-cases (run (masquerade "-C"))) [
    | inl e ↦ rw e ((λ h. inl refl), λ a. refl)
    | inr (out, e) ↦ elim (Option-cases (run (masquerade "-A"))) [
      | inl f ↦ rw e (rw (f, add_rule) ((λ h. inr refl), λ a. refl))
      | inr (out', f) ↦ rw e (rw (f, add_rule) ((λ h. cc), neither))
    ]
  ]
    where
      neither : {a b : Text} {P : Type 0} → (some a ≡ none) ⊎ (some b ≡ none) → P
      neither (inl x) = cc
      neither (inr x) = cc

  run_setup_iff :
      (cs : List Command) → ((run_setup run cs).error ≡ none) ↔ (All IsTolerated cs × HasRule)
  unfolding run_setup
  run_setup_iff [] = ((λ h. (tt, add_rule_iff.0 h)), λ a. add_rule_iff.1 a.1)
  run_setup_iff (c ∷ cs) = go (run c) refl (run_setup_iff cs)
    where
      go :
          (o : Option Text)
          → run c ≡ o
          → (((run_setup run cs).error ≡ none) ↔ (All IsTolerated cs × HasRule))
          → ((go_on run c o (run_setup run cs)).error ≡ none)
            ↔ ((IsTolerated c × All IsTolerated cs) × HasRule)
      go none e (l, r) = ((λ h. let (a, b) = l h in ((inl e, a), b)), λ p. r (p.0.1, p.1))
      go (some msg) e (l, r) = elim (Bool-cases (is_already_exists msg)) [
        | inl t ↦ rw t ((λ h. let (a, b) = l h in ((inr (msg, e, t), a), b)), λ p. r (p.0.1, p.1))
        | inr f ↦ rw f ((λ h. cc), λ p. absurd (refused f p.0.0))
      ]
        where
          refused : is_already_exists msg ≡ false → IsTolerated c → ⊥
          refused f (inl x) = cc
          refused f (inr (m, x, y)) = cc

  -- Whatever the commands of the host answer: EnsureTAP returns nil exactly when each of its four set-up
  -- commands succeeds or fails with an output that says that the thing exists, and the MASQUERADE
  -- rule is found or added.
  pub ensure_tap_iff :
      (id : ℕ)
      → ((ensure_tap run id).error ≡ none) ↔ (All IsTolerated (setup_commands id) × HasRule)
  unfolding ensure_tap
  ensure_tap_iff id = run_setup_iff (setup_commands id)
