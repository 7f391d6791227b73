-- ===== src/Vm/Machine/Resources.antt =====
-- What New of vm/machine.go hands the SDK, and the log file that it opens.
use onfire.Prelude.{
  List, [], ◌∷◌, ◌++◌, Bool, false, Option, none, some, if◌then◌else◌, ◌≡◌, ◌≢◌, refl, ap, ◌∙◌,
  Bool-cases, inl, inr, ◌⊎◌,
}
use onfire.Prelude.Text.{Text, text_eq, text_eq_refl}
use onfire.Vm.Config.{Config, ConfigError, Host, validate}
use onfire.Vm.Machine.{
  streams_of, level_of, Action, socket_removed, log_created, log_closed, vmm_stopped, Sdk, Machine,
  Made, machine_config, new_machine, with_log, when_valid, new, stop,
}

abbrev without : Text → List Text → List Text
without p [] = []
without p (q ∷ qs) = let rest = without p qs in if text_eq p q then rest else q ∷ rest

-- The log files that are open after some actions.
abbrev pub open_logs : List Action → List Text → List Text
open_logs [] logs = logs
open_logs (log_created p ∷ actions) logs = open_logs actions (p ∷ logs)
open_logs (log_closed p ∷ actions) logs = open_logs actions (without p logs)
open_logs (socket_removed p ∷ actions) logs = open_logs actions logs
open_logs (vmm_stopped ∷ actions) logs = open_logs actions logs

abbrev pub accepts : Sdk → Config → Option Text → Bool
accepts sdk cfg log =
    sdk.machine cfg.firecracker_bin (streams_of log) (level_of sdk cfg.log_level)
      (machine_config sdk cfg)

abbrev pub log_of : Text → Option Text
log_of [] = none
log_of (c ∷ path) = some (c ∷ path)

-- What New fails for: the configuration, the log file, or the SDK.
abbrev pub IsRefused : Sdk → Config × Option ConfigError → Type 0
IsRefused sdk (cfg, e) =
    (e ≢ none)
    ⊎ ((sdk.creates cfg.log_path ≡ false) ⊎ (accepts sdk cfg (log_of cfg.log_path) ≡ false))

-- Either there is a machine and no error, or an error with its reason and no log file that is open.
abbrev pub IsMade : Sdk → Config × Option ConfigError → Made → Type 0
IsMade sdk checked made =
    ((m : Machine) × (made.machine ≡ some m)
      × (made.error ≡ none)
      × (checked.1 ≡ none)
      × (m.cfg ≡ checked.0)
      × (m.given ≡ machine_config sdk m.cfg)
      × (open_logs (made.actions ++ stop m) [] ≡ []))
    ⊎ ((made.machine ≡ none)
        × (made.error ≢ none)
        × (open_logs made.actions [] ≡ [])
        × IsRefused sdk checked)

new_machine-IsMade :
    (sdk : Sdk) (cfg : Config) (log : Option Text)
    → log_of cfg.log_path ≡ log
    → IsMade sdk (cfg, none) (new_machine sdk cfg log)
unfolding new_machine stop
new_machine-IsMade sdk cfg none h = elim (Bool-cases (accepts sdk cfg none)) [
  | inl t ↦ simp t (inl (_, refl, refl, refl, refl, refl, refl))
  | inr f ↦ simp f (inr (refl, (λ e. cc e), refl, inr (inr (ap (accepts sdk cfg) h ∙ f))))
]
new_machine-IsMade sdk cfg (some path) h = elim (Bool-cases (accepts sdk cfg (some path))) [
  | inl t ↦ simp t (inl (_, refl, refl, refl, refl, refl, rw (text_eq_refl path) refl))
  | inr f ↦
      simp f (
        inr
          (refl, (λ e. cc e), rw (text_eq_refl path) refl, inr (inr (ap (accepts sdk cfg) h ∙ f))))
]

with_log-IsMade :
    (sdk : Sdk) (cfg : Config) (path : Text)
    → cfg.log_path ≡ path
    → IsMade sdk (cfg, none) (with_log sdk cfg path)
with_log-IsMade sdk cfg [] h = new_machine-IsMade sdk cfg none (ap log_of h)
with_log-IsMade sdk cfg (c ∷ path) h = elim (Bool-cases (sdk.creates (c ∷ path))) [
  | inl t ↦ rw t (new_machine-IsMade sdk cfg (some (c ∷ path)) (ap log_of h))
  | inr f ↦ rw f (inr (refl, (λ e. cc e), refl, inr (inl (ap sdk.creates h ∙ f))))
]

when_valid-IsMade :
    (sdk : Sdk) (checked : Config × Option ConfigError)
    → IsMade sdk checked (when_valid sdk checked)
when_valid-IsMade sdk (cfg, some e) = inr (refl, (λ e. cc e), refl, inl (λ e. cc e))
when_valid-IsMade sdk (cfg, none) = with_log-IsMade sdk cfg cfg.log_path refl

-- New returns a machine or an error. A machine means that the configuration is valid, and the machine
-- has it with the binary that Validate has found, and what the SDK was given is made of it; after a Stop
-- no log file is open. With an error no log file is open either, and the configuration is not valid,
-- its log file cannot be created, or the SDK refuses it.
pub new-IsMade :
    (sdk : Sdk) (host : Host) (cfg : Config) → IsMade sdk (validate host cfg) (new sdk host cfg)
unfolding new
new-IsMade sdk host cfg = when_valid-IsMade sdk (validate host cfg)
