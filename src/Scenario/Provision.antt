-- ===== src/Scenario/Provision.antt =====
-- provisionVM and provisionAll of scenario/runner.go, with runSSH. The SSH client is an argument: a
-- record of what the dials and the commands come to, for one VM.
pub mod Exact
use onfire.Prelude.{
  ℕ, zero, suc, ◌+◌, List, [], ◌∷◌, ◌++◌, Bool, Option, none, some, not, if◌then◌else◌,
}
use onfire.Prelude.Text.{Text, codes, text_eq}
use onfire.Scenario.Types.{Tier, VmEntry}
use onfire.Scenario.Packages.{service_packages}

-- `interrupted i` is whether the context is done in front of the dial i, `dials i` whether the dial
-- succeeds, `opens cmd` whether NewSession does for the command, and `outputs cmd` whether its
-- CombinedOutput does.
pub record Ssh : Type 0 where
  pub interrupted : ℕ → Bool
  pub dials : ℕ → Bool
  pub opens : Text → Bool
  pub outputs : Text → Bool

pub data SshError : Type 0 where
  no_session bad_exit : SshError

pub data ProvisionError : Type 0 where
  context_done connect_failed : ProvisionError
  command_failed : Text → SshError → ProvisionError

pub record Provisioned : Type 0 where
  pub ran : List Text
  pub error : Option ProvisionError

-- strings.Join(pkgs, " ")
abbrev pub join_spaced : List Text → Text
join_spaced [] = []
join_spaced (p ∷ []) = p
join_spaced (p ∷ q ∷ ps) = p ++ (b' ' ∷ join_spaced (q ∷ ps))

abbrev pub install_commands : List Text → List Text
install_commands [] = []
install_commands (p ∷ ps) =
    codes "apt-get update -qq"
    ∷ (codes "DEBIAN_FRONTEND=noninteractive apt-get install -y --no-install-recommends "
        ++ join_spaced (p ∷ ps))
    ∷ []

-- The commands of a VM, in their order.
unfoldable pub all_commands : List Text → List Text → List Text
unfolding service_packages
all_commands services setup = install_commands (service_packages services) ++ setup

abbrev pub failed_with : ProvisionError → Provisioned
failed_with e = record { ran = []; error = some e }

abbrev pub after_command : Text → Provisioned → Provisioned
after_command cmd p = record { ran = cmd ∷ p.ran; error = p.error }

module _ (ssh : Ssh) where
  unfoldable pub run_ssh : Text → Option SshError
  run_ssh cmd =
      if not (ssh.opens cmd)
      then some no_session
      else if not (ssh.outputs cmd)
      then some bad_exit
      else none

  abbrev pub next_command : Text → Option SshError → Provisioned → Provisioned
  next_command cmd none rest = after_command cmd rest
  next_command cmd (some e) rest = record { ran = cmd ∷ []; error = some (command_failed cmd e) }

  -- Each failure returns at once.
  unfoldable pub run_commands : List Text → Provisioned
  unfolding run_ssh
  run_commands [] = record { ran = []; error = none }
  run_commands (cmd ∷ cmds) = let rest = run_commands cmds in next_command cmd (run_ssh cmd) rest

  -- The loop over the dials, with those that are left.
  unfoldable pub connect : ℕ → ℕ → Option ProvisionError
  connect zero i = some connect_failed
  connect (suc left) i =
      let rest = connect left (i + 1) in
      if ssh.interrupted i then some context_done else if ssh.dials i then none else rest

  abbrev pub when_connected : Option ProvisionError → List Text → Provisioned
  when_connected (some e) cmds = failed_with e
  when_connected none cmds = run_commands cmds

  unfoldable pub provision_vm : List Text → List Text → Provisioned
  unfolding connect run_commands all_commands
  provision_vm services setup = when_connected (connect 15 0) (all_commands services setup)

-- The services and the setup of the first tier with the name, and none if there is no such tier.
unfoldable pub tier_setup : Text → List Tier → List Text × List Text
tier_setup name [] = ([], [])
tier_setup name (t ∷ ts) =
    let rest = tier_setup name ts in if text_eq t.name name then (t.services, t.setup) else rest

abbrev pub later_failure : Option ProvisionError → Option ProvisionError → Option ProvisionError
later_failure last none = last
later_failure last (some e) = some e

-- One goroutine for each VM; `vms` is in the order in which they put their errors in the channel.
unfoldable pub provision_all :
    (VmEntry → Ssh) → List Tier → List VmEntry → Option ProvisionError → Option ProvisionError
unfolding provision_vm tier_setup
provision_all ssh tiers [] last = last
provision_all ssh tiers (e ∷ vms) last =
    let (services, setup) = tier_setup e.tier tiers in
    provision_all ssh tiers vms (later_failure last (provision_vm (ssh e) services setup).error)
