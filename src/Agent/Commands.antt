-- ===== src/Agent/Commands.antt =====
-- runNetworkFault, runProcessFault and runDNSFault of agent/faults.go: the commands they run and
-- what they append to /etc/hosts. Whether a command succeeds, and whether the file is opened and
-- written, is an argument.
use onfire.Prelude.{String, List, [], ◌∷◌, ◌++◌, Bool, ◌||◌, not, Option, none, some, if◌then◌else◌}
use onfire.Prelude.Text.{Text, codes, text_eq, or_else}
use onfire.Prelude.Dict.{Dict, lookup}

abbrev pub Params : Type 0
Params = Dict Text

-- A command with its arguments.
abbrev pub Command : Type 0
Command = List Text

pub data FaultError : Type 0 where
  already_running unknown_type : FaultError
  tc_failed service_missing stop_failed dns_missing hosts_failed : FaultError

-- What a fault has done by the time its function returns: the commands that it has run, the text
-- appended to /etc/hosts, the command that a goroutine runs on cancellation, and the error.
pub record Effect : Type 0 where
  pub commands : List Command
  pub appended : Text
  pub on_cancel : List Command
  pub error : Option FaultError

-- v, ok := params[k], with a default.
abbrev pub param_or : Params → Text → Text → Text
param_or params k d = or_else (lookup k params) d

-- params[k], empty where the key is missing.
abbrev pub param : Params → Text → Text
param params k = param_or params k []

abbrev pub netem : Text → List Text → Command
netem iface args =
    codes "tc"
    ∷ codes "qdisc"
    ∷ codes "add"
    ∷ codes "dev"
    ∷ iface
    ∷ codes "root"
    ∷ codes "netem"
    ∷ args

unfoldable pub tc_add : Params → Command
unfolding lookup
tc_add params =
    let iface = param_or params (codes "interface") (codes "eth0") in
    let action = param params (codes "action") in
    if text_eq action (codes "delay")
    then netem iface (
        codes "delay"
        ∷ param_or params (codes "latency") (codes "100ms")
        ∷ param_or params (codes "jitter") (codes "10ms")
        ∷ [])
    else if text_eq action (codes "loss") || text_eq action (codes "drop")
    then netem iface (codes "loss" ∷ param_or params (codes "packet_loss") (codes "10%") ∷ [])
    else if text_eq action (codes "corrupt")
    then netem iface (codes "corrupt" ∷ codes "10%" ∷ [])
    else netem iface (codes "delay" ∷ codes "200ms" ∷ [])

abbrev pub tc_del : Params → Command
tc_del params =
    codes "tc"
    ∷ codes "qdisc"
    ∷ codes "del"
    ∷ codes "dev"
    ∷ param_or params (codes "interface") (codes "eth0")
    ∷ codes "root"
    ∷ []

abbrev pub systemctl : String → Text → Command
systemctl verb service = codes "systemctl" ∷ codes verb ∷ service ∷ []

abbrev pub effect_of : List Command → Option FaultError → Effect
effect_of commands error = record {
  commands = commands;
  appended = [];
  on_cancel = [];
  error = error;
}

module _ (runs : Command → Bool) where
  unfoldable pub run_network_fault : Params → Effect
  unfolding tc_add lookup
  run_network_fault params =
      if runs (tc_add params)
      then record {
        commands = tc_add params ∷ [];
        appended = [];
        on_cancel = tc_del params ∷ [];
        error = none;
      }
      else effect_of (tc_add params ∷ []) (some tc_failed)

  -- The stop, and the mask unless the service may be restarted.
  abbrev stop_service : Bool → Text → Effect
  stop_service restart service =
      if runs (systemctl "stop" service)
      then if restart
        then effect_of (systemctl "stop" service ∷ []) none
        else effect_of (systemctl "stop" service ∷ systemctl "mask" service ∷ []) none
      else effect_of (systemctl "stop" service ∷ []) (some stop_failed)

  unfoldable pub run_process_fault : Params → Effect
  unfolding lookup
  run_process_fault params =
      let service = param params (codes "service") in
      let given = param params (codes "action") in
      let action = if text_eq given [] then codes "stop" else given in
      let restart = not (text_eq (param params (codes "restart")) (codes "false")) in
      if text_eq service []
      then effect_of [] (some service_missing)
      else if text_eq action (codes "stop") || text_eq action (codes "kill")
      then stop_service restart service
      else if text_eq action (codes "restart")
      then effect_of (systemctl "restart" service ∷ []) none
      else if text_eq action (codes "degrade")
      then effect_of (systemctl "stop" service ∷ []) none
      else effect_of [] none

-- "\n%s %s # onfire-fault\n"
abbrev pub hosts_entry : Text → Text → Text
hosts_entry resolve_to name =
    b'\n' ∷ (resolve_to ++ (b' ' ∷ (name ++ (codes " # onfire-fault" ++ (b'\n' ∷ [])))))

-- `appends` is whether /etc/hosts is opened and the entry written to it.
unfoldable pub run_dns_fault : Bool → Params → Effect
unfolding lookup
run_dns_fault appends params =
    let name = param params (codes "record") in
    let resolve_to = param params (codes "resolve_to") in
    if text_eq name [] || text_eq resolve_to []
    then effect_of [] (some dns_missing)
    else if appends
    then record {
      commands = [];
      appended = hosts_entry resolve_to name;
      on_cancel = [];
      error = none;
    }
    else effect_of [] (some hosts_failed)
