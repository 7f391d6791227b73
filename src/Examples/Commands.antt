-- ===== src/Examples/Commands.antt =====
-- What runs on the host, at small inputs.
use onfire.Prelude.{
  Bool, ◌&&◌, ltb, length, ◌++◌, ℕ, ◌<◌, ◌==◌, ◌≡◌, ◌↔◌, refl, List, [], ◌∷◌, true, false, some,
}
use onfire.Prelude.Int.{pos}
use onfire.Prelude.Text.{Text, codes, decimal, text_eq}
use onfire.Prelude.Numerals.{atoi}
use onfire.Vm.Config.{default_config}
use onfire.Api.Launch.{LaunchDeps}
use onfire.Scenario.Boot.{BootDeps, Boot}
use onfire.Cmd.Fleet.{launch_all, run_cmd}
use onfire.Cmd.Fleet.Leaks.{AreOf, launch_all-LeavesDevice}
use onfire.Cmd.Terminal.{
  ws_vm, Session, Incoming, Sent, raw, json_object, ws_handler, ws_closed, forward, window, typed,
}
use onfire.Cmd.Terminal.Reach.{IsForwarded, HasShell, ws_handler_iff}

-- No VM starts, and one EnsureTAP fails behind its device.
abbrev no_starts : BootDeps
no_starts = record {
  makes_iso = λ dst hostname. true;
  ensure_tap = λ id. ltb id 6;
  leaves_device = λ id. true;
  prepare_rootfs = λ base id size. some (codes "vm-" ++ decimal id);
  writes_motd = λ path. true;
  factory = λ cfg. true;
  starts = λ cfg. false;
}

-- The second VM does not start.
abbrev uneven : LaunchDeps
uneven = record {
  ensure_tap = λ id. true;
  leaves_device = λ id. false;
  ensure_iso = λ dst src hostname. true;
  prepare_rootfs = λ base id size. some (codes "vm-" ++ decimal id);
  factory = λ cfg. true;
  starts = λ cfg. false;
  waits = λ cfg. true;
  cancelled = λ id stage. false;
}

launch_all-LeavesDevice_example :
    (length (launch_all uneven default_config 2).0 ≡ 2)
    × AreOf uneven default_config 0 (launch_all uneven default_config 2).0
launch_all-LeavesDevice_example = launch_all-LeavesDevice uneven default_config 2

no_vm : run_cmd uneven (λ dst config hostname. true) [] default_config (pos 0) ≡ ([], some 0)
unfolding run_cmd launch_all default_config
no_vm = refl

abbrev session : Session
session = record {
  opens = true;
  pty = true;
  stdin = true;
  stdout = true;
  stderr = true;
  shell = true;
}

abbrev keys : List Incoming
keys = json_object (codes "resize") (pos 80) (pos 24) ∷ raw (codes "ls") ∷ []

keys_forwarded : forward keys ≡ window (pos 24) (pos 80) ∷ typed (codes "ls") ∷ []
unfolding forward
keys_forwarded = refl

abbrev third : Text → ℕ → Bool
third addr i = text_eq addr (codes "172.16.1.2:22") && (i == 2)

one_of_three : ws_vm 3 (codes "1") ≡ some 1
unfolding ws_vm
one_of_three = refl

ws_handler_iff_example :
    (1 < 3)
    × (atoi (codes "1") ≡ some (pos 1))
    × (((out : List Sent) × (ws_handler third 1 session keys ≡ ws_closed out)
          × IsForwarded keys out)
        ↔ (((i : ℕ) × (i < 10) × (third (codes "172.16." ++ (decimal 1 ++ codes ".2:22")) i ≡ true))
            × HasShell session))
ws_handler_iff_example = ws_handler_iff 3 (codes "1") 1 third session keys one_of_three

third_connects :
    ws_handler third 1 session keys ≡ ws_closed (window (pos 24) (pos 80) ∷ typed (codes "ls") ∷ [])
unfolding ws_handler
third_connects = refl
