-- ===== src/Examples/Hosts.antt =====
-- The TAP device and the root image at small inputs.
use onfire.Prelude.{◌⊎◌, ◌≡◌, ◌↔◌, refl, true, false, Option, none, some, All}
use onfire.Prelude.Int.{pos}
use onfire.Prelude.Text.{Text, codes}
use onfire.Vm.Tap.{Command, has_substring, setup_commands, ensure_tap}
use onfire.Vm.Tap.Tolerance.{IsTolerated, HasRule, ensure_tap_iff}
use onfire.Vm.RootFs.{Tools, prepare_rootfs}
use onfire.Vm.RootFs.Cleanup.{LeavesImage, LeavesCopy, prepare_rootfs-files_after}

busy_is_no_substring : has_substring (codes "device is busy") (codes "File exists") ≡ false
unfolding has_substring
busy_is_no_substring = refl

-- A host on which everything is there already.
abbrev used_host : Command → Option Text
used_host c = some (codes "RTNETLINK answers: File exists")

ensure_tap_iff_example :
    ((ensure_tap used_host 3).error ≡ none)
    ↔ (All (IsTolerated used_host) (setup_commands 3) × HasRule used_host)
ensure_tap_iff_example = ensure_tap_iff used_host 3

-- The last step, resize2fs, fails.
abbrev tools : Tools
tools = record {
  clones = false;
  copies = true;
  leaves_copy = true;
  temp = some (codes "/tmp/hostname-1");
  writes = true;
  script = some (codes "/tmp/debugfs-script-2");
  debugfs = λ script image. true;
  truncates = λ size. true;
  resizes = false;
}

prepare_rootfs-files_after_example :
    let p = prepare_rootfs tools 3 (pos 2048) in LeavesImage tools p ⊎ LeavesCopy tools 3 p
prepare_rootfs-files_after_example = prepare_rootfs-files_after tools 3 (pos 2048)
