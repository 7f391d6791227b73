-- ===== src/Vm/Tap.antt =====
-- vm/tap.go. What a command comes to is an argument: none if it succeeds, and its output if it fails.
pub mod Substring
pub mod Tolerance
use onfire.Prelude.{
  take, ℕ, zero, suc, ◌+◌, ◌-◌, List, [], ◌∷◌, ◌++◌, Bool, true, false, ◌&&◌, ◌||◌, String, Option,
  none, some, length, ltb, leb, if◌then◌else◌,
}
use onfire.Prelude.Text.{Text, codes, text_eq, decimal}

abbrev pub rest_of : Text → Text
rest_of [] = []
rest_of (c ∷ s) = s

-- The loop of containsStr, with the rounds that are left, on s[i:].
unfoldable pub any_slice : ℕ → Text → Text → Bool
any_slice zero s sub = false
any_slice (suc n) s sub =
    let later = any_slice n (rest_of s) sub in
    if text_eq (take (length sub) s) sub then true else later

-- i runs from 0 to len(s)-len(sub), and not at all if that is negative.
unfoldable pub contains_str : Text → Text → Bool
unfolding any_slice
contains_str s sub = any_slice (length s + 1 - length sub) s sub

unfoldable pub has_substring : Text → Text → Bool
unfolding contains_str
has_substring s sub =
    leb (length sub) (length s) && (text_eq s sub || (ltb 0 (length s) && contains_str s sub))

unfoldable pub is_already_exists : Text → Bool
unfolding has_substring
is_already_exists msg =
    has_substring msg (codes "already exists")
    || has_substring msg (codes "RTNETLINK answers: File exists")
    || has_substring msg (codes "File exists")

abbrev pub Command : Type 0
Command = List Text

abbrev pub tap_name : ℕ → Text
tap_name id = codes "tap" ++ decimal id

abbrev pub remove_command : ℕ → Command
remove_command id = codes "ip" ∷ codes "link" ∷ codes "del" ∷ tap_name id ∷ []

abbrev pub add_command : ℕ → Command
add_command id =
    codes "ip" ∷ codes "tuntap" ∷ codes "add" ∷ tap_name id ∷ codes "mode" ∷ codes "tap" ∷ []

unfoldable pub setup_commands : ℕ → List Command
unfolding decimal
setup_commands id =
    add_command id
    ∷ (codes "ip"
        ∷ codes "addr"
        ∷ codes "add"
        ∷ (codes "172.16." ++ (decimal id ++ codes ".1/30"))
        ∷ codes "dev"
        ∷ tap_name id
        ∷ [])
    ∷ (codes "ip" ∷ codes "link" ∷ codes "set" ∷ tap_name id ∷ codes "up" ∷ [])
    ∷ (codes "sh" ∷ codes "-c" ∷ codes "echo 1 > /proc/sys/net/ipv4/ip_forward" ∷ [])
    ∷ []

-- The iptables command with -C or -A.
abbrev pub masquerade : String → Command
masquerade flag =
    codes "iptables"
    ∷ codes "-w"
    ∷ codes "-t"
    ∷ codes "nat"
    ∷ codes flag
    ∷ codes "POSTROUTING"
    ∷ codes "-j"
    ∷ codes "MASQUERADE"
    ∷ []

-- The commands that have been run, and the one whose failure is returned.
pub record Setup : Type 0 where
  pub ran : List Command
  pub error : Option Command

abbrev pub then_run : Command → Setup → Setup
then_run c s = record { ran = c ∷ s.ran; error = s.error }

module _ (run : Command → Option Text) where
  abbrev pub add_rule : Option Text → Setup
  add_rule none = record { ran = masquerade "-C" ∷ []; error = none }
  add_rule (some out) = elim (run (masquerade "-A")) [
    | none ↦ record { ran = masquerade "-C" ∷ masquerade "-A" ∷ []; error = none }
    | some out' ↦ record {
      ran = masquerade "-C" ∷ masquerade "-A" ∷ [];
      error = some (masquerade "-A");
    }
  ]

  -- A failure is passed over when the device, or the address, is there already.
  abbrev pub go_on : Command → Option Text → Setup → Setup
  go_on c none later = then_run c later
  go_on c (some msg) later =
      if is_already_exists msg then then_run c later else record { ran = c ∷ []; error = some c }

  unfoldable pub run_setup : List Command → Setup
  unfolding is_already_exists
  run_setup [] = add_rule (run (masquerade "-C"))
  run_setup (c ∷ cs) = go_on c (run c) (run_setup cs)

  abbrev pub succeeds_or_exists : Option Text → Bool
  succeeds_or_exists none = true
  succeeds_or_exists (some msg) = is_already_exists msg

  -- Whether there is a device behind the call, which tries first to make it: what follows does not
  -- remove it, also where it fails.
  unfoldable pub has_device : ℕ → Bool
  unfolding decimal is_already_exists
  has_device id = succeeds_or_exists (run (add_command id))

  unfoldable pub ensure_tap : ℕ → Setup
  unfolding setup_commands run_setup
  ensure_tap id = then_run (remove_command id) (run_setup (setup_commands id))
