-- ===== src/Vm/Distinct.antt =====
-- What the VMs of a host have of their own: ForVM of vm/config.go and PrepareRootFS of vm/rootfs.go.
use onfire.Prelude.{ℕ, ◌≤◌, ◌≡◌, ◌∙◌, ap, sym, ◌++◌}
use onfire.Prelude.Text.{Text, codes, decimal}
use onfire.Prelude.Numerals.{parse_uint, parse_uint-decimal, max_uint64}
use onfire.Vm.Config.{Config, for_vm, vm_ip}
use onfire.Vm.RootFs.{image_path}
use mathlib.Core.List.{append_cancel_left, append_cancel_right}

decimal_inj : (a b : ℕ) → a ≤ max_uint64 → b ≤ max_uint64 → decimal a ≡ decimal b → a ≡ b
decimal_inj a b ha hb e = sym (parse_uint-decimal a ha) ∙ ap parse_uint e ∙ parse_uint-decimal b hb

-- A number between two fixed texts.
framed_inj :
    (front back : Text) (a b : ℕ)
    → a ≤ max_uint64
    → b ≤ max_uint64
    → front ++ (decimal a ++ back) ≡ front ++ (decimal b ++ back)
    → a ≡ b
framed_inj front back a b ha hb e = decimal_inj a b ha hb (
    append_cancel_right (decimal a) (decimal b) back
      (append_cancel_left front (decimal a ++ back) (decimal b ++ back) e))

-- Two VMs with IDs below 2^64 that share one of these are one VM: the socket, the TAP device, the log
-- file, the address of its guest, or the file of its root image.
pub for_vm_inj :
    (base : Config) (a b : ℕ)
    → a ≤ max_uint64
    → b ≤ max_uint64
    → ((for_vm base a).socket_path ≡ (for_vm base b).socket_path → a ≡ b)
      × ((for_vm base a).tap_device_name ≡ (for_vm base b).tap_device_name → a ≡ b)
      × ((for_vm base a).log_path ≡ (for_vm base b).log_path → a ≡ b)
      × (vm_ip a ≡ vm_ip b → a ≡ b)
      × (image_path a ≡ image_path b → a ≡ b)
unfolding for_vm vm_ip image_path
for_vm_inj base a b ha hb = (
  framed_inj (codes "/tmp/firecracker-") (codes ".sock") a b ha hb,
  λ e. decimal_inj a b ha hb (append_cancel_left (codes "tap") (decimal a) (decimal b) e),
  framed_inj (codes "vm-") (codes ".log") a b ha hb,
  framed_inj (codes "172.16.") (codes ".2") a b ha hb,
  framed_inj (codes "vm-") (codes "-rootfs.ext4") a b ha hb,
)
