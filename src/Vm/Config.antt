-- ===== src/Vm/Config.antt =====
-- vm/config.go. The environment and $PATH are arguments.
mod Args
pub use Args.*
use onfire.Prelude.{
  ℕ, ◌+◌, List, [], ◌∷◌, ◌++◌, Bool, true, false, Option, none, some, if◌then◌else◌, not,
}
use onfire.Prelude.Int.{ℤ, pos, ltb_ℤ}
use onfire.Prelude.Text.{Text, codes, text_eq, decimal, hex02, strip_suffix}

pub record Config : Type 0 where
  pub firecracker_bin : Text
  pub socket_path : Text
  pub kernel_image_path : Text
  pub rootfs_path : Text
  pub vcpus : ℤ
  pub mem_size_mib : ℤ
  pub rootfs_size_mib : ℤ
  pub kernel_args : Text
  pub tap_device_name : Text
  pub mac_address : Text
  pub log_path : Text
  pub log_level : Text
  pub cloud_init_iso : Text

unfoldable pub default_config : Config
default_config = record {
  firecracker_bin = [];
  socket_path = codes "/tmp/firecracker.sock";
  kernel_image_path = [];
  rootfs_path = [];
  vcpus = pos 1;
  mem_size_mib = pos 512;
  rootfs_size_mib = pos 1024;
  kernel_args = codes "console=ttyS0 reboot=k panic=1 pci=off";
  tap_device_name = [];
  mac_address = [];
  log_path = [];
  log_level = codes "Info";
  cloud_init_iso = [];
}

pub data ConfigError : Type 0 where
  binary_not_found kernel_required rootfs_required bad_vcpus bad_mem : ConfigError

-- What the process sees of its host: the variable FIRECRACKER_BIN ("" if unset), and the answer of
-- exec.LookPath("firecracker").
pub record Host : Type 0 where
  pub firecracker_env : Text
  pub firecracker_in_path : Option Text

abbrev pub is_empty : Text → Bool
is_empty [] = true
is_empty (c ∷ s) = false

unfoldable pub resolve_binary : Host → Text → Option Text
resolve_binary host explicit =
    if not (is_empty explicit)
    then some explicit
    else if not (is_empty host.firecracker_env)
    then some host.firecracker_env
    else host.firecracker_in_path

-- The checks of Validate behind the one of the binary, which has been stored by then.
unfoldable pub validate_fields : Config → Option ConfigError
validate_fields c =
    if is_empty c.kernel_image_path
    then some kernel_required
    else if is_empty c.rootfs_path
    then some rootfs_required
    else if ltb_ℤ c.vcpus (pos 1)
    then some bad_vcpus
    else if ltb_ℤ c.mem_size_mib (pos 1)
    then some bad_mem
    else none

abbrev pub store_binary : Config → Option Text → Config × Option ConfigError
store_binary c none = (c, some binary_not_found)
store_binary c (some bin) = let c' = record c { firecracker_bin = bin } in (c', validate_fields c')

-- The method stores the binary in its receiver: the new receiver, and the error if there is one.
unfoldable pub validate : Host → Config → Config × Option ConfigError
unfolding resolve_binary validate_fields
validate host c = store_binary c (resolve_binary host c.firecracker_bin)

unfoldable pub vm_ip : ℕ → Text
vm_ip id = codes "172.16." ++ (decimal id ++ codes ".2")

unfoldable pub ip_arg : ℕ → Text
unfolding vm_ip
ip_arg id =
    codes "ip="
    ++ (vm_ip id
        ++ (codes "::172.16." ++ (decimal id ++ codes ".1:255.255.255.252::eth0:off:8.8.8.8")))

unfoldable pub args_for_vm : Text → Text → Text
unfolding replace_ip has_ip
args_for_vm new args =
    if has_ip false args then replace_ip new false false args else args ++ (b' ' ∷ new)

-- The stem of a path that ends in ".iso" and is longer than that.
abbrev per_vm_iso : Text → ℕ → Option Text → Text
per_vm_iso iso id none = iso
per_vm_iso iso id (some []) = iso
per_vm_iso iso id (some (c ∷ stem)) = (c ∷ stem) ++ (b'-' ∷ (decimal id ++ codes ".iso"))

unfoldable pub iso_for_vm : Text → ℕ → Text
unfolding strip_suffix
iso_for_vm iso id = per_vm_iso iso id (strip_suffix (codes ".iso") iso)

unfoldable pub for_vm : Config → ℕ → Config
unfolding decimal hex02 ip_arg args_for_vm iso_for_vm
for_vm c id = record c {
  socket_path = codes "/tmp/firecracker-" ++ (decimal id ++ codes ".sock");
  tap_device_name = codes "tap" ++ decimal id;
  mac_address = codes "AA:FC:00:00:00:" ++ hex02 (id + 1);
  log_path = codes "vm-" ++ (decimal id ++ codes ".log");
  kernel_args = args_for_vm (ip_arg id) c.kernel_args;
  cloud_init_iso = iso_for_vm c.cloud_init_iso id;
}
