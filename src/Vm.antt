-- ===== src/Vm.antt =====
-- Package vm: the configuration of a microVM, its TAP device and its root image.
pub mod Config
pub mod Tap
pub mod RootFs
pub mod Distinct
pub mod Write
pub mod Machine
