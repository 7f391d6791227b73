-- ===== src/Cmd.antt =====
-- Package cmd: the commands of onfire on the host.
pub mod Arguments
pub mod Commands
pub mod Fleet
pub mod Process
pub mod Relay
pub mod Server
pub mod Terminal
