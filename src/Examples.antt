-- ===== src/Examples.antt =====
-- The theorems at concrete inputs, and runs of the definitions.
mod Servers
mod Scenarios
mod Agents
mod Launches
mod Hosts
mod Deliveries
mod Injections
mod Runs
mod Machines
mod Images
mod Clients
mod Commands
mod Streams
mod Arguments
pub mod Sample
