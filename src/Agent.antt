-- ===== src/Agent.antt =====
-- The agent in a VM: agent/main.go and agent/faults.go.
pub mod Commands
pub mod Faults
pub mod Handlers
pub mod Metrics
pub mod Background
