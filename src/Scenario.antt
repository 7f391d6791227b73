-- ===== src/Scenario.antt =====
-- Package scenario: scenario documents, the VM plan, fault targets, the objectives and the score.
pub mod Types
pub mod Floats
pub mod Parser
pub mod Plan
pub mod Targets
pub mod Score
pub mod Runner
pub mod Condition
pub mod Packages
pub mod Objectives
pub mod Delivery
pub mod Injection
pub mod Provision
pub mod Run
pub mod Boot
pub mod Screen
