-- ===== src/Api.antt =====
-- Package api: the in-memory state of the REST server and its handlers.
pub mod Ids
pub mod Overrides
pub mod State
pub mod Fleets
pub mod Scenarios
pub mod Ownership
pub mod Launch
pub mod Mux
pub mod Routes
pub mod Totals
pub mod Handler
