-- ===== src/Tests.antt =====
-- Runs on concrete inputs: a fleet of one task, a report file, and what the theorems say of them.
pub mod Fleet
pub mod Deliveries
pub mod Reports
pub mod Registry
pub mod Messages
pub mod Watching
pub mod Routes
pub mod Restarts
pub mod Takeovers
