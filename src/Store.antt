-- ===== src/Store.antt =====
-- internal/store/store.go: the machine state of the fleet, tables of tasks, attempts, sends, holds
-- and projects, with the operations that change them.
pub mod Types
pub mod Table
pub mod Tables
pub mod Statements
pub mod Lifecycle
pub mod Facts
pub mod Teardown
pub mod Sends
pub mod Holds
pub mod Commands
pub mod Runs
pub mod History
pub mod Ownership
pub mod Refinement
