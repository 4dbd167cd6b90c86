-- ===== src/Store/Refinement.antt =====
-- The lifecycle methods implement the steps of Ownership.
pub mod Rows
pub mod Ending
pub mod Single
pub mod Starting
pub mod Founding
pub mod Facts
pub mod Calls
