-- ===== src/Store/Ownership.antt =====
-- What the lifecycle methods of internal/store/store.go promise to their callers, with the rows
-- forgotten: which task is open or terminal, which attempt it owns, and where each attempt stands.
pub mod Step
pub mod Invariant
