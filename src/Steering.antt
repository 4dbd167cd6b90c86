-- ===== src/Steering.antt =====
-- One message to a running worker's pane (internal/steering/send.go), over the store's model of
-- deliveries. What herdr, the locks and the registry's preflight answer is an argument, `Answers`.
-- Before the task lock is held others may write, so the database that is read first, `early`, is an
-- argument besides the one under the lock.
pub mod Request
pub mod Delivery
pub mod Execution
pub mod Outcomes
pub mod Silence
