-- ===== src/Watcher.antt =====
-- The watcher's decisions (internal/watcher): what it tracks for a task, the events that one tick
-- announces (events.go), the usage-limit episodes of a worker (usagelimit.go), and what it writes back,
-- starts from and records (watcher.go).
pub mod State
pub mod Status
pub mod Announcements
pub mod Filter
pub mod Log
pub mod Restart
pub mod Resume
pub mod Recording
pub mod Dispatch
pub mod Latches
pub mod Limit
pub mod LimitHolds
pub mod Episodes
