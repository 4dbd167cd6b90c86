-- ===== src/Report.antt =====
-- internal/state/report.go: the report channel at state/<id>.status, read whole, cut into lines,
-- classified, and consumed by a cursor.
pub mod Space
pub mod Line
pub mod Cursor
pub mod Lines
pub mod Tail
pub mod Polling
pub mod Terminal
