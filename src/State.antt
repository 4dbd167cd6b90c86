-- ===== src/State.antt =====
-- The checks that internal/state makes of what it stores: pull-request URLs (pr.go) and task ids (task.go).
pub mod PullRequest
pub mod Identifier
