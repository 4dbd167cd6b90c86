-- ===== src/Routing.antt =====
-- How a task finds its worker's harness, model and effort (internal/routing): the names and cells
-- that an operator configures, and the resolver of a request.
pub mod Profile
pub mod Resolver
pub mod Choice
pub mod Flags
