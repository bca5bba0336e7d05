-- ===== src/Server.antt =====
-- The rules of the server that the web client repeats.
pub mod StateMachine
pub mod Roles
pub mod Retries
pub mod Routes
pub mod Csrf
