-- ===== src/Endpoints.antt =====
-- web/src/api/endpoints.ts: the calls of the server's API, one constructor for each function.
pub mod Calls
pub mod Session
pub mod Fleet
pub mod Work
pub mod Operations
