-- ===== src/Views/Served.antt =====
-- Which calls of a page the server lets through: the frame of the proofs, page by page in the
-- children.
pub mod Parts
pub mod Fleet
pub mod Detail
pub mod People
pub mod Work
pub mod System
pub mod Vault
pub mod Pages
pub mod Runs
pub mod Watching
