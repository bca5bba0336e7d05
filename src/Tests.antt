-- ===== src/Tests.antt =====
-- Tests of the definitions, and uses of the theorems, at concrete values.
mod Fixtures
mod Runs
mod Targets
mod Bodies
mod Sessions
mod Requests
mod Wizards
mod Views
mod Forms
mod Screens
