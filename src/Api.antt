-- ===== src/Api.antt =====
-- web/src/api: the wire types.
pub mod Inventory
pub mod Activity
