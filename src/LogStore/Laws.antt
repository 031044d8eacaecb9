-- ===== src/LogStore/Laws.antt =====
-- The properties of the log store.
pub mod Order
pub mod Sites
pub mod Export
