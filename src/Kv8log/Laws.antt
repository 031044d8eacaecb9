-- ===== src/Kv8log/Laws.antt =====
-- The properties of the runtime library, by subject.
pub mod Validity
pub mod Emission
pub mod Samples
pub mod Switch
pub mod Logging
pub mod Limit
