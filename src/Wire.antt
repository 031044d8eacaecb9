-- ===== src/Wire.antt =====
-- The wire formats of libs/libkv8/include/kv8/Kv8Types.h: packed little-endian structs.
pub mod Header
pub mod Hash
pub mod LogSite
pub mod LogRecord
pub mod Sample
pub mod Registry
mod Tests
