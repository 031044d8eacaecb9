-- ===== src/Udt.antt =====
-- Schemas of user-defined types: libs/libkv8/src/UdtSchemaParser.{h,cpp}, with the JSON that
-- libs/kv8log/include/kv8log/KV8_UDT.h builds for it. Outcome is what a parse returns, Json the
-- struct `Parser`, Schema `ParseUdtSchema`, Decode `UdtDecodeField` and Build the macros' side.
pub mod Outcome
pub mod Types
pub mod Json
pub mod Schema
pub mod Decode
pub mod Build
pub mod Laws
mod Tests
