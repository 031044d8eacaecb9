-- ===== src/Kv8log.antt =====
-- libs/kv8log/lib/kv8log_impl.cpp: the runtime library behind the kv8log_* functions.
pub mod Text
pub mod Ctl
pub mod Session
pub mod Register
pub mod Emit
pub mod Control
pub mod Laws
mod Tests
