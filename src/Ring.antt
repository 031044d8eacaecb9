-- ===== src/Ring.antt =====
-- The two lock-free rings: kv8zoom/SpscFixedRing.h (`Fixed`) and kv8scope/SpscDynamicRing.h
-- (`Dynamic`), over a common view of a circular buffer (`Window`).
pub mod Queue
pub mod Window
pub mod Fixed
pub mod Dynamic
