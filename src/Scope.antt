-- ===== src/Scope.antt =====
-- The session discovery of the oscilloscope: kv8scope/SessionManager.{h,cpp}. Liveness is
-- `ProbeSessionLiveness`, Sessions the worker's poll cycle and the calls of the main thread.
pub mod Liveness
pub mod Sessions
pub mod Laws
mod Tests
