-- ===== src/Scope/Laws.antt =====
-- What holds of the session discovery.
pub mod Maps
pub mod Mirror
pub mod Rounds
pub mod Failures
pub mod Ageing
pub mod Pending
