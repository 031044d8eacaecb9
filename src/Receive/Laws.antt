-- ===== src/Receive/Laws.antt =====
-- What holds of the messages of a session.
pub mod Toggling
pub mod Rings
pub mod Delivery
pub mod Feeds
pub mod Extremes
