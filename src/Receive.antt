-- ===== src/Receive.antt =====
-- What the oscilloscope makes of the messages of a session: kv8scope/ConsumerThread.{h,cpp}, with
-- TimeConverter, StatsEngine and the rings that it fills. Setup is its constructor, Messages the
-- callback on a message, CtlText and Stats what the callback calls.
pub mod Stats
pub mod CtlText
pub mod Setup
pub mod Messages
pub mod Laws
mod Tests
