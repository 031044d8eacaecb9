-- ===== src/Zoom.antt =====
-- The map bridge: the limits on the rate of its frames, kv8zoom/DecimationController.{h,cpp}.
pub mod Decimation
pub mod Trail
pub mod Farthest
pub mod Simplified
pub mod Thinned
pub mod Frames
pub mod Payloads
pub mod Reader
pub mod Subscribed
pub mod Delivered
pub mod Bridge
pub mod Catalog
pub mod Timer
pub mod Clients
pub mod Silence
pub mod Playback
pub mod Seeking
pub mod Choosing
pub mod Switching
pub mod Sparse
mod ReaderTests
mod BridgeTests
pub mod Spacing
pub mod Rates
mod Tests
