-- ===== src/Registry/Laws.antt =====
-- What a scan of the registry makes of the records that the producer writes.
pub mod Prefix
pub mod Parse
pub mod Message
pub mod Discovery
pub mod Feeds
pub mod KeyOrder
pub mod Resolution
pub mod Virtual
pub mod AddFeeds
pub mod Finish
