-- ===== src/Storage.antt =====
-- src/raft/storage.cc: the durable hard state and log of a Raft node.
pub mod Codec
pub mod Replay
pub mod Save
pub mod Recovery
pub mod Durable
pub mod Restart
pub mod Open
pub mod OpenTests
pub mod Tests
