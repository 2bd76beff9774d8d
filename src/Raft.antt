-- ===== src/Raft.antt =====
-- The Raft core: include/mlsm/raft/raft.h, include/mlsm/raft/messages.h and src/raft/raft.cc.
pub mod Messages
pub mod State
pub mod Leader
pub mod Follower
pub mod Core
pub mod Tests
pub mod Frames
pub mod Ballot
pub mod HardState
pub mod Outbox
pub mod Standing
pub mod Log
pub mod Replication
pub mod Commit
pub mod Propose
pub mod Writes
