-- ===== src/Replicated.antt =====
-- src/raft/replicated_db.cc: a replicated table over a Raft node and its storage.
pub mod Command
pub mod Store
pub mod Applied
pub mod Alone
pub mod Durable
pub mod Elect
pub mod Tests
