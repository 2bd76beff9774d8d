-- ===== src/Db.antt =====
-- src/db.cc: the records of the write-ahead log and the table that they build.
pub mod Record
pub mod Table
pub mod Store
pub mod Open
pub mod Recovered
pub mod OpenTests
pub mod Tests
