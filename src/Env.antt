-- ===== src/Env.antt =====
-- src/env_posix.cc: the files of the log over the system calls.
pub mod Interface
pub mod Calls
pub mod Posix
pub mod Append
pub mod Read
pub mod Implements
pub mod Files
pub mod Kernel
pub mod Tests
