-- ===== src/Interface.antt =====
-- top_impl.cpp and JobScheduler/JobDedup.cpp: how queries and documents are read, and the functions of the interface.
pub mod Reading
pub mod Splitting
pub mod Terminates
pub mod Words
pub mod Dedup
pub mod Documents
pub mod Buffers
pub mod Server
pub mod RunEnd
pub mod Orderly
pub mod Protocol
pub mod NextResult
pub mod Named
pub mod Naming
pub mod NamingJobs
pub mod Reach
