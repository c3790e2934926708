-- ===== src/Queries.antt =====
-- QueryIndex/: the queries, their hash, and the index that gives equal queries one entry.
pub mod Vault
pub mod Order
pub mod Query
pub mod Index
pub mod Words
