-- ===== src/Tests.antt =====
-- The theorems at concrete inputs, by component.
mod Words
mod Queries
mod Jobs
mod Matching
mod Reading
mod Batch
mod Server
