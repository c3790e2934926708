-- ===== src/Results.antt =====
-- QueryIndex/bitarea: which words of which queries are found in which documents of the batch.
pub mod Bitarea
pub mod Marks
pub mod Sort
pub mod Merge
pub mod Blocks
pub mod Passes
pub mod Schedule
pub mod Order
pub mod Shares
pub mod Batch
pub mod Generate
pub mod Any
pub mod Generated
pub mod Ranges
pub mod Cover
pub mod Answers
pub mod Ids
