-- ===== src/Manager.antt =====
-- `TokenManager` of TokenIndex/TokenManager_Vector.{h,cc}: all words, by length.
pub mod Defs
pub mod Index
pub mod Known
pub mod Fresh
pub mod Words
pub mod Ids
pub mod Steps
pub mod Restart
pub mod Reach
