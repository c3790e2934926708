-- ===== src/Space.antt =====
-- `SpaceBySize` of TokenIndex/TokenManager_Vector.{h,cc}: the words of one length.
pub mod Defs
pub mod Tokens
pub mod Queues
