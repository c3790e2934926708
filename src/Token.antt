-- ===== src/Token.antt =====
-- TokenIndex/TokenStructs_Vector.{h,cc}: one word, with the documents of the running batch that
-- hold it and the queries that ask for it.
pub mod Defs
pub mod Requests
pub mod Inserting
pub mod Removing
pub mod Highest
pub mod Documents
pub mod Frame
