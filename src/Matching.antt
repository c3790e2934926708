-- ===== src/Matching.antt =====
-- MatchStuff/Relations, MatchStuff/TidToWid and JobScheduler/JobMatchPrune.cpp: the words that match, and the
-- jobs that look for them.
pub mod Relations
pub mod Compare
pub mod Recorded
pub mod Jobs
pub mod Plans
pub mod Shared
pub mod Stored
pub mod Fly
pub mod Missing
