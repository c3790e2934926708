-- ===== src/Jobs.antt =====
-- JobScheduler/: the jobs, the jobs that hash fresh words, the scheduler and the barrier.
pub mod Defs
pub mod Split
pub mod Tiles
pub mod Cuts
pub mod Reach
pub mod Lists
pub mod Hashes
pub mod Scheduler
pub mod Fetch
pub mod Barrier
