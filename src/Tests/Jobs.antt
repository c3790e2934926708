-- ===== src/Tests/Jobs.antt =====
-- The theorems on jobs at concrete inputs.
use sigmod_programming_conte.Base.{
  ◌++◌, ◌-◌, ◌≤◌, ◌≡◌, refl, [], ◌∷◌, length, arith, ltb, if◌then◌else◌,
}
use sigmod_programming_conte.Core.{CString}
use sigmod_programming_conte.Jobs.Defs.{job_barrier, job_run, job_dedup}
use sigmod_programming_conte.Jobs.Split.{split}
use sigmod_programming_conte.Jobs.Tiles.{Tiles, split-Tiles}
use sigmod_programming_conte.Jobs.Scheduler.{schedule, JobScheduler, fetch_work}
use sigmod_programming_conte.Jobs.Fetch.{schedule_lem, IsCounted, Taken, fetch_work-Taken}
use sigmod_programming_conte.Jobs.Barrier.{
  Barrier, arrive, wake, Run, here, arrives, wakes, Run-passed,
}

split-Tiles_example : Tiles 30 0 75 (split (λ a b. (a, b)) 30 75)
split-Tiles_example = split-Tiles 30 75 (omega arith)

abbrev rain : CString
rain = 114 ∷ 97 ∷ 105 ∷ 110 ∷ []

abbrev two_jobs : JobScheduler
two_jobs = record {
  available_work = 2;
  available_weights = 2 ∷ [];
  jobs_queue = job_dedup 0 7 1 ∷ job_run ∷ [];
}

schedule_lem_example :
    ((schedule (job_barrier 23 ∷ job_run ∷ []) two_jobs).jobs_queue
      ≡ two_jobs.jobs_queue ++ job_barrier 23 ∷ job_run ∷ [])
    × IsCounted (schedule (job_barrier 23 ∷ job_run ∷ []) two_jobs)
schedule_lem_example = schedule_lem (job_barrier 23 ∷ job_run ∷ []) two_jobs refl

fetch_work-Taken_example :
    (t : Taken two_jobs.jobs_queue (fetch_work two_jobs)) × (1 ≤ length t.jobs)
fetch_work-Taken_example = fetch_work-Taken two_jobs refl (omega arith)

-- Of 24 threads, two have called, and one of the two went on without a broadcast.
abbrev one_early : Barrier
one_early = record { count = 21; waiting = 1; passed = 1 }

one_early-Run : Run 24 2 1 one_early
unfolding arrive wake
one_early-Run = wakes (arrives (arrives here)) refl

Run-passed_example :
    (one_early.passed ≡ (if ltb 2 24 then 1 else 2))
    × (one_early.waiting ≡ (if ltb 2 24 then 2 - 1 else 0))
Run-passed_example = Run-passed 24 (omega arith) one_early-Run
