-- ===== src/Jobs/Scheduler.antt =====
-- JobScheduler/job_scheduler.{h,cpp}: the queue of jobs under its lock. Each operation holds
-- `mtx_availableWork` from start to end, so it is one step.
use sigmod_programming_conte.Base.{
  ℕ, zero, suc, ◌+◌, ◌-◌, ◌*◌, ◌/◌, Bool, true, false, Option, none, some, List, [], ◌∷◌, ◌++◌, ltb,
  leb, ◌==◌, if◌then◌else◌, ◌>>=◌, ◌>>◌, require,
}
use sigmod_programming_conte.Jobs.Defs.{Job, stop_job, is_barrier, get_weight}

-- The weights are `int`, but a weight that is not positive is taken off the list at once, so
-- truncated subtraction agrees.
pub record JobScheduler : Type 0 where
  pub available_work : ℕ
  pub available_weights : List ℕ
  pub jobs_queue : List Job

-- The constructor.
abbrev pub new_scheduler : JobScheduler
new_scheduler = record { available_work = 0; available_weights = []; jobs_queue = [] }

-- `availableWeights.back() += weight`, on a list that is made if it is empty.
unfoldable pub add_weight : ℕ → List ℕ → List ℕ
add_weight weight [] = weight ∷ []
add_weight weight (w ∷ []) = (w + weight) ∷ []
add_weight weight (w ∷ v ∷ ws) = w ∷ add_weight weight (v ∷ ws)

-- `Schedule` of one job.
unfoldable pub schedule_job : Job → JobScheduler → JobScheduler
schedule_job job s = record {
  available_work = s.available_work + 1;
  available_weights = add_weight (get_weight job) s.available_weights;
  jobs_queue = s.jobs_queue ++ job ∷ [];
}

-- The loop of `Schedule`.
unfoldable pub schedule_all : List Job → JobScheduler → JobScheduler
schedule_all [] s = s
schedule_all (job ∷ jobs) s = schedule_all jobs (schedule_job job s)

-- A list of jobs that starts with a barrier starts a new weight.
unfoldable pub new_weight : List Job → JobScheduler → JobScheduler
new_weight [] s = s
new_weight (job ∷ jobs) s =
    if is_barrier job then record s { available_weights = 0 ∷ s.available_weights } else s

-- `Schedule` of a list.
unfoldable pub schedule : List Job → JobScheduler → JobScheduler
schedule jobs s = schedule_all jobs (new_weight jobs s)

-- The destructor pushes one null pointer for each thread.
unfoldable pub stop_all : ℕ → JobScheduler → JobScheduler
stop_all zero s = s
stop_all (suc threads) s =
    stop_all threads (record s {
      available_work = s.available_work + 1;
      jobs_queue = s.jobs_queue ++ stop_job ∷ [];
    })

-- `maxWeight`: the share of the first weight, and at least 1. There are 24 threads.
unfoldable pub max_weight : List ℕ → ℕ
max_weight [] = 1
max_weight (w ∷ ws) = let share = w / (128 * 24) in if ltb share 1 then 1 else share

-- The first weight without the weight of a job.
unfoldable pub take_weight : ℕ → List ℕ → List ℕ
take_weight weight [] = []
take_weight weight (w ∷ ws) = if leb w weight then ws else (w - weight) ∷ ws

unfoldable pub is_stop : Job → Bool
is_stop stop_job = true
is_stop _ = false

-- The loop of `fetchWork`, for `work` available jobs: the jobs that are taken, and what is left. An
-- empty queue here is undefined behaviour.
unfoldable pub fetch_loop : ℕ → ℕ → List ℕ → List Job → Option (List Job × JobScheduler)
fetch_loop zero budget weights queue =
    some ([], record { available_work = 0; available_weights = weights; jobs_queue = queue })
fetch_loop (suc work) budget weights [] =
    if budget == 0
    then some
        ([], record { available_work = suc work; available_weights = weights; jobs_queue = [] })
    else none
fetch_loop (suc work) budget weights (next ∷ queue) =
    let left = take_weight (get_weight next) weights in
    let rest = fetch_loop work (budget - get_weight next) left queue in
    if budget == 0
    then some (
      [],
      record { available_work = suc work; available_weights = weights; jobs_queue = next ∷ queue },
    )
    else if is_stop next
    then some (
      next ∷ [],
      record { available_work = work; available_weights = weights; jobs_queue = queue },
    )
    else if is_barrier next
    then some
        (next ∷ [], record { available_work = work; available_weights = left; jobs_queue = queue })
    else (rest >>= λ r. some (next ∷ r.0, r.1))

-- `fetchWork`, from the moment that work is available: without work the thread waits.
unfoldable pub fetch_work : JobScheduler → Option (List Job × JobScheduler)
fetch_work s = do
  require (ltb 0 s.available_work)
  fetch_loop s.available_work (max_weight s.available_weights) s.available_weights s.jobs_queue

-- The inner loop of `threadExecute`: the jobs that are run, and whether the thread ends then.
unfoldable pub run_until_stop : List Job → List Job × Bool
run_until_stop [] = ([], false)
run_until_stop (job ∷ jobs) =
    let rest = run_until_stop jobs in if is_stop job then ([], true) else (job ∷ rest.0, rest.1)
