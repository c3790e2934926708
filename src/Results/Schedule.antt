-- ===== src/Results/Schedule.antt =====
-- The jobs of a batch in the order in which they are scheduled: MatchStuff/MatchAll.cpp, MatchStuff/Results.cpp
-- and JobScheduler/JobRun.cpp. There are 24 threads. `nojobleft`, which waits for the queue to be empty, is left out.
use sigmod_programming_conte.Base.{
  ℕ, zero, suc, ◌+◌, ◌-◌, ◌/◌, min, ◌&&◌, Option, some, List, [], ◌∷◌, ◌++◌, map, length, get_elem?,
  replicate, leb, if◌then◌else◌, ◌>>=◌,
}
use sigmod_programming_conte.Core.{CString, TokenId}
use sigmod_programming_conte.Library.{DenseMap}
use sigmod_programming_conte.Space.Defs.{Space}
use sigmod_programming_conte.Manager.Defs.{Manager}
use sigmod_programming_conte.Jobs.Defs.{
  Job, job_barrier, job_gen_hashes, job_gen_hashes_token, job_gen_res, job_generate_res,
}
use sigmod_programming_conte.Jobs.Split.{split}
use sigmod_programming_conte.Jobs.Scheduler.{JobScheduler, schedule}

abbrev pub threads : ℕ
threads = 24

-- The values of a loop variable that goes up from `first`, and of one that goes down to `last`.
abbrev pub up_from : ℕ → ℕ → List ℕ
up_from first zero = []
up_from first (suc rounds) = first ∷ up_from (first + 1) rounds

abbrev pub down_to : ℕ → ℕ → List ℕ
down_to last zero = []
down_to last (suc rounds) = (last + rounds) ∷ down_to last rounds

-- What the rounds of a loop push, one after the other.
abbrev pub each : (ℕ → List Job) → List ℕ → List Job
each body [] = []
each body (i ∷ is) = body i ++ each body is

-- `if (i >= 7 && i <= 10) continue`.
abbrev pub unless_common : ℕ → List Job → List Job
unless_common i jobs = if leb 7 i && leb i 10 then [] else jobs

-- The barriers of all threads; `count` is what they count down from.
abbrev pub barriers : ℕ → List Job
barriers count = replicate threads (job_barrier count)

-- The jobs of `SplitGenHashes`, the common lengths first.
unfoldable pub gen_hashes_list : List Job
gen_hashes_list =
    each (λ j. each (λ i. job_gen_hashes i j ∷ []) (up_from 7 4)) (down_to 1 3)
    ++ (each (λ i. job_gen_hashes_token i 0 ∷ []) (up_from 7 4)
        ++ (each (λ i. unless_common i (each (λ j. job_gen_hashes i j ∷ []) (down_to 1 3)))
              (down_to 0 28)
            ++ (each (λ i. unless_common i (job_gen_hashes_token i 0 ∷ [])) (down_to 0 28)
                ++ barriers (threads - 1))))

-- `SplitGenHashes`.
unfoldable pub split_gen_hashes : JobScheduler → JobScheduler
split_gen_hashes js = schedule gen_hashes_list js

module _ {H : Type 0} (dict : DenseMap CString TokenId) where
  -- `sum+=indexes_[i].max_tokens_`, with the rounds left.
  unfoldable pub sum_tokens : List (Space H) → ℕ → ℕ → Option ℕ
  sum_tokens indexes zero i = some 0
  sum_tokens indexes (suc n) i = do
    s ← get_elem? indexes i
    sum ← sum_tokens indexes n (i + 1)
    some (s.max_tokens + sum)

  -- `BatchQtokens`: the fresh query words of about this length. A first place below 0 is 0.
  unfoldable pub batch_qtokens : ℕ → Manager dict.Map H → Option ℕ
  batch_qtokens space m =
      let first = space - 4 - 3 in sum_tokens m.indexes (min (space - 4 + 3) 27 - first) first

  -- `scheduleGenRes`, for words of `length_` bytes.
  unfoldable pub schedule_gen_res :
      Manager dict.Map H → List (List ℕ) → ℕ → JobScheduler → Option JobScheduler
  schedule_gen_res m wordbatchv length_ js = do
    keys ← get_elem? wordbatchv (length_ - 4)
    qtokens ← batch_qtokens (length_ - 4 + 4) m
    let words_per_job = length keys / (qtokens + 1) / 4 + 1
    some (
        schedule
          (split (λ start finish. job_gen_res start finish (length_ - 4)) words_per_job
            (length keys))
          js)

  -- The loops of `SplitGenerateRes` over the lengths.
  unfoldable pub schedule_lengths :
      Manager dict.Map H → List (List ℕ) → List ℕ → JobScheduler → Option JobScheduler
  schedule_lengths m wordbatchv [] js = some js
  schedule_lengths m wordbatchv (l ∷ ls) js = do
    js' ← schedule_gen_res m wordbatchv l js
    schedule_lengths m wordbatchv ls js'

  -- `SplitGenerateRes`, for the documents that were read.
  unfoldable pub split_generate_res :
      Manager dict.Map H → List (List ℕ) → List ℕ → JobScheduler → Option JobScheduler
  split_generate_res m wordbatchv globaldocs js = do
    let js1 = schedule (barriers (threads - 1)) js
    js2 ← schedule_lengths m wordbatchv (down_to 4 5) js1
    js3 ← schedule_lengths m wordbatchv (up_from 9 23) js2
    let js4 = schedule (barriers (threads - 1)) js3
    some (schedule (map job_generate_res (up_from 0 (length globaldocs))) js4)

  -- `JobRun::Run`, after the new bitarea.
  unfoldable pub run_batch :
      Manager dict.Map H → List (List ℕ) → List ℕ → JobScheduler → Option JobScheduler
  run_batch m wordbatchv globaldocs js =
      split_generate_res m wordbatchv globaldocs (split_gen_hashes js)
