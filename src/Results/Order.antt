-- ===== src/Results/Order.antt =====
-- The jobs of a batch: all words are hashed before results are generated, and the results of every word
-- before those of the documents are collected.
use sigmod_programming_conte.Base.{
  ℕ, zero, suc, ◌+◌, ◌-◌, ◌≤◌, ◌<◌, ◌≡◌, refl, ap, true, ◌&&◌, List, [], ◌∷◌, ◌++◌, ◌==◌,
  if◌then◌else◌, to_nat, arith, count, Bool-cases, inl, inr, ==→eq,
}
use sigmod_programming_conte.Base.Bits.{passes, passes_at}
use sigmod_programming_conte.Jobs.Defs.{
  Job, job_gen_hashes, job_gen_hashes_token, job_gen_res, job_generate_res, stop_job, job_run,
  job_barrier, job_dedup, job_match_prune_qd3, job_match_prune_qd2, job_match_prune_qd1,
  job_match_prune_qd0, job_match_prune1,
}
use sigmod_programming_conte.Jobs.Split.{split, split_from}
use sigmod_programming_conte.Jobs.Scheduler.{JobScheduler}
use sigmod_programming_conte.Jobs.Fetch.{IsCounted, schedule_lem}
use sigmod_programming_conte.Results.Schedule.{gen_hashes_list, split_gen_hashes}

-- How often a list has the hashing job of length `i` with `j` bytes left out, and that of the query words.
abbrev pub hash_jobs : ℕ → ℕ → List Job → ℕ
hash_jobs i j [] = 0
hash_jobs i j (job_gen_hashes length_ sec ∷ jobs) =
    to_nat (i == length_ && j == sec) + hash_jobs i j jobs
hash_jobs i j (_ ∷ jobs) = hash_jobs i j jobs

abbrev pub token_jobs : ℕ → List Job → ℕ
token_jobs i [] = 0
token_jobs i (job_gen_hashes_token length_ sec ∷ jobs) =
    to_nat (i == length_ && 0 == sec) + token_jobs i jobs
token_jobs i (_ ∷ jobs) = token_jobs i jobs

once_table : passes (λ i. passes (λ j. hash_jobs i (j + 1) gen_hashes_list == 1) 3) 28 ≡ true
unfolding passes gen_hashes_list
once_table = refl

token_table : passes (λ i. token_jobs i gen_hashes_list == 1) 28 ≡ true
unfolding passes gen_hashes_list
token_table = refl

-- `SplitGenHashes` adds a list of jobs at the end of the queue in which, for each of the 28 lengths, the job that
-- hashes the document words with one, two and three bytes left out, and the job for the query words, stand exactly once each.
pub split_gen_hashes_lem :
    (js : JobScheduler) (i j : ℕ)
    → IsCounted js
    → i < 28
    → 1 ≤ j
    → j ≤ 3
    → (jobs : List Job) × ((split_gen_hashes js).jobs_queue ≡ js.jobs_queue ++ jobs)
      × (hash_jobs i j jobs ≡ 1)
      × (token_jobs i jobs ≡ 1)
unfolding split_gen_hashes
split_gen_hashes_lem js i j counted hi low high =
    let row =
      passes_at (λ i. passes (λ j. hash_jobs i (j + 1) gen_hashes_list == 1) 3) 28 i hi
        once_table in
    let at_j =
      passes_at (λ j. hash_jobs i (j + 1) gen_hashes_list == 1) 3 (j - 1) (omega arith) row in
    let same : j - 1 + 1 ≡ j = omega arith in
    (
      gen_hashes_list,
      (schedule_lem gen_hashes_list js counted).0,
      rw same at (==→eq _ 1 at_j),
      ==→eq _ 1 (passes_at (λ i. token_jobs i gen_hashes_list == 1) 28 i hi token_table),
    )

-- The ranges of the jobs that generate the results of the words at place `x` of `wordbatchv`.
abbrev pub ranges : ℕ → List Job → List (ℕ × ℕ)
ranges x [] = []
ranges x (job_gen_res start finish length_ ∷ jobs) =
    let rest = ranges x jobs in if x == length_ then (start, finish) ∷ rest else rest
ranges x (_ ∷ jobs) = ranges x jobs

pub ranges-append :
    (x : ℕ) (jobs more : List Job) → ranges x (jobs ++ more) ≡ ranges x jobs ++ ranges x more
ranges-append x [] more = refl
ranges-append x (job_gen_res start finish length_ ∷ jobs) more = elim (Bool-cases (x == length_)) [
  | inl e ↦ rw e (ap (λ l. (start, finish) ∷ l) (ranges-append x jobs more))
  | inr e ↦ rw e (ranges-append x jobs more)
]
ranges-append x (stop_job ∷ jobs) more = ranges-append x jobs more
ranges-append x (job_run ∷ jobs) more = ranges-append x jobs more
ranges-append x (job_barrier count ∷ jobs) more = ranges-append x jobs more
ranges-append x (job_dedup dn doc_id spot ∷ jobs) more = ranges-append x jobs more
ranges-append x (job_gen_hashes l sec ∷ jobs) more = ranges-append x jobs more
ranges-append x (job_gen_hashes_token l sec ∷ jobs) more = ranges-append x jobs more
ranges-append x (job_match_prune_qd3 q d s e ∷ jobs) more = ranges-append x jobs more
ranges-append x (job_match_prune_qd2 q d s e ∷ jobs) more = ranges-append x jobs more
ranges-append x (job_match_prune_qd1 q d s e ∷ jobs) more = ranges-append x jobs more
ranges-append x (job_match_prune_qd0 q d s e ∷ jobs) more = ranges-append x jobs more
ranges-append x (job_match_prune1 q d s e ∷ jobs) more = ranges-append x jobs more
ranges-append x (job_generate_res document ∷ jobs) more = ranges-append x jobs more

abbrev pub gen_res : ℕ → ℕ → ℕ → Job
gen_res l start finish = job_gen_res start finish l

ranges-split_from :
    (x l wpj size fuel k : ℕ)
    → ranges x (split_from (gen_res l) wpj size fuel k)
      ≡ (if x == l then split_from (λ a b. (a, b)) wpj size fuel k else [])
unfolding split_from
ranges-split_from x l wpj size zero k = ground arith
ranges-split_from x l wpj size (suc fuel) k =
    ground (arith, ranges-split_from x l wpj size fuel (k + wpj))

pub ranges-split :
    (x l wpj size : ℕ)
    → ranges x (split (gen_res l) wpj size)
      ≡ (if x == l then split (λ a b. (a, b)) wpj size else [])
unfolding split
ranges-split x l wpj size = ranges-split_from x l wpj size size 0
