-- ===== src/Jobs/Defs.antt =====
-- JobScheduler/job.h and the classes of jobs, with their arguments. The null pointer that stops a thread
-- is a constructor.
use sigmod_programming_conte.Base.{ℕ, Bool, true, false, ◌||◌, ltb, if◌then◌else◌}

pub data Job : Type 0 where
  stop_job job_run : Job
  job_barrier : (count : ℕ) → Job
  job_dedup : (dn doc_id spot : ℕ) → Job
  job_gen_hashes job_gen_hashes_token : (length_ sec : ℕ) → Job
  job_match_prune_qd3 job_match_prune_qd2 job_match_prune_qd1 job_match_prune_qd0 :
      (querylength doclength start finish : ℕ) → Job
  job_match_prune1 : (doclength querylength start finish : ℕ) → Job
  job_gen_res : (start finish length_ : ℕ) → Job
  job_generate_res : (document : ℕ) → Job

-- `isBarier`.
unfoldable pub is_barrier : Job → Bool
is_barrier (job_barrier count) = true
is_barrier _ = false

-- `length < 7 || length > 13`.
unfoldable pub is_rare : ℕ → Bool
is_rare length_ = ltb length_ 7 || ltb 13 length_

-- `getWeight`.
unfoldable pub get_weight : Job → ℕ
get_weight (job_gen_hashes length_ sec) = if is_rare length_ then 5 else 30
get_weight (job_gen_hashes_token length_ sec) = if is_rare length_ then 10 else 50
get_weight (job_match_prune_qd3 q d s e) = 100
get_weight (job_match_prune_qd2 q d s e) = 30
get_weight _ = 1
