-- ===== src/Interface/Orderly.antt =====
-- The counters of the interface: what holds of them between the calls and the jobs.
use sigmod_programming_conte.Base.{
  ℕ, ◌+◌, ◌≤◌, ◌≡◌, true, false, ◌||◌, some, length, ltb, if◌then◌else◌, to_nat, arith,
}
use sigmod_programming_conte.Interface.Server.{Server, enter_queries, request_results}

module _ {M X R : Type 0} where
  -- The documents that were read and have no `JobGenerateRes` yet.
  abbrev pub waiting : Server M X R → ℕ
  waiting s = if s.gnflag || ltb 0 s.job_runs then length s.globaldocs else 0

  -- Each document of the batch that is not yet returned is with one job or among the results. While documents come
  -- in, nothing is generated. Queries change only between batches, which `batch_end` lets them do once.
  pub record IsOrderly (s : Server M X R) : Type 0 where
    pub counted : s.res_avail ≡ length s.docs
    pub entered : s.matching ≡ true → (s.docsofbatch ≡ 0) × (s.batch_end ≡ 0)
    pub outside : s.matching ≡ false → s.batch_end + to_nat (ltb 0 s.docsofbatch) ≡ 1
    pub outstanding :
        s.docsofbatch ≡ length (s.documents).pending + waiting s + length s.gen_jobs + length s.docs
    pub collecting :
        s.gnflag ≡ true → (s.job_runs ≡ 0) × (length s.gen_jobs ≡ 0) × (length s.docs ≡ 0)
    pub asked : s.gnflag ≡ false → s.job_runs ≡ 0 → length (s.documents).pending ≡ 0
    pub single : s.job_runs ≤ 1
    pub first : s.job_runs ≡ 1 → (length s.gen_jobs ≡ 0) × (length s.docs ≡ 0)
    pub busy : (s.gnflag || ltb 0 s.job_runs) ≡ true → 1 ≤ s.docsofbatch
    pub idle : s.docsofbatch ≡ 0 → length s.globaldocs ≡ 0

  -- The counters of two states agree.
  pub record Frame (s t : Server M X R) : Type 0 where
    pub matching : t.matching ≡ s.matching
    pub gnflag : t.gnflag ≡ s.gnflag
    pub batch_end : t.batch_end ≡ s.batch_end
    pub docsofbatch : t.docsofbatch ≡ s.docsofbatch
    pub res_avail : t.res_avail ≡ s.res_avail
    pub docs : t.docs ≡ s.docs
    pub globaldocs : t.globaldocs ≡ s.globaldocs
    pub documents : t.documents ≡ s.documents
    pub job_runs : t.job_runs ≡ s.job_runs
    pub gen_jobs : t.gen_jobs ≡ s.gen_jobs

  pub Frame-IsOrderly : (s t : Server M X R) → Frame s t → IsOrderly s → IsOrderly t
  Frame-IsOrderly s t f inv = ground arith

  pub enter_queries-IsOrderly :
      (s t : Server M X R)
      → enter_queries s ≡ some t
      → IsOrderly s
      → IsOrderly t × (t.matching ≡ true)
  unfolding enter_queries
  enter_queries-IsOrderly s t run inv = ground arith

  pub request_results-IsOrderly : (s : Server M X R) → IsOrderly s → IsOrderly (request_results s)
  unfolding request_results
  request_results-IsOrderly s inv = ground arith
