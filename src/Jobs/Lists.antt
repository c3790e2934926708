-- ===== src/Jobs/Lists.antt =====
-- The jobs that follow a hashing job: one range of queue entries after another, for the lengths
-- near the one that was hashed.
use sigmod_programming_conte.Base.{
  ◌||◌, ℕ, zero, suc, ◌+◌, ◌-◌, Option, some, List, [], ◌++◌, length, ltb, ◌==◌, if◌then◌else◌,
  ◌>>=◌,
}
use sigmod_programming_conte.Core.{CString, TokenId}
use sigmod_programming_conte.Library.{DenseMap}
use sigmod_programming_conte.Space.Defs.{Space}
use sigmod_programming_conte.Manager.Defs.{Manager, space_at}
use sigmod_programming_conte.Jobs.Defs.{
  Job, job_match_prune_qd3, job_match_prune_qd2, job_match_prune_qd1, job_match_prune_qd0,
  job_match_prune1,
}
use sigmod_programming_conte.Jobs.Split.{split}

-- A loop over `count` values of `j`, from `first - back` on: lengths below 0 and above 27 are skipped.
unfoldable pub lengths_loop : (ℕ → Option (List Job)) → ℕ → ℕ → ℕ → ℕ → Option (List Job)
lengths_loop body length_ back first zero = some []
lengths_loop body length_ back first (suc count) = do
  let rest = lengths_loop body length_ back (first + 1) count
  jobs ←
      if ltb (length_ + first) back || ltb 27 (length_ + first - back)
      then some []
      else body (length_ + first - back)
  more ← rest
  some (jobs ++ more)

module _ {H : Type 0} (dict : DenseMap CString TokenId) where
  open dict use {Map}

  -- The body of a loop over `j`, for the length `i = length + j`: the jobs of one queue.
  unfoldable pub queue_jobs :
      (Space H → List ℕ) → (ℕ → ℕ → ℕ → ℕ → Job) → ℕ → ℕ → ℕ → Manager Map H → Option (List Job)
  queue_jobs queue make wpj doc i m = do
    s ← space_at dict m i
    some (split (make (i + 4) (doc + 4)) wpj (length (queue s)))

  abbrev pub qd3_jobs : ℕ → Manager Map H → ℕ → Option (List Job)
  qd3_jobs doc m i = queue_jobs (λ s. s.qbrandnew3) job_match_prune_qd3 1 doc i m

  abbrev pub qd2_jobs : ℕ → Manager Map H → ℕ → Option (List Job)
  qd2_jobs doc m i = queue_jobs (λ s. s.qbrandnew2) job_match_prune_qd2 1 doc i m

  abbrev pub qd1_jobs : ℕ → Manager Map H → ℕ → Option (List Job)
  qd1_jobs doc m i = queue_jobs (λ s. s.qbrandnew1) job_match_prune_qd1 30 doc i m

  abbrev pub qd0_jobs : ℕ → Manager Map H → ℕ → Option (List Job)
  qd0_jobs doc m i = queue_jobs (λ s. s.qbrandnew0) job_match_prune_qd0 30 doc i m

  -- The last part of `JobGenHashes::Run`: the jobs for the words of `length`, by section.
  unfoldable pub gen_hashes_jobs : ℕ → ℕ → Manager Map H → Option (List Job)
  gen_hashes_jobs length_ sec m =
      if sec == 3
      then lengths_loop (qd3_jobs length_ m) length_ 0 0 4
      else if sec == 2
      then (do
        a ← lengths_loop (qd3_jobs length_ m) length_ 1 0 1
        b ← lengths_loop (qd2_jobs length_ m) length_ 0 0 3
        some (a ++ b))
      else if sec == 1
      then (do
        a ← lengths_loop (qd3_jobs length_ m) length_ 3 0 2
        b ← lengths_loop (qd2_jobs length_ m) length_ 2 0 2
        c ← lengths_loop (qd1_jobs length_ m) length_ 1 0 3
        d ← lengths_loop (qd0_jobs length_ m) length_ 0 0 1
        some (a ++ b ++ c ++ d))
      else some []

  -- The jobs of `JobGenHashesToken::Run`, in the order of the constructor's arguments.
  unfoldable pub token_jobs : ℕ → Manager Map H → Option (List Job)
  token_jobs length_ m =
      lengths_loop (λ i. queue_jobs (λ s. s.dbrandnew) (λ d q. job_match_prune1 d q) 1 length_ i m)
        length_ 3 0 7
