-- ===== src/Tests/Batch.antt =====
-- The theorems on the results of a batch and on its jobs, at concrete inputs.
use sigmod_programming_conte.Base.{
  ℕ, zero, suc, ◌≡◌, refl, true, false, none, some, Option, List, [], ◌∷◌, ◌++◌, map, count,
  replicate, arith, All, ℕ_discrete,
}
use sigmod_programming_conte.Base.Bits.{has_bit}
use sigmod_programming_conte.Core.{CString, TokenId, hamming_dist}
use sigmod_programming_conte.Library.Assoc.{words, table}
use sigmod_programming_conte.Token.Defs.{TokenInfo, TokenQmidInfo, new_token}
use sigmod_programming_conte.Space.Defs.{Space, init_space}
use sigmod_programming_conte.Manager.Defs.{Manager, new_manager, manager_token_info}
use sigmod_programming_conte.Matching.Relations.{WordSat, get_tids}
use sigmod_programming_conte.Queries.Order.{IsSorted}
use sigmod_programming_conte.Queries.Index.{QueryInfo, info_at}
use sigmod_programming_conte.Jobs.Defs.{Job, job_generate_res}
use sigmod_programming_conte.Jobs.Scheduler.{JobScheduler, new_scheduler}
use sigmod_programming_conte.Results.Bitarea.{QmidInfo, Bitarea, check_qmid, new_bitarea}
use sigmod_programming_conte.Results.Sort.{results}
use sigmod_programming_conte.Results.Ids.{occurrences, AreChecked, AreSorted, results-IsSorted}
use sigmod_programming_conte.Results.Generate.{wid_of, run_gen_jobs}
use sigmod_programming_conte.Results.Generated.{Fits}
use sigmod_programming_conte.Results.Schedule.{
  up_from, barriers, gen_hashes_list, split_gen_hashes, run_batch,
}
use sigmod_programming_conte.Results.Order.{hash_jobs, token_jobs, split_gen_hashes_lem}
use sigmod_programming_conte.Results.Cover.{BatchFits}
use sigmod_programming_conte.Results.Answers.{sizes, answers, counts, run_gen_jobs-results}
use sigmod_programming_conte.Results.Shares.{IsGenRes, Covers}
use sigmod_programming_conte.Results.Batch.{run_batch-Adds}

-- Three entries of one word each. Document 1 has the words of the first and the last.
abbrev entry : List ℕ → QueryInfo
entry qids = record { qids = qids; tids = []; type_ = hamming_dist; dist_ = 1 }

abbrev entries : List QueryInfo
entries = entry (4 ∷ 9 ∷ []) ∷ entry (5 ∷ []) ∷ entry (2 ∷ 6 ∷ []) ∷ []

abbrev cell : ℕ → QmidInfo
cell found = record { token = found ∷ 0 ∷ 0 ∷ 0 ∷ 0 ∷ []; count = 1 }

abbrev area : Bitarea
area = record { vault_ = (cell 1 ∷ cell 0 ∷ cell 1 ∷ []) ∷ []; size_ = 3; ndocs_ = 1 }

are_checked : AreChecked entries area 1
unfolding check_qmid
are_checked zero low high = absurd (omega arith)
are_checked (suc zero) low high = (true, refl)
are_checked (suc (suc zero)) low high = (false, refl)
are_checked (suc (suc (suc zero))) low high = (true, refl)
are_checked (suc (suc (suc (suc n)))) low high = absurd (omega arith)

are_sorted : AreSorted entries area 1
unfolding info_at
are_sorted zero info h = absurd (ground arith)
are_sorted (suc zero) info h = ground arith
are_sorted (suc (suc zero)) info h = ground arith
are_sorted (suc (suc (suc zero))) info h = ground arith
are_sorted (suc (suc (suc (suc n)))) info h = absurd (ground arith)

results-IsSorted_example :
    (out : List ℕ) × (results entries area 1 ≡ some out)
    × IsSorted out
    × ((a : ℕ) → count a out ≡ occurrences entries area 1 a 3 1)
results-IsSorted_example =
    results-IsSorted entries area 1 (omega arith) are_checked (omega arith) are_sorted

-- The word "rain" is in document 1, and query entry 2 asks for it with Hamming distance 1.
abbrev rain : CString
rain = 114 ∷ 97 ∷ 105 ∷ 110 ∷ []

abbrev pointer : List (Option (List TokenQmidInfo))
pointer =
    none ∷ some (record { qmid_ = 2; position_ = 0 } ∷ []) ∷ none ∷ none ∷ none ∷ none ∷ none ∷ []

abbrev word : TokenInfo
word = record (new_token rain) { docpointer = some (1 ∷ []); querypointer = pointer }

abbrev space : Space ℕ
space = record (init_space 0 0) { tokens = word ∷ [] }

abbrev manager : Manager (List (CString × TokenId)) ℕ
manager = record (new_manager (words TokenId) 0) { indexes = space ∷ replicate 27 (init_space 0 0) }

abbrev rain_id : TokenId
rain_id = record { length_ = 4; id_ = 0 }

abbrev relations : List (List (ℕ × List WordSat))
relations = ((4, record { tid = rain_id; matchtype = 126 } ∷ []) ∷ []) ∷ [] ∷ []

stored : manager_token_info (words TokenId) (wid_of 4) manager ≡ some word
unfolding manager_token_info wid_of
stored = refl

stored_query : manager_token_info (words TokenId) rain_id manager ≡ some word
unfolding manager_token_info
stored_query = refl

fits :
    Fits
      (words TokenId)
      (table (List WordSat))
      2
      3
      manager
      4
      (record { tid = rain_id; matchtype = 126 })
fits = record {
  dt = word;
  qt = word;
  word = stored;
  query = stored_query;
  are_docs = ((omega arith, omega arith), tt);
  in_range =
      (tt, (((omega arith, omega arith, omega arith), tt), (tt, (tt, (tt, (tt, (tt, tt)))))));
  seven = refl;
}

split_gen_hashes_lem_example :
    (jobs : List Job) × ((split_gen_hashes new_scheduler).jobs_queue ≡ [] ++ jobs)
    × (hash_jobs 4 2 jobs ≡ 1)
    × (token_jobs 4 jobs ≡ 1)
split_gen_hashes_lem_example =
    split_gen_hashes_lem new_scheduler 4 2 refl (omega arith) (omega arith) (omega arith)

-- A batch with the word "rain".
abbrev wordbatchv : List (List ℕ)
wordbatchv = (4 ∷ []) ∷ replicate 27 []

scheduled :
    (js' : JobScheduler) × (res_jobs : List Job) × (run_batch
        (words TokenId)
        manager
        wordbatchv
        (1 ∷ 2 ∷ [])
        new_scheduler
      ≡ some js')
    × (js'.jobs_queue
        ≡ []
          ++ (gen_hashes_list
              ++ (barriers 23
                  ++ (res_jobs ++ (barriers 23 ++ map job_generate_res (up_from 0 2))))))
    × All IsGenRes res_jobs
    × All (λ x. Covers wordbatchv x res_jobs) (up_from 0 28)
scheduled =
    run_batch-Adds (words TokenId) manager wordbatchv refl refl (1 ∷ 2 ∷ []) new_scheduler refl

run_batch-Adds_example :
    (js' : JobScheduler) × (res_jobs : List Job) × (run_batch
        (words TokenId)
        manager
        wordbatchv
        (1 ∷ 2 ∷ [])
        new_scheduler
      ≡ some js')
    × (js'.jobs_queue
        ≡ []
          ++ (gen_hashes_list
              ++ (barriers 23
                  ++ (res_jobs ++ (barriers 23 ++ map job_generate_res (up_from 0 2))))))
    × All IsGenRes res_jobs
    × All (λ x. Covers wordbatchv x res_jobs) (up_from 0 28)
run_batch-Adds_example =
    run_batch-Adds (words TokenId) manager wordbatchv refl refl (1 ∷ 2 ∷ []) new_scheduler refl

-- Entry 2 asks for the word, so its id 5 is returned for document 1.
abbrev one_word : List ℕ → QueryInfo
one_word qids = record { qids = qids; tids = rain_id ∷ []; type_ = hamming_dist; dist_ = 1 }

abbrev queries : List QueryInfo
queries = one_word (4 ∷ 9 ∷ []) ∷ one_word (5 ∷ []) ∷ one_word (2 ∷ 6 ∷ []) ∷ []

batch_fits : BatchFits (words TokenId) (table (List WordSat)) 2 3 manager relations wordbatchv
unfolding get_tids ℕ_discrete
batch_fits = ((((fits, tt), (tt, tt)), tt), omega arith)

counted :
    answers
      (counts (words TokenId) (table (List WordSat)) 2 manager relations wordbatchv queries)
      5
      0
      0
      queries
    ≡ 1
unfolding get_tids ℕ_discrete manager_token_info wid_of has_bit
counted = refl

run_gen_jobs-results_example :
    (b : Bitarea) × (out : List ℕ) × (run_gen_jobs
        (words TokenId)
        (table (List WordSat))
        manager
        relations
        wordbatchv
        (scheduled.1)
        (new_bitarea (sizes queries) 2)
      ≡ some b)
    × (results queries b 1 ≡ some out)
    × IsSorted out
    × ((a : ℕ)
        → count a out
          ≡ answers
              (counts (words TokenId) (table (List WordSat)) 2 manager relations wordbatchv queries)
              a
              0
              0
              queries)
run_gen_jobs-results_example =
    run_gen_jobs-results (words TokenId) (table (List WordSat)) 2 manager relations wordbatchv
      queries (scheduled.1) 1 (omega arith) (omega arith) refl (scheduled.4) (scheduled.5)
      batch_fits (omega arith)
