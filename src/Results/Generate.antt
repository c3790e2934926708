-- ===== src/Results/Generate.antt =====
-- MatchStuff/Results.cpp: `GenerateRes`, which turns the matches of the words of a batch into flags. The
-- threads set flags of the one bitarea at the same time; a flag is only ever set to 1, and here one word comes after the other.
use sigmod_programming_conte.Base.{
  ℕ, zero, suc, ◌+◌, ◌-◌, ◌/◌, ◌%◌, Option, none, some, List, [], ◌∷◌, get_elem?, ◌>>=◌,
}
use sigmod_programming_conte.Core.{CString, TokenId}
use sigmod_programming_conte.Library.{DenseMap}
use sigmod_programming_conte.Manager.Defs.{Manager, manager_token_info}
use sigmod_programming_conte.Jobs.Defs.{Job, job_gen_res}
use sigmod_programming_conte.Matching.Relations.{WordSat, get_tids}
use sigmod_programming_conte.Results.Bitarea.{Bitarea, set_stauros}

-- The word of a key.
unfoldable pub wid_of : ℕ → TokenId
wid_of ittt = record { length_ = ittt % 100; id_ = ittt / 100 }

module _ {H : Type 0} (dict : DenseMap CString TokenId) (tables : DenseMap ℕ (List WordSat)) where
  -- The innermost loop: the query words that a thread found for the word.
  unfoldable pub generate_tids : Manager dict.Map H → ℕ → List WordSat → Bitarea → Option Bitarea
  generate_tids m ittt [] b = some b
  generate_tids m ittt (x ∷ cur_tids) b = do
    qt ← manager_token_info dict x.tid m
    dt ← manager_token_info dict (wid_of ittt) m
    b' ← set_stauros dt.docpointer qt.querypointer x.matchtype b
    generate_tids m ittt cur_tids b'

  -- `if (wttid == NULL) continue`.
  unfoldable pub generate_vector :
      Manager dict.Map H → ℕ → Option (List WordSat) → Bitarea → Option Bitarea
  generate_vector m ittt none b = some b
  generate_vector m ittt (some cur_tids) b = generate_tids m ittt cur_tids b

  -- The middle loop: the relations of the threads.
  unfoldable pub generate_rels : Manager dict.Map H → ℕ → List tables.Map → Bitarea → Option Bitarea
  generate_rels m ittt [] b = some b
  generate_rels m ittt (rel ∷ rels) b = do
    b' ← generate_vector m ittt (get_tids tables ittt rel) b
    generate_rels m ittt rels b'

  -- The outer loop, with the rounds left.
  unfoldable pub generate_words :
      Manager dict.Map H → List tables.Map → List ℕ → ℕ → ℕ → Bitarea → Option Bitarea
  generate_words m rels keys zero i b = some b
  generate_words m rels keys (suc n) i b = do
    ittt ← get_elem? keys i
    b' ← generate_rels m ittt rels b
    generate_words m rels keys n (i + 1) b'

  -- `GenerateRes`; `JobGenRes::Run` is the call of it.
  unfoldable pub generate_res :
      Manager dict.Map H → List tables.Map → List (List ℕ) → ℕ → ℕ → ℕ → Bitarea → Option Bitarea
  generate_res m rels wordbatchv start finish length_ b = do
    keys ← get_elem? wordbatchv length_
    generate_words m rels keys (finish - start) start b

  -- What a job of `js` does to the flags: only `JobGenRes` sets any.
  unfoldable pub run_gen_job :
      Manager dict.Map H → List tables.Map → List (List ℕ) → Job → Bitarea → Option Bitarea
  run_gen_job m rels wordbatchv (job_gen_res start finish length_) b =
      generate_res m rels wordbatchv start finish length_ b
  run_gen_job m rels wordbatchv _ b = some b

  unfoldable pub run_gen_jobs :
      Manager dict.Map H → List tables.Map → List (List ℕ) → List Job → Bitarea → Option Bitarea
  run_gen_jobs m rels wordbatchv [] b = some b
  run_gen_jobs m rels wordbatchv (job ∷ jobs) b = do
    b' ← run_gen_job m rels wordbatchv job b
    run_gen_jobs m rels wordbatchv jobs b'
