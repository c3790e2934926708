-- ===== src/Interface/Server.antt =====
-- top_impl.cpp: the globals, and what the functions of the interface do with them. A function that waits on a condition
-- has no result until it holds. Left out are `startq`, `newfile` and `cou`, which nothing reads.
use sigmod_programming_conte.Base.{
  ℕ, ◌+◌, ◌-◌, Bool, true, false, Option, none, some, List, [], ◌∷◌, ◌++◌, map, replicate, length,
  take, drop, get_elem?, set, ltb, ◌==◌, if◌then◌else◌, ◌>>=◌, ◌>>◌, require,
}
use sigmod_programming_conte.Core.{
  CString, MatchType, ErrorCode, ec_success, ec_no_avail_res, TokenId,
}
use sigmod_programming_conte.Library.{DenseMap}
use sigmod_programming_conte.Token.Defs.{clear_ids}
use sigmod_programming_conte.Space.Defs.{get_token_info}
use sigmod_programming_conte.Manager.Defs.{
  Manager, new_manager, space_at, put_space, manager_new_batch, manager_restart,
}
use sigmod_programming_conte.Queries.Index.{QueryInfo, QueryIndex, add_query, remove_query}
use sigmod_programming_conte.Matching.Relations.{WordSat}
use sigmod_programming_conte.Results.Bitarea.{Bitarea, new_bitarea}
use sigmod_programming_conte.Results.Generate.{wid_of, generate_res}
use sigmod_programming_conte.Results.Sort.{results}
use sigmod_programming_conte.Interface.Reading.{query_of}
use sigmod_programming_conte.Interface.Documents.{
  Documents, submit, next_document, free_spot, new_documents,
}
use sigmod_programming_conte.Interface.Dedup.{Batch, run_dedup}
use sigmod_programming_conte.Results.Schedule.{up_from, threads}

-- `Document`.
pub record Document : Type 0 where
  pub doc_id : ℕ
  pub num_res : ℕ
  pub query_ids : List ℕ

-- `docids`: the memory of the vector and its size. `clear` sets the size to 0, and the ids stay in the memory.
pub record DocIds : Type 0 where
  pub storage : List ℕ
  pub size : ℕ

unfoldable pub push_id : ℕ → DocIds → DocIds
push_id doc_id v = record {
  storage =
      if ltb v.size (length v.storage)
      then set v.storage v.size doc_id
      else v.storage ++ doc_id ∷ [];
  size = v.size + 1;
}

-- `docids[i]`, which is compiled to a read of the memory without a test of the size: past the memory nothing is known of it.
-- After `clear` the language leaves the read of an element undefined, and the program relies on it.
abbrev pub read_id : ℕ → DocIds → Option ℕ
read_id i v = get_elem? v.storage i

-- `matching` is `match`, `bits` is `results`. Of the jobs that are scheduled, `job_runs` counts the `JobRun`s, and `gen_jobs`
-- are the documents of the `JobGenerateRes`s.
pub record Server (M X R : Type 0) : Type 0 where
  pub matching : Bool
  pub gnflag : Bool
  pub runendrunned : Bool
  pub batch_end : ℕ
  pub docsofbatch : ℕ
  pub res_avail : ℕ
  pub docs : List Document
  pub docids : DocIds
  pub globaldocs : List ℕ
  pub batchno : ℕ
  pub our_id : ℕ
  pub documents : Documents
  pub job_runs : ℕ
  pub gen_jobs : List ℕ
  pub globalmanager : M
  pub indexx : X
  pub wordbatchv : List (List ℕ)
  pub rel : List R
  pub bits : Option Bitarea

-- The document that `JobGenerateRes::Run` adds.
unfoldable pub add_document : ℕ → List ℕ → List Document → List Document
add_document doc_id query_ids docs =
    docs ++ record { doc_id = doc_id; num_res = length query_ids; query_ids = query_ids } ∷ []

module _ {M X R : Type 0} where
  -- The first part of `StartQuery` and `EndQuery`: they wait for the end of the batch.
  unfoldable pub enter_queries : Server M X R → Option (Server M X R)
  enter_queries s = if s.matching then some s else (do
    require (ltb 0 s.batch_end)
    some (record s { batch_end = s.batch_end - 1; matching = true }))

  -- The first part of `MatchDocument`: the first document of a batch.
  unfoldable pub leave_queries : Server M X R → Server M X R
  leave_queries s = record s {
    runendrunned = if s.matching then false else s.runendrunned;
    our_id = if s.matching then 0 else s.our_id;
    matching = false;
  }

  -- `MatchDocument`.
  unfoldable pub match_document : ℕ → CString → Server M X R → Option (Server M X R)
  match_document doc_id doc_str s = do
    let t = leave_queries s
    documents ← submit t.our_id doc_id doc_str t.documents
    some (record t {
      documents = documents;
      docsofbatch = t.docsofbatch + 1;
      our_id = t.our_id + 1;
      gnflag = true;
      docids = push_id doc_id t.docids;
    })

  -- `if (gnflag) { matchdocjs->Schedule(new JobRun()); gnflag = false; }`.
  unfoldable pub request_results : Server M X R → Server M X R
  request_results s = if s.gnflag then record s { job_runs = s.job_runs + 1; gnflag = false } else s

  -- The first document of `docs`, with its id by `docids`. For the last document of a batch `RunEnd` has cleared
  -- `docids` before this read.
  unfoldable pub first_document :
      List Document → Server M X R → Option (Server M X R × ErrorCode × Option Document)
  first_document [] s = some (s, ec_no_avail_res, none)
  first_document (doc ∷ docs) s = do
    require (ltb 0 doc.doc_id)
    p_doc_id ← read_id (doc.doc_id - 1) s.docids
    some (record s { docs = docs }, ec_success, some (record doc { doc_id = p_doc_id }))

module _ (H : Type 0) (dict : DenseMap CString TokenId) (qids : DenseMap ℕ ℕ)
    (tables : DenseMap ℕ (List WordSat)) where
  abbrev pub State : Type 0
  State = Server (Manager dict.Map H) (QueryIndex qids.Map) tables.Map

  -- `InitializeIndex`, for an empty table of each kind, with the counters that the constructor of the scheduler sets.
  unfoldable pub initialize_index : H → State
  initialize_index none_yet = record {
    matching = false;
    gnflag = false;
    runendrunned = true;
    batch_end = 1;
    docsofbatch = 0;
    res_avail = 0;
    docs = [];
    docids = record { storage = []; size = 0 };
    globaldocs = [];
    batchno = 0;
    our_id = 0;
    documents = new_documents;
    job_runs = 0;
    gen_jobs = [];
    globalmanager = new_manager dict none_yet;
    indexx = record { vault = []; emptycells = []; qidindex = qids.empty; qmidindex = [] };
    wordbatchv = replicate 28 [];
    rel = replicate threads tables.empty;
    bits = none;
  }

  -- `StartQuery`.
  unfoldable pub start_query : ℕ → CString → MatchType → ℕ → State → Option State
  start_query query_id query_str match_type match_dist s = do
    t ← enter_queries s
    q ← query_of query_id query_str match_type match_dist
    r ← add_query dict qids q t.batchno t.indexx t.globalmanager
    some (record t { indexx = r.2; globalmanager = r.3 })

  -- `EndQuery`.
  unfoldable pub end_query : ℕ → State → Option State
  end_query query_id s = do
    t ← enter_queries s
    r ← remove_query dict qids query_id t.indexx t.globalmanager
    some (record t { indexx = r.1; globalmanager = r.2 })

  -- `globalmanager->GetTokenInfo(wid)->ClearIds()`.
  unfoldable pub clear_word : ℕ → Manager dict.Map H → Option (Manager dict.Map H)
  clear_word it m = do
    let wid = wid_of it
    s ← space_at dict m (wid.length_ - 4)
    t ← get_token_info wid.id_ s
    u ← clear_ids t
    some (put_space dict m (wid.length_ - 4) (record s { tokens = set s.tokens wid.id_ u }))

  unfoldable pub clear_words : List ℕ → Manager dict.Map H → Option (Manager dict.Map H)
  clear_words [] m = some m
  clear_words (it ∷ its) m = do m' ← clear_word it m; clear_words its m'

  -- The loop over the 28 lists.
  unfoldable pub clear_lists : List (List ℕ) → Manager dict.Map H → Option (Manager dict.Map H)
  clear_lists [] m = some m
  clear_lists (its ∷ lists) m = do m' ← clear_words its m; clear_lists lists m'

  -- `RunEnd`. `much_memory` is the test of `GetRamInKB`, and `cleared` an empty table.
  unfoldable pub run_end : Bool → H → State → Option State
  run_end much_memory cleared s = do
    m ← clear_lists s.wordbatchv (manager_new_batch dict s.globalmanager)
    some (record s {
      globalmanager = if much_memory then manager_restart dict cleared m else m;
      rel = if much_memory then map (λ r. tables.empty) s.rel else s.rel;
      globaldocs = [];
      docids = record { storage = (s.docids).storage; size = 0 };
      batchno = s.batchno + 1;
      wordbatchv = map (λ l. []) s.wordbatchv;
      bits = none;
    })

  -- `if (js->docsofbatch == 0) …`: the last document of a batch ends it.
  unfoldable pub end_batch : Bool → H → State → Option State
  end_batch much_memory cleared s =
      if s.docsofbatch == 0
      then (do
        t ← run_end much_memory cleared (record s { runendrunned = true })
        some (record t { batch_end = t.batch_end + 1 }))
      else some s

  -- `GetNextAvailRes`.
  unfoldable pub get_next_avail_res :
      Bool → H → State → Option (State × ErrorCode × Option Document)
  get_next_avail_res much_memory cleared s = do
    let r = request_results s
    require (ltb 0 r.res_avail)
    require (ltb 0 r.docsofbatch)
    t ←
        end_batch much_memory cleared
          (record r { res_avail = r.res_avail - 1; docsofbatch = r.docsofbatch - 1 })
    first_document t.docs t

  -- `JobDedup::Run` of the job that is next, with the rounds of its loop.
  unfoldable pub run_job_dedup : ℕ → State → Option State
  run_job_dedup fuel s = do
    next ← next_document s.documents
    let batch : Batch (Manager dict.Map H) = record {
      manager = s.globalmanager;
      wordbatchv = s.wordbatchv;
      globaldocs = s.globaldocs;
    }
    b ← run_dedup dict fuel (next.0).dn s.batchno next.1 batch
    documents ← free_spot s.documents
    some (record s {
      globalmanager = b.manager;
      wordbatchv = b.wordbatchv;
      globaldocs = b.globaldocs;
      documents = documents;
    })

  -- `JobRun::Run`, which comes after the documents that were scheduled before it. Of the jobs that it schedules, the
  -- last are kept here: those for the results of the documents.
  unfoldable pub run_job_run : State → Option State
  run_job_run s = do
    require (length (s.documents).pending == 0)
    require (ltb 0 s.job_runs)
    some (record s {
      job_runs = s.job_runs - 1;
      bits = some (
          new_bitarea (map (λ (q : QueryInfo). length q.tids) (s.indexx).vault)
            (length s.globaldocs));
      gen_jobs = s.gen_jobs ++ up_from 0 (length s.globaldocs);
    })

  -- `JobGenRes::Run`.
  unfoldable pub run_gen_res : ℕ → ℕ → ℕ → State → Option State
  run_gen_res start finish length_ s = do
    b ← s.bits
    b' ← generate_res dict tables s.globalmanager s.rel s.wordbatchv start finish length_ b
    some (record s { bits = some b' })

  -- `JobGenerateRes::Run` of the job at place `i` of those that are scheduled.
  unfoldable pub run_generate_res : ℕ → State → Option State
  run_generate_res i s = do
    document ← get_elem? s.gen_jobs i
    did ← get_elem? s.globaldocs document
    b ← s.bits
    query_ids ← results (s.indexx).vault b did
    some (record s {
      gen_jobs = take i s.gen_jobs ++ drop (i + 1) s.gen_jobs;
      docs = add_document did query_ids s.docs;
      res_avail = s.res_avail + 1;
    })
