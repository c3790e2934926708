-- ===== src/Interface/Reach.antt =====
-- The states that the calls of a client and the jobs of the threads lead to.
use sigmod_programming_conte.Base.{subst, subst, ℕ, ◌≡◌, Bool, Option, some, List, length, arith}
use sigmod_programming_conte.Core.{CString, MatchType, ErrorCode, TokenId}
use sigmod_programming_conte.Library.{DenseMap}
use sigmod_programming_conte.Matching.Relations.{WordSat}
use sigmod_programming_conte.Interface.Documents.{new_documents}
use sigmod_programming_conte.Interface.Server.{
  Document, State, match_document, request_results, initialize_index, start_query, end_query,
  get_next_avail_res, run_job_dedup, run_job_run, run_gen_res, run_generate_res,
}
use sigmod_programming_conte.Interface.Orderly.{IsOrderly, request_results-IsOrderly}
use sigmod_programming_conte.Interface.Protocol.{
  MayMatch, match_document-IsOrderly, start_query-IsOrderly, end_query-IsOrderly,
  run_gen_res-IsOrderly, run_job_dedup-IsOrderly, run_job_run-IsOrderly, run_generate_res-IsOrderly,
}
use sigmod_programming_conte.Interface.Named.{IsNamed, SameNames-IsNamed, request_results-SameNames}
use sigmod_programming_conte.Interface.Naming.{match_document-IsNamed}
use sigmod_programming_conte.Interface.NamingJobs.{
  start_query-IsNamed, end_query-IsNamed, run_gen_res-IsNamed, run_job_run-IsNamed,
  run_job_dedup-IsNamed, run_generate_res-IsNamed, get_next_avail_res-IsNamed,
}
use sigmod_programming_conte.Interface.NextResult.{get_next_avail_res-IsOrderly}

module _ (H : Type 0) (dict : DenseMap CString TokenId) (qids : DenseMap ℕ ℕ)
    (tables : DenseMap ℕ (List WordSat)) where
  -- A call of the client that returns, the part of one that is done before it waits, or a job.
  pub data Step (s : State H dict qids tables) : State H dict qids tables → Type 0 where
    started_query :
        {t : State H dict qids tables} (query_id : ℕ) (str : CString) (mt : MatchType) (dist : ℕ)
        → start_query H dict qids tables query_id str mt dist s ≡ some t
        → Step s t
    ended_query :
        {t : State H dict qids tables} (query_id : ℕ)
        → end_query H dict qids tables query_id s ≡ some t
        → Step s t
    matched_document :
        {t : State H dict qids tables} (doc_id : ℕ) (doc_str : CString)
        → match_document doc_id doc_str s ≡ some t
        → MayMatch s
        → Step s t
    requested_results : {t : State H dict qids tables} → request_results s ≡ t → Step s t
    returned_result :
        {t : State H dict qids tables} (much_memory : Bool) (cleared : H) (code : ErrorCode)
        (result : Option Document)
        → get_next_avail_res H dict qids tables much_memory cleared s ≡ some (t, code, result)
        → Step s t
    read_words :
        {t : State H dict qids tables} (fuel : ℕ)
        → run_job_dedup H dict qids tables fuel s ≡ some t
        → Step s t
    began_results :
        {t : State H dict qids tables} → run_job_run H dict qids tables s ≡ some t → Step s t
    set_flags :
        {t : State H dict qids tables} (start finish length_ : ℕ)
        → run_gen_res H dict qids tables start finish length_ s ≡ some t
        → Step s t
    generated_result :
        {t : State H dict qids tables} (i : ℕ)
        → run_generate_res H dict qids tables i s ≡ some t
        → Step s t

  pub data Reach (none_yet : H) : State H dict qids tables → Type 0 where
    initial : Reach none_yet (initialize_index H dict qids tables none_yet)
    later : {s t : State H dict qids tables} → Reach none_yet s → Step s t → Reach none_yet t

  initialize_index-IsOrderly :
      (none_yet : H) → IsOrderly (initialize_index H dict qids tables none_yet)
  unfolding initialize_index new_documents
  initialize_index-IsOrderly none_yet = ground arith

  Step-IsOrderly : {s t : State H dict qids tables} → Step s t → IsOrderly s → IsOrderly t
  Step-IsOrderly {s} {t} (started_query id str mt dist run) inv =
      (start_query-IsOrderly H dict qids tables id str mt dist s t run inv).0
  Step-IsOrderly {s} {t} (ended_query id run) inv =
      (end_query-IsOrderly H dict qids tables id s t run inv).0
  Step-IsOrderly {s} {t} (matched_document id str run may) inv =
      match_document-IsOrderly id str s t run may inv
  Step-IsOrderly {s} {t} (requested_results e) inv =
      subst IsOrderly e (request_results-IsOrderly s inv)
  Step-IsOrderly {s} {t} (returned_result much_memory cleared code result run) inv =
      (get_next_avail_res-IsOrderly H dict qids tables much_memory cleared s t code result run
        inv).0
  Step-IsOrderly {s} {t} (read_words fuel run) inv =
      run_job_dedup-IsOrderly H dict qids tables fuel s t run inv
  Step-IsOrderly {s} {t} (began_results run) inv =
      run_job_run-IsOrderly H dict qids tables s t run inv
  Step-IsOrderly {s} {t} (set_flags start finish length_ run) inv =
      run_gen_res-IsOrderly H dict qids tables start finish length_ s t run inv
  Step-IsOrderly {s} {t} (generated_result i run) inv =
      run_generate_res-IsOrderly H dict qids tables i s t run inv

  -- However calls and jobs alternate, for a client that starts a batch after a query call only and asks for results
  -- when the documents of the batch are in: in every state the number of documents of the batch that are not yet
  -- returned is the sum of the JobDedups that are scheduled, the documents that were read and wait for JobRun, the
  -- JobGenerateRes that are scheduled, and the results; and `ResAvail` is the number of results.
  pub Reach-IsOrderly :
      {none_yet : H} {s : State H dict qids tables} → Reach none_yet s → IsOrderly s
  Reach-IsOrderly {none_yet} initial = initialize_index-IsOrderly none_yet
  Reach-IsOrderly (later before step) = Step-IsOrderly step (Reach-IsOrderly before)

  initialize_index-IsNamed : (none_yet : H) → IsNamed (initialize_index H dict qids tables none_yet)
  unfolding initialize_index new_documents
  initialize_index-IsNamed none_yet = record {
    long = omega arith;
    next = λ e some_docs. absurd (omega arith);
    over = λ e. omega arith;
    scheduled = tt;
    read = tt;
    done = tt;
  }

  Step-IsNamed : {s t : State H dict qids tables} → Step s t → IsOrderly s → IsNamed s → IsNamed t
  Step-IsNamed {s} {t} (started_query id str mt dist run) order inv =
      start_query-IsNamed H dict qids tables id str mt dist s t run inv
  Step-IsNamed {s} {t} (ended_query id run) order inv =
      end_query-IsNamed H dict qids tables id s t run inv
  Step-IsNamed {s} {t} (matched_document id str run may) order inv =
      match_document-IsNamed id str s t run may order inv
  Step-IsNamed {s} {t} (requested_results e) order inv =
      subst IsNamed e (SameNames-IsNamed s (request_results s) (request_results-SameNames s) inv)
  Step-IsNamed {s} {t} (returned_result much_memory cleared code result run) order inv =
      get_next_avail_res-IsNamed H dict qids tables much_memory cleared s t code result run order
        inv
  Step-IsNamed {s} {t} (read_words fuel run) order inv =
      run_job_dedup-IsNamed H dict qids tables fuel s t run inv
  Step-IsNamed {s} {t} (began_results run) order inv =
      run_job_run-IsNamed H dict qids tables s t run inv
  Step-IsNamed {s} {t} (set_flags start finish length_ run) order inv =
      run_gen_res-IsNamed H dict qids tables start finish length_ s t run inv
  Step-IsNamed {s} {t} (generated_result i run) order inv =
      run_generate_res-IsNamed H dict qids tables i s t run inv

  -- With the same client, in every state `docids` knows the documents: a document that waits for its JobDedup has at its
  -- number the id that the client passed; the documents that were read are numbered from 1 up to the number of ids; and the
  -- numbers of those that are done lie in the storage of `docids`, so that GetNextAvailRes finds an id for each of
  -- them, also for the last one, when `docids` has been cleared.
  pub Reach-IsNamed : {none_yet : H} {s : State H dict qids tables} → Reach none_yet s → IsNamed s
  Reach-IsNamed {none_yet} initial = initialize_index-IsNamed none_yet
  Reach-IsNamed (later before step) =
      Step-IsNamed step (Reach-IsOrderly before) (Reach-IsNamed before)

  all_over :
      (t : State H dict qids tables)
      → IsOrderly t
      → t.docsofbatch ≡ 0
      → (t.docsofbatch ≡ 0)
        × (length t.documents.pending ≡ 0)
        × (length t.globaldocs ≡ 0)
        × (length t.gen_jobs ≡ 0)
        × (length t.docs ≡ 0)
        × (t.res_avail ≡ 0)
  all_over t inv over =
      let sum = inv.outstanding in
      let counted = inv.counted in
      (
        over,
        omega (arith, sum, over),
        inv.idle over,
        omega (arith, sum, over),
        omega (arith, sum, over),
        omega (arith, sum, over, counted),
      )

  -- A call of StartQuery or EndQuery that returns.
  pub data QueryCall (s t : State H dict qids tables) : Type 0 where
    adds :
        (query_id : ℕ) (str : CString) (mt : MatchType) (dist : ℕ)
        → start_query H dict qids tables query_id str mt dist s ≡ some t
        → QueryCall s t
    removes : (query_id : ℕ) → end_query H dict qids tables query_id s ≡ some t → QueryCall s t

  -- With the same client, whenever a call of StartQuery or EndQuery returns, no batch is running: every document was
  -- returned, none waits to be read, and none is with a JobGenerateRes or among the results.
  pub queries_between_batches :
      {none_yet : H} {s t : State H dict qids tables}
      → Reach none_yet s
      → QueryCall s t
      → (t.docsofbatch ≡ 0)
        × (length t.documents.pending ≡ 0)
        × (length t.globaldocs ≡ 0)
        × (length t.gen_jobs ≡ 0)
        × (length t.docs ≡ 0)
        × (t.res_avail ≡ 0)
  queries_between_batches {none_yet} {s} {t} reach (adds id str mt dist run) =
      let (inv, over) =
        start_query-IsOrderly H dict qids tables id str mt dist s t run (Reach-IsOrderly reach) in
      all_over t inv over
  queries_between_batches {none_yet} {s} {t} reach (removes id run) =
      let (inv, over) = end_query-IsOrderly H dict qids tables id s t run (Reach-IsOrderly reach) in
      all_over t inv over
