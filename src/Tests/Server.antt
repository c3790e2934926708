-- ===== src/Tests/Server.antt =====
-- The theorems on the functions of the interface at concrete inputs.
use sigmod_programming_conte.Base.{
  ◌==◌, if◌then◌else◌, sym, ℕ, ◌+◌, ◌-◌, ◌≤◌, ◌≡◌, ◌⊎◌, inl, ◌↔◌, refl, true, false, none, some,
  sym, subst, ap, Option, List, [], ◌∷◌, length, get_elem?, replicate, arith, All,
}
use sigmod_programming_conte.Core.{CString, TokenId, ErrorCode, ec_success}
use sigmod_programming_conte.Library.Assoc.{words, table}
use sigmod_programming_conte.Matching.Relations.{WordSat}
use sigmod_programming_conte.Space.Defs.{init_space, add_doc_token, mark_first, get_token_string}
use sigmod_programming_conte.Token.Defs.{new_doc_token}
use sigmod_programming_conte.Dictionary.{look_up}
use sigmod_programming_conte.Results.Generate.{wid_of}
use sigmod_programming_conte.Manager.Defs.{
  Manager, new_manager, init_from, manager_add_doc_token, add_new_doc,
}
use sigmod_programming_conte.Manager.Index.{IsIndexed}
use sigmod_programming_conte.Manager.Words.{Stores, manager_add_doc_token-Stores}
use sigmod_programming_conte.Manager.Ids.{new_manager-IsIndexed}
use sigmod_programming_conte.Queries.Index.{remove_query, read_or_insert}
use sigmod_programming_conte.Interface.Documents.{
  DedupJob, Documents, submit_at, submit, next_document, spots_from, empty_buffers, new_documents,
}
use sigmod_programming_conte.Interface.Buffers.{started, submitted, next_document-Run, submit-Run}
use sigmod_programming_conte.Interface.Server.{
  push_id, leave_queries, match_document, Document, State, enter_queries, initialize_index,
  end_query, run_end, get_next_avail_res,
}
use sigmod_programming_conte.Interface.RunEnd.{docs_of, HasDocs, run_end-IsIndexed}
use sigmod_programming_conte.Interface.Named.{IsNamed}
use sigmod_programming_conte.Interface.Orderly.{IsOrderly}
use sigmod_programming_conte.Interface.NextResult.{get_next_avail_res_lem}
use sigmod_programming_conte.Interface.Reach.{
  matched_document, Reach-IsNamed, initial, later, ended_query, removes, Reach-IsOrderly,
  queries_between_batches,
}

abbrev rain : CString
rain = 114 ∷ 97 ∷ 105 ∷ 110 ∷ []

-- The buffers after the call with the first document.
abbrev one_document : Documents
one_document = record {
  empty_spot = spots_from 1 63;
  matchdocjs_buff = rain ∷ empty_buffers 63;
  pending = record { dn = 0; doc_id = 7; spot = 0 } ∷ [];
}

first_call : submit 0 7 rain new_documents ≡ some one_document
unfolding submit submit_at new_documents spots_from empty_buffers
first_call = refl

next_document-Run_example : (job : DedupJob) × (next_document one_document ≡ some (job, rain))
next_document-Run_example = next_document-Run rain (submitted 0 7 rain started first_call)

submit-Run_example :
    (length one_document.pending ≤ 64)
    × ((submit 1 9 rain one_document ≡ none) ↔ (length one_document.pending ≡ 64))
submit-Run_example = submit-Run 1 9 rain (submitted 0 7 rain started first_call) (omega arith)

-- The manager after "rain" was read in document 1; a table is a number here.
abbrev manager : Manager (List (CString × TokenId)) ℕ
manager = new_manager (words TokenId) 0

rained :
    Stores
      (words TokenId)
      refl
      manager
      rain
      (manager_add_doc_token (words TokenId) rain 4 1 0 manager)
rained =
    manager_add_doc_token-Stores (words TokenId) refl manager rain
      (new_manager-IsIndexed (words TokenId) 0) (omega arith) (omega arith) 1 0

abbrev manager_or :
    Option (Manager (List (CString × TokenId)) ℕ × ErrorCode × Option TokenId)
    → Manager (List (CString × TokenId)) ℕ
manager_or none = manager
manager_or (some r) = r.0

abbrev rainy : Manager (List (CString × TokenId)) ℕ
rainy = manager_or (manager_add_doc_token (words TokenId) rain 4 1 0 manager)

rainy-IsIndexed : IsIndexed (words TokenId) rainy
rainy-IsIndexed =
    subst (IsIndexed (words TokenId)) (sym (ap manager_or rained.returned)) rained.indexed

-- Document 1 of the client's id 7 is done, and "rain" is the word of the batch.
abbrev Small : Type 0
Small = State ℕ (words TokenId) (table ℕ) (table (List WordSat))

abbrev at_start : Small
at_start = initialize_index ℕ (words TokenId) (table ℕ) (table (List WordSat)) 0

abbrev done : Document
done = record { doc_id = 1; num_res = 2; query_ids = 3 ∷ 5 ∷ [] }

abbrev one_done : Small
one_done = record at_start {
  batch_end = 0;
  docsofbatch = 1;
  res_avail = 1;
  docs = done ∷ [];
  docids = record { storage = 7 ∷ []; size = 1 };
  globaldocs = 1 ∷ [];
  globalmanager = rainy;
  wordbatchv = (4 ∷ []) ∷ replicate 27 [];
}

has_docs :
    All (All (HasDocs ℕ (words TokenId) (table ℕ) (table (List WordSat)) rainy)) one_done.wordbatchv
unfolding manager_add_doc_token add_new_doc new_manager init_from init_space add_doc_token
    mark_first get_token_string new_doc_token look_up wid_of
has_docs = (((1 ∷ [], refl), tt), omega arith)

one_done-IsOrderly : IsOrderly one_done
unfolding initialize_index new_documents
one_done-IsOrderly = ground arith

run_end-IsIndexed_example :
    (s' : Small) × (run_end ℕ (words TokenId) (table ℕ) (table (List WordSat)) true 0 one_done
      ≡ some s')
    × IsIndexed (words TokenId) s'.globalmanager
    × All
        (All (λ it.
          docs_of ℕ (words TokenId) (table ℕ) (table (List WordSat)) s'.globalmanager it
          ≡ some (some [])))
        one_done.wordbatchv
    × All (λ (l : List ℕ). l ≡ []) s'.wordbatchv
    × (s'.globaldocs ≡ [])
    × (s'.docids.size ≡ 0)
    × (s'.batchno ≡ one_done.batchno + 1)
run_end-IsIndexed_example =
    run_end-IsIndexed ℕ (words TokenId) (table ℕ) (table (List WordSat)) true 0 one_done
      rainy-IsIndexed has_docs

get_next_avail_res_lem_example :
    let r =
      get_next_avail_res ℕ (words TokenId) (table ℕ) (table (List WordSat)) false 0 one_done in
    ((one_done.docs ≡ []) × (r ≡ none))
    ⊎ ((d : Document) × (ds : List Document) × (id : ℕ) × (s' : Small) × (one_done.docs ≡ d ∷ ds)
        × (get_elem? (one_done.docids).storage (d.doc_id - 1) ≡ some id)
        × (r ≡ some (s', ec_success, some (record d { doc_id = id })))
        × (s'.docs ≡ ds)
        × (s'.docids.size ≡ (if one_done.docsofbatch == 1 then 0 else one_done.docids.size)))
get_next_avail_res_lem_example =
    get_next_avail_res_lem ℕ (words TokenId) (table ℕ) (table (List WordSat)) false 0 one_done
      one_done-IsOrderly rainy-IsIndexed has_docs ((omega arith, omega arith), tt)

-- EndQuery of a query that was never added, which is in the table of ids afterwards.
abbrev after_end : Small
after_end = record at_start {
  matching = true;
  batch_end = 0;
  indexx = record { vault = []; emptycells = []; qidindex = (5, 0) ∷ []; qmidindex = [] };
}

ended : end_query ℕ (words TokenId) (table ℕ) (table (List WordSat)) 5 at_start ≡ some after_end
unfolding end_query enter_queries initialize_index remove_query read_or_insert
ended = refl

queries_between_batches_example :
    (after_end.docsofbatch ≡ 0)
    × (length after_end.documents.pending ≡ 0)
    × (length after_end.globaldocs ≡ 0)
    × (length after_end.gen_jobs ≡ 0)
    × (length after_end.docs ≡ 0)
    × (after_end.res_avail ≡ 0)
queries_between_batches_example =
    queries_between_batches ℕ (words TokenId) (table ℕ) (table (List WordSat)) initial
      (removes 5 ended)

Reach-IsOrderly_example : IsOrderly after_end
Reach-IsOrderly_example =
    Reach-IsOrderly ℕ (words TokenId) (table ℕ) (table (List WordSat))
      (later initial (ended_query 5 ended))

-- The state after the client's document 7 was submitted, which comes after a query call.
abbrev one_submitted : Small
one_submitted = record after_end {
  matching = false;
  gnflag = true;
  runendrunned = false;
  docsofbatch = 1;
  our_id = 1;
  docids = record { storage = 7 ∷ []; size = 1 };
  documents = one_document;
}

submits : match_document 7 rain after_end ≡ some one_submitted
unfolding match_document leave_queries push_id initialize_index submit submit_at new_documents
    spots_from empty_buffers
submits = refl

Reach-IsNamed_example : IsNamed one_submitted
Reach-IsNamed_example =
    Reach-IsNamed ℕ (words TokenId) (table ℕ) (table (List WordSat))
      (later (later initial (ended_query 5 ended)) (matched_document 7 rain submits (inl refl)))
