-- ===== src/Interface/NamingJobs.antt =====
-- The jobs, and the calls on queries and results, keep the numbers of the documents.
use sigmod_programming_conte.Base.{
  ℕ, suc, ◌+◌, ◌-◌, ◌≤◌, ◌≡◌, refl, sym, ap, ◌∙◌, subst, Bool, Option, some, List, [], ◌∷◌, length,
  get_elem?, ltb, ◌==◌, arith, All, Bool-cases, inl, inr, some_inj, >>=-eq-some,
}
use sigmod_programming_conte.Core.{CString, ErrorCode, MatchType, TokenId}
use sigmod_programming_conte.Library.{DenseMap}
use sigmod_programming_conte.Manager.Defs.{Manager}
use sigmod_programming_conte.Matching.Relations.{WordSat}
use sigmod_programming_conte.Queries.Index.{add_query, remove_query}
use sigmod_programming_conte.Results.Generate.{generate_res}
use sigmod_programming_conte.Results.Sort.{results}
use sigmod_programming_conte.Results.Ranges.{All-get_elem?}
use sigmod_programming_conte.Interface.Reading.{query_of}
use sigmod_programming_conte.Interface.Dedup.{Batch, run_dedup}
use sigmod_programming_conte.Interface.Documents.{
  DedupJob, Documents, read_document, next_document, free_spot_of, free_spot,
}
use sigmod_programming_conte.Interface.Server.{
  Document, State, enter_queries, request_results, add_document, start_query, end_query, end_batch,
  get_next_avail_res, run_job_dedup, run_job_run, run_gen_res, run_generate_res,
}
use sigmod_programming_conte.Interface.Orderly.{IsOrderly, request_results-IsOrderly}
use sigmod_programming_conte.Interface.Protocol.{require-eq-some, run_dedup-globaldocs}
use sigmod_programming_conte.Interface.NextResult.{Ended, end_batch-Ended, first_document_lem}
use sigmod_programming_conte.Interface.Named.{
  IsScheduled, UpTo, IsNamed, SameNames, SameNames-IsNamed, request_results-SameNames, weaken,
  All-snoc,
}
use sigmod_programming_conte.Interface.Naming.{enter_queries-IsNamed, free_spot_of-next}

module _ (H : Type 0) (dict : DenseMap CString TokenId) (qids : DenseMap ℕ ℕ)
    (tables : DenseMap ℕ (List WordSat)) where
  pub start_query-IsNamed :
      (query_id : ℕ) (str : CString) (mt : MatchType) (dist : ℕ) (s t : State H dict qids tables)
      → start_query H dict qids tables query_id str mt dist s ≡ some t
      → IsNamed s
      → IsNamed t
  unfolding start_query
  start_query-IsNamed query_id str mt dist s t run inv =
      let (s1, entered, run1) = >>=-eq-some (enter_queries s) _ run in
      let (q, read, run2) = >>=-eq-some (query_of query_id str mt dist) _ run1 in
      let (r, added, run3) =
        >>=-eq-some (add_query dict qids q s1.batchno s1.indexx s1.globalmanager) _ run2 in
      let same : SameNames s1 (record s1 { indexx = r.2; globalmanager = r.3 }) = record {
        matching = λ h. h;
        docsofbatch = refl;
        our_id = refl;
        docids = refl;
        documents = refl;
        globaldocs = refl;
        docs = refl;
      } in
      subst IsNamed (some_inj run3)
        (SameNames-IsNamed s1 _ same (enter_queries-IsNamed s s1 entered inv))

  pub end_query-IsNamed :
      (query_id : ℕ) (s t : State H dict qids tables)
      → end_query H dict qids tables query_id s ≡ some t
      → IsNamed s
      → IsNamed t
  unfolding end_query
  end_query-IsNamed query_id s t run inv =
      let (s1, entered, run1) = >>=-eq-some (enter_queries s) _ run in
      let (r, removed, run2) =
        >>=-eq-some (remove_query dict qids query_id s1.indexx s1.globalmanager) _ run1 in
      let same : SameNames s1 (record s1 { indexx = r.1; globalmanager = r.2 }) = record {
        matching = λ h. h;
        docsofbatch = refl;
        our_id = refl;
        docids = refl;
        documents = refl;
        globaldocs = refl;
        docs = refl;
      } in
      subst IsNamed (some_inj run2)
        (SameNames-IsNamed s1 _ same (enter_queries-IsNamed s s1 entered inv))

  pub run_gen_res-IsNamed :
      (start finish length_ : ℕ) (s t : State H dict qids tables)
      → run_gen_res H dict qids tables start finish length_ s ≡ some t
      → IsNamed s
      → IsNamed t
  unfolding run_gen_res
  run_gen_res-IsNamed start finish length_ s t run inv =
      let (b, e, run1) = >>=-eq-some s.bits _ run in
      let (b', marked, run2) =
        >>=-eq-some
          (generate_res dict tables s.globalmanager s.rel s.wordbatchv start finish length_ b) _
          run1 in
      let same : SameNames s (record s { bits = some b' }) = record {
        matching = λ h. h;
        docsofbatch = refl;
        our_id = refl;
        docids = refl;
        documents = refl;
        globaldocs = refl;
        docs = refl;
      } in
      subst IsNamed (some_inj run2) (SameNames-IsNamed s _ same inv)

  pub run_job_run-IsNamed :
      (s t : State H dict qids tables)
      → run_job_run H dict qids tables s ≡ some t
      → IsNamed s
      → IsNamed t
  unfolding run_job_run
  run_job_run-IsNamed s t run inv =
      let (none_pending, run1) = require-eq-some (length (s.documents).pending == 0) _ run in
      let (one, run2) = require-eq-some (ltb 0 s.job_runs) _ run1 in
      subst IsNamed (some_inj run2) (record {
        long = inv.long;
        next = inv.next;
        over = inv.over;
        scheduled = inv.scheduled;
        read = inv.read;
        done = inv.done;
      })

  pub run_job_dedup-IsNamed :
      (fuel : ℕ) (s t : State H dict qids tables)
      → run_job_dedup H dict qids tables fuel s ≡ some t
      → IsNamed s
      → IsNamed t
  unfolding run_job_dedup free_spot next_document
  run_job_dedup-IsNamed fuel s t run inv =
      let (next, e, run1) = >>=-eq-some (read_document s.documents.pending s.documents) _ run in
      let batch : Batch (Manager dict.Map H) = record {
        manager = s.globalmanager;
        wordbatchv = s.wordbatchv;
        globaldocs = s.globaldocs;
      } in
      let (b, dedup, run2) =
        >>=-eq-some (run_dedup dict fuel (next.0).dn s.batchno next.1 batch) _ run1 in
      let (documents, freed, run3) =
        >>=-eq-some (free_spot_of s.documents.pending s.documents) _ run2 in
      let more = run_dedup-globaldocs dict fuel (next.0).dn s.batchno next.1 batch b dedup in
      let split = free_spot_of-next s.documents.pending s.documents documents next e freed in
      let jobs : All (IsScheduled s.docids) (next.0 ∷ documents.pending) =
        subst (All (IsScheduled s.docids)) split inv.scheduled in
      subst IsNamed (some_inj run3) (record {
        long = inv.long;
        next = inv.next;
        over = inv.over;
        scheduled = jobs.1;
        read = subst (All (UpTo s.docids.size)) (sym more) (
            All-snoc (UpTo s.docids.size) s.globaldocs ((next.0).dn + 1) inv.read
              (omega arith, omega (arith, jobs.0.0)));
        done = inv.done;
      })

  pub run_generate_res-IsNamed :
      (i : ℕ) (s t : State H dict qids tables)
      → run_generate_res H dict qids tables i s ≡ some t
      → IsNamed s
      → IsNamed t
  unfolding run_generate_res add_document
  run_generate_res-IsNamed i s t run inv =
      let (document, here, run1) = >>=-eq-some (get_elem? s.gen_jobs i) _ run in
      let (did, e1, run2) = >>=-eq-some (get_elem? s.globaldocs document) _ run1 in
      let (b, e2, run3) = >>=-eq-some s.bits _ run2 in
      let (ids, e3, run4) = >>=-eq-some (results (s.indexx).vault b did) _ run3 in
      let known = All-get_elem? (UpTo s.docids.size) s.globaldocs document inv.read e1 in
      let new : Document = record { doc_id = did; num_res = length ids; query_ids = ids } in
      subst IsNamed (some_inj run4) (record {
        long = inv.long;
        next = inv.next;
        over = inv.over;
        scheduled = inv.scheduled;
        read = inv.read;
        done =
            All-snoc (λ (d : Document). UpTo (length s.docids.storage) d.doc_id) s.docs new inv.done
              (known.0, omega (arith, known.1, inv.long));
      })

  -- A document is taken; the last one of a batch clears `docids`.
  taken-IsNamed :
      (r t : State H dict qids tables) (d : Document) (ds : List Document)
      → IsOrderly r
      → IsNamed r
      → 1 ≤ r.docsofbatch
      → Ended H dict qids tables
          (record r { res_avail = r.res_avail - 1; docsofbatch = r.docsofbatch - 1 })
          t
      → t.docs ≡ d ∷ ds
      → IsNamed (record t { docs = ds })
  taken-IsNamed r t d ds order inv some_docs e split = elim (Bool-cases (r.docsofbatch - 1 == 0)) [
    | inl last ↦
        let size : t.docids.size ≡ 0 = rw last at e.size in
        let none_read : t.globaldocs ≡ [] = rw last at e.read in
        let number : t.docsofbatch ≡ 0 = ground (arith, e.docsofbatch) in
        let one : r.docsofbatch ≡ 1 = ground arith in
        let docs : length r.docs ≡ suc (length ds) = ap length (sym e.docs ∙ split) in
        let left : length r.documents.pending ≡ 0 = omega (arith, order.outstanding, one, docs) in
        record {
          long = omega (arith, size);
          next = λ h k. absurd (omega (arith, k, number));
          over = λ h. size;
          scheduled =
              nothing r.documents.pending t.documents.pending
                (ap (λ (q : Documents). q.pending) e.documents) left;
          read = rw none_read tt;
          done = rest_done;
        }
    | inr more ↦
        let size : t.docids.size ≡ r.docids.size = rw more at e.size in
        let same_read : t.globaldocs ≡ r.globaldocs = rw more at e.read in
        let ids : (x : ℕ) → get_elem? t.docids.storage x ≡ get_elem? r.docids.storage x =
          λ x. ap (λ l. get_elem? l x) e.storage in
        let long = ap length e.storage in
        record {
          long = omega (arith, size, long, inv.long);
          next = λ h k. e.our_id ∙ inv.next (sym e.matching ∙ h) some_docs ∙ sym size;
          over = λ h. absurd (ground (arith, e.docsofbatch, h));
          scheduled = rw e.documents (
              weaken (IsScheduled r.docids) (IsScheduled t.docids) r.documents.pending
                (λ j h. (omega (arith, size, h.0), ids j.dn ∙ h.1)) inv.scheduled);
          read = rw (same_read, size) inv.read;
          done = rest_done;
        }
  ]
    where
      rest_done : All (λ (d : Document). UpTo (length t.docids.storage) d.doc_id) ds
      rest_done =
          let all : All (λ (d : Document). UpTo (length r.docids.storage) d.doc_id) (d ∷ ds) =
            subst (All (λ (d : Document). UpTo (length r.docids.storage) d.doc_id))
              (sym e.docs ∙ split) inv.done in
          rw e.storage all.1

      nothing :
          (jobs jobs' : List DedupJob)
          → jobs' ≡ jobs
          → length jobs ≡ 0
          → All (IsScheduled t.docids) jobs'
      nothing [] jobs' e h = rw e tt
      nothing (j ∷ jobs) jobs' e h = absurd (omega arith)

  pub get_next_avail_res-IsNamed :
      (much_memory : Bool) (cleared : H) (s s' : State H dict qids tables) (code : ErrorCode)
      (result : Option Document)
      → get_next_avail_res H dict qids tables much_memory cleared s ≡ some (s', code, result)
      → IsOrderly s
      → IsNamed s
      → IsNamed s'
  unfolding get_next_avail_res
  get_next_avail_res-IsNamed much_memory cleared s s' code result run order inv =
      let r = request_results s in
      let asked = request_results-IsOrderly s order in
      let named = SameNames-IsNamed s r (request_results-SameNames s) inv in
      let (avail, run1) = require-eq-some (ltb 0 r.res_avail) _ run in
      let (some_docs, run2) = require-eq-some (ltb 0 r.docsofbatch) _ run1 in
      let less : State H dict qids tables = record r {
        res_avail = r.res_avail - 1;
        docsofbatch = r.docsofbatch - 1;
      } in
      let (t, ended, run3) =
        >>=-eq-some (end_batch H dict qids tables much_memory cleared less) _ run2 in
      let e = end_batch-Ended H dict qids tables much_memory cleared less t ended in
      let full : 1 ≤ length t.docs = ground (arith, asked.counted, ap length e.docs) in
      let (d, ds, split, same, ok) =
        first_document_lem H dict qids tables t.docs t s' code result run3 full in
      subst IsNamed same (taken-IsNamed r t d ds asked named (ground arith) e split)
