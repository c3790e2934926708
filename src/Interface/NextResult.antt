-- ===== src/Interface/NextResult.antt =====
-- `GetNextAvailRes`: it waits only while no result is there, and then returns one.
use sigmod_programming_conte.Base.{
  ◌⊎◌, ℕ, ◌+◌, ◌-◌, ◌≤◌, ◌≡◌, ◌⊎◌, refl, ap, ◌∙◌, subst, Bool, true, false, Option, none, some,
  List, [], ◌∷◌, length, get_elem?, get_elem?_of_lt, ltb, ◌==◌, if◌then◌else◌, to_nat, arith, All,
  Bool-cases, inl, inr, >>=-eq-some,
}
use sigmod_programming_conte.Core.{CString, ErrorCode, ec_success, TokenId}
use sigmod_programming_conte.Library.{DenseMap}
use sigmod_programming_conte.Manager.Defs.{manager_new_batch}
use sigmod_programming_conte.Manager.Index.{IsIndexed}
use sigmod_programming_conte.Matching.Relations.{WordSat}
use sigmod_programming_conte.Interface.Server.{
  Document, State, request_results, first_document, clear_lists, run_end, end_batch,
  get_next_avail_res,
}
use sigmod_programming_conte.Interface.RunEnd.{HasDocs, run_end-IsIndexed}
use sigmod_programming_conte.Interface.Orderly.{IsOrderly, request_results-IsOrderly}
use sigmod_programming_conte.Interface.Protocol.{require-eq-some}

module _ (H : Type 0) (dict : DenseMap CString TokenId) (qids : DenseMap ℕ ℕ)
    (tables : DenseMap ℕ (List WordSat)) where
  -- What the end of a batch does to the counters.
  pub record Ended (r t : State H dict qids tables) : Type 0 where
    pub matching : t.matching ≡ r.matching
    pub gnflag : t.gnflag ≡ r.gnflag
    pub docsofbatch : t.docsofbatch ≡ r.docsofbatch
    pub res_avail : t.res_avail ≡ r.res_avail
    pub docs : t.docs ≡ r.docs
    pub documents : t.documents ≡ r.documents
    pub job_runs : t.job_runs ≡ r.job_runs
    pub gen_jobs : t.gen_jobs ≡ r.gen_jobs
    pub batch_end : t.batch_end ≡ r.batch_end + to_nat (r.docsofbatch == 0)
    pub globaldocs : length t.globaldocs ≡ (if r.docsofbatch == 0 then 0 else length r.globaldocs)
    pub storage : t.docids.storage ≡ r.docids.storage
    pub read : t.globaldocs ≡ (if r.docsofbatch == 0 then [] else r.globaldocs)
    pub size : t.docids.size ≡ (if r.docsofbatch == 0 then 0 else r.docids.size)
    pub our_id : t.our_id ≡ r.our_id

  pub end_batch-Ended :
      (much_memory : Bool) (cleared : H) (r t : State H dict qids tables)
      → end_batch H dict qids tables much_memory cleared r ≡ some t
      → Ended r t
  unfolding end_batch run_end
  end_batch-Ended much_memory cleared r t run = elim (Bool-cases (r.docsofbatch == 0)) [
    | inl e ↦
        let (t1, ended, run1) =
          >>=-eq-some
            (run_end H dict qids tables much_memory cleared (record r { runendrunned = true })) _
            (rw e at run) in
        let (m, words, run2) =
          >>=-eq-some
            (clear_lists H dict qids tables r.wordbatchv (manager_new_batch dict r.globalmanager)) _
            ended in
        ground arith
    | inr e ↦ ground arith
  ]

  -- The first of the documents is taken.
  pub first_document_lem :
      (docs : List Document) (s s' : State H dict qids tables) (code : ErrorCode)
      (result : Option Document)
      → first_document docs s ≡ some (s', code, result)
      → 1 ≤ length docs
      → (d : Document) × (ds : List Document) × (docs ≡ d ∷ ds)
        × (record s { docs = ds } ≡ s')
        × (code ≡ ec_success)
  unfolding first_document
  first_document_lem [] s s' code result run some_docs = absurd (omega arith)
  first_document_lem (d ∷ ds) s s' code result run some_docs =
      let (one, run1) = require-eq-some (ltb 0 d.doc_id) _ run in
      let (id, there, run2) = >>=-eq-some (get_elem? (s.docids).storage (d.doc_id - 1)) _ run1 in
      (d, ds, refl, ground arith, ground arith)

  pub get_next_avail_res-IsOrderly :
      (much_memory : Bool) (cleared : H) (s s' : State H dict qids tables) (code : ErrorCode)
      (result : Option Document)
      → get_next_avail_res H dict qids tables much_memory cleared s ≡ some (s', code, result)
      → IsOrderly s
      → IsOrderly s' × (code ≡ ec_success)
  unfolding get_next_avail_res
  get_next_avail_res-IsOrderly much_memory cleared s s' code result run inv =
      let r = request_results s in
      let asked = request_results-IsOrderly s inv in
      let (avail, run1) = require-eq-some (ltb 0 r.res_avail) _ run in
      let (some_docs, run2) = require-eq-some (ltb 0 r.docsofbatch) _ run1 in
      let less : State H dict qids tables = record r {
        res_avail = r.res_avail - 1;
        docsofbatch = r.docsofbatch - 1;
      } in
      let (t, ended, run3) =
        >>=-eq-some (end_batch H dict qids tables much_memory cleared less) _ run2 in
      let e = end_batch-Ended much_memory cleared less t ended in
      let (d, ds, split, same, ok) =
        first_document_lem t.docs t s' code result run3 (ground arith) in
      (subst IsOrderly same (taken r t ds asked e d split avail), ok)
    where
      taken :
          (r t : State H dict qids tables) (ds : List Document)
          → IsOrderly r
          → Ended (record r { res_avail = r.res_avail - 1; docsofbatch = r.docsofbatch - 1 }) t
          → (d : Document) → t.docs ≡ d ∷ ds
          → ltb 0 r.res_avail ≡ true
          → IsOrderly (record t { docs = ds })
      taken r t ds inv e d split avail = ground arith

  end_batch-some :
      (much_memory : Bool) (cleared : H) (r : State H dict qids tables)
      → IsIndexed dict r.globalmanager
      → All (All (HasDocs H dict qids tables r.globalmanager)) r.wordbatchv
      → (t : State H dict qids tables) × (end_batch H dict qids tables much_memory cleared r
          ≡ some t)
  unfolding end_batch
  end_batch-some much_memory cleared r inv has =
      let (t, ran, kept, empties, lists, none_read, none_named, next) =
        run_end-IsIndexed H dict qids tables much_memory cleared (record r { runendrunned = true })
          inv has in
      elim (Bool-cases (r.docsofbatch == 0)) [
        | inl e ↦ (record t { batch_end = t.batch_end + 1 }, rw (e, ran) refl)
        | inr e ↦ (r, rw e refl)
      ]

  not_collecting :
      (s : State H dict qids tables) → IsOrderly s → 1 ≤ length s.docs → request_results s ≡ s
  unfolding request_results
  not_collecting s inv some_docs = elim (Bool-cases s.gnflag) [
    | inl e ↦ absurd (omega (arith, (inv.collecting e).2))
    | inr e ↦ rw e refl
  ]

  first_document-some :
      (docs : List Document) (t : State H dict qids tables) (d : Document) (ds : List Document)
      (id : ℕ)
      → docs ≡ d ∷ ds
      → 1 ≤ d.doc_id
      → get_elem? (t.docids).storage (d.doc_id - 1) ≡ some id
      → first_document docs t
        ≡ some (record t { docs = ds }, ec_success, some (record d { doc_id = id }))
  unfolding first_document
  first_document-some docs t d ds id e one there =
      let numbered : ltb 0 d.doc_id ≡ true = ground arith in rw e (rw (numbered, there) refl)

  get_next_runs :
      (much_memory : Bool) (cleared : H) (s t : State H dict qids tables) (d : Document)
      (ds : List Document) (id : ℕ)
      → request_results s ≡ s
      → ltb 0 s.res_avail ≡ true
      → ltb 0 s.docsofbatch ≡ true
      → end_batch H dict qids tables much_memory cleared
          (record s { res_avail = s.res_avail - 1; docsofbatch = s.docsofbatch - 1 })
        ≡ some t
      → t.docs ≡ d ∷ ds
      → 1 ≤ d.doc_id
      → get_elem? (t.docids).storage (d.doc_id - 1) ≡ some id
      → get_next_avail_res H dict qids tables much_memory cleared s
        ≡ some (record t { docs = ds }, ec_success, some (record d { doc_id = id }))
  unfolding get_next_avail_res
  get_next_runs much_memory cleared s t d ds id asked avail busy ended docs one there =
      rw (asked, avail, busy, ended) (first_document-some t.docs t d ds id docs one there)

  no_result :
      (s : State H dict qids tables)
      → IsOrderly s
      → s.docs ≡ []
      → ltb 0 (request_results s).res_avail ≡ false
  unfolding request_results
  no_result s inv e = ground (arith, inv.counted, ap length e)

  nothing_yet :
      (much_memory : Bool) (cleared : H) (s : State H dict qids tables)
      → ltb 0 (request_results s).res_avail ≡ false
      → get_next_avail_res H dict qids tables much_memory cleared s ≡ none
  unfolding get_next_avail_res
  nothing_yet much_memory cleared s e = rw e refl

  -- The documents that are done have numbers that `docids` knows.
  abbrev pub AreNamed : State H dict qids tables → Type 0
  AreNamed s =
      All (λ (d : Document). (1 ≤ d.doc_id) × (d.doc_id ≤ length (s.docids).storage)) s.docs

  -- With the counters in order, `GetNextAvailRes` waits if no document is done. If one is, it returns: with EC_SUCCESS, the
  -- first document that is done, under the id that `docids` has for it; and that document is taken off. For the last
  -- document of the batch `docids` has size 0 at that read, and the id is what `clear` left in its memory; for the others the
  -- size is unchanged. This holds if the words of the batch are stored and have lists of documents, which the end of the
  -- batch needs, and the documents that are done have numbers that `docids` knows.
  pub get_next_avail_res_lem :
      (much_memory : Bool) (cleared : H) (s : State H dict qids tables)
      → IsOrderly s
      → IsIndexed dict s.globalmanager
      → All (All (HasDocs H dict qids tables s.globalmanager)) s.wordbatchv
      → AreNamed s
      → let r = get_next_avail_res H dict qids tables much_memory cleared s in
        ((s.docs ≡ []) × (r ≡ none))
        ⊎ ((d : Document) × (ds : List Document) × (id : ℕ) × (s' : State H dict qids tables)
            × (s.docs ≡ d ∷ ds)
            × (get_elem? (s.docids).storage (d.doc_id - 1) ≡ some id)
            × (r ≡ some (s', ec_success, some (record d { doc_id = id })))
            × (s'.docs ≡ ds)
            × (s'.docids.size ≡ (if s.docsofbatch == 1 then 0 else s.docids.size)))
  get_next_avail_res_lem much_memory cleared s inv indexed has named = of_docs s.docs refl named
    where
      last : (n : ℕ) → 1 ≤ n → (n - 1 == 0) ≡ (n == 1)
      last n one = ground arith

      of_docs :
          (docs : List Document)
          → s.docs ≡ docs
          → All (λ (d : Document). (1 ≤ d.doc_id) × (d.doc_id ≤ length (s.docids).storage)) docs
          → let r = get_next_avail_res H dict qids tables much_memory cleared s in
            ((s.docs ≡ []) × (r ≡ none))
            ⊎ ((d : Document) × (ds : List Document) × (id : ℕ) × (s' : State H dict qids tables)
                × (s.docs ≡ d ∷ ds)
                × (get_elem? (s.docids).storage (d.doc_id - 1) ≡ some id)
                × (r ≡ some (s', ec_success, some (record d { doc_id = id })))
                × (s'.docs ≡ ds)
                × (s'.docids.size ≡ (if s.docsofbatch == 1 then 0 else s.docids.size)))
      of_docs [] e h = inl (e, nothing_yet much_memory cleared s (no_result s inv e))
      of_docs (d ∷ ds) e h =
          let (id, there) =
            get_elem?_of_lt (s.docids).storage (d.doc_id - 1) (omega (arith, h.0.0, h.0.1)) in
          let less : State H dict qids tables = record s {
            res_avail = s.res_avail - 1;
            docsofbatch = s.docsofbatch - 1;
          } in
          let (t, ended) = end_batch-some much_memory cleared less indexed has in
          let f = end_batch-Ended much_memory cleared less t ended in
          let size = ap length e in
          inr (
            d,
            ds,
            id,
            record t { docs = ds },
            e,
            there,
            get_next_runs much_memory cleared s t d ds id
                (not_collecting s inv (omega (arith, size))) (ground (arith, inv.counted))
                (ground (arith, inv.outstanding)) ended (f.docs ∙ e) h.0.0
                (ap (λ l. get_elem? l (d.doc_id - 1)) f.storage ∙ there),
            refl,
            f.size
                ∙ ap (λ b. if b then 0 else s.docids.size)
                    (last s.docsofbatch (ground (arith, inv.outstanding))),
          )
