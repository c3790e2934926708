-- ===== src/Interface/Protocol.antt =====
-- The calls and the jobs keep the counters in order.
use sigmod_programming_conte.Base.{
  ℕ, zero, suc, ◌+◌, ◌-◌, ◌≤◌, ◌≡◌, ◌⊎◌, refl, sym, ap, ◌∙◌, subst, Bool, true, false, Option, none,
  some, List, [], ◌∷◌, ◌++◌, take, drop, length, length-append, get_elem?, ltb, ◌==◌, ◌>>◌, require,
  arith, Bool-cases, inl, inr, some_inj, >>=-eq-some,
}
use sigmod_programming_conte.Core.{CString, MatchType, TokenId}
use sigmod_programming_conte.Library.{DenseMap}
use sigmod_programming_conte.Manager.Defs.{Manager, manager_add_doc_token}
use sigmod_programming_conte.Matching.Relations.{WordSat}
use sigmod_programming_conte.Queries.Index.{add_query, remove_query}
use sigmod_programming_conte.Results.Schedule.{up_from}
use sigmod_programming_conte.Results.Generate.{generate_res}
use sigmod_programming_conte.Results.Sort.{results}
use sigmod_programming_conte.Interface.Reading.{query_of, document_words}
use sigmod_programming_conte.Interface.Dedup.{Batch, in_batch, batch_word, batch_words, run_dedup}
use sigmod_programming_conte.Interface.Documents.{
  DedupJob, Documents, max_doc_length, submit_at, submit, next_document, free_spot_of, free_spot,
}
use sigmod_programming_conte.Interface.Server.{
  Document, Server, State, enter_queries, leave_queries, match_document, start_query, end_query,
  run_job_dedup, run_job_run, run_gen_res, run_generate_res, add_document,
}
use sigmod_programming_conte.Interface.Orderly.{
  IsOrderly, Frame, Frame-IsOrderly, enter_queries-IsOrderly,
}

pub none_ne_some {ℓ} : {A : Type ℓ} {x : A} → none ≡ some x → ⊥
none_ne_some h = cc

pub require-eq-some {ℓ} :
    {A : Type ℓ} (b : Bool) (k : Option A) {x : A}
    → (require b >> k) ≡ some x
    → (b ≡ true) × (k ≡ some x)
require-eq-some true k h = (refl, h)
require-eq-some false k h = absurd (none_ne_some h)

submit_at-pending :
    (empties : List ℕ) (our_id doc_id : ℕ) (doc_str : CString) (q q' : Documents)
    → submit_at empties our_id doc_id doc_str q ≡ some q'
    → length q'.pending ≡ length q.pending + 1
unfolding submit_at
submit_at-pending [] our_id doc_id doc_str q q' run = absurd (none_ne_some run)
submit_at-pending (spot ∷ rest) our_id doc_id doc_str q q' run =
    let (old, there, run1) = >>=-eq-some (get_elem? q.matchdocjs_buff spot) _ run in
    let (fits, run2) = require-eq-some (ltb (length doc_str) max_doc_length) _ run1 in
    let job : DedupJob = record { dn = our_id; doc_id = doc_id; spot = spot } in
    ap (λ (r : Documents). length r.pending) (sym (some_inj run2))
    ∙ length-append q.pending (job ∷ [])

free_spot_of-pending :
    (jobs : List DedupJob) (q q' : Documents)
    → free_spot_of jobs q ≡ some q'
    → length jobs ≡ length q'.pending + 1
unfolding free_spot_of
free_spot_of-pending [] q q' run = absurd (none_ne_some run)
free_spot_of-pending (job ∷ jobs) q q' run =
    subst (λ (r : Documents). length (job ∷ jobs) ≡ length r.pending + 1) (some_inj run)
      (omega arith)

remove_at {ℓ} :
    {A : Type ℓ} (l : List A) (i : ℕ) {x : A}
    → get_elem? l i ≡ some x
    → length l ≡ length (take i l ++ drop (i + 1) l) + 1
remove_at [] i h = absurd (none_ne_some h)
remove_at (y ∷ l) zero h = omega arith
remove_at (y ∷ l) (suc i) h =
    let e : suc i + 1 ≡ suc (i + 1) = omega arith in rw e (omega (arith, remove_at l i h))

length-up_from : (first rounds : ℕ) → length (up_from first rounds) ≡ rounds
length-up_from first zero = refl
length-up_from first (suc rounds) = omega (arith, length-up_from (first + 1) rounds)

module _ {M X R : Type 0} where
  -- A client asks for results only when all documents of the batch are in, and starts a batch only after a query came
  -- or went.
  abbrev pub MayMatch : Server M X R → Type 0
  MayMatch s = (s.matching ≡ true) ⊎ ((s.gnflag ≡ true) × (1 ≤ s.docsofbatch))

  pub match_document-IsOrderly :
      (doc_id : ℕ) (doc_str : CString) (s t : Server M X R)
      → match_document doc_id doc_str s ≡ some t
      → MayMatch s
      → IsOrderly s
      → IsOrderly t
  unfolding match_document leave_queries submit
  match_document-IsOrderly doc_id doc_str s t run may inv =
      let (documents, sub, run1) = >>=-eq-some (submit _ doc_id doc_str s.documents) _ run in
      let pending =
        submit_at-pending (s.documents.empty_spot) _ doc_id doc_str s.documents documents sub in
      subst IsOrderly (some_inj run1) (ground arith)

batch_word-globaldocs :
    {H : Type 0} (dict : DenseMap CString TokenId) (did batchno : ℕ) (w : CString)
    (st st' : Batch (Manager dict.Map H))
    → batch_word dict did batchno w st ≡ some st'
    → st'.globaldocs ≡ st.globaldocs
unfolding batch_word
batch_word-globaldocs {H} dict did batchno w st st' run =
    let (r, added, run1) =
      >>=-eq-some (manager_add_doc_token dict w (length w) did batchno st.manager) _ run in
    elim (Bool-cases (in_batch r.1)) [
      | inl known ↦
          ap (λ (b : Batch (Manager dict.Map H)). b.globaldocs) (sym (some_inj (rw known at run1)))
      | inr fresh ↦
          let (gid, e2, run2) = >>=-eq-some (r.2) _ (rw fresh at run1) in
          let (keys, e3, run3) = >>=-eq-some (get_elem? st.wordbatchv (length w - 4)) _ run2 in
          ap (λ (b : Batch (Manager dict.Map H)). b.globaldocs) (sym (some_inj run3))
    ]

batch_words-globaldocs :
    {H : Type 0} (dict : DenseMap CString TokenId) (did batchno : ℕ) (ws : List CString)
    (st st' : Batch (Manager dict.Map H))
    → batch_words dict did batchno ws st ≡ some st'
    → st'.globaldocs ≡ st.globaldocs
unfolding batch_words
batch_words-globaldocs {H} dict did batchno [] st st' run =
    ap (λ (b : Batch (Manager dict.Map H)). b.globaldocs) (sym (some_inj run))
batch_words-globaldocs {H} dict did batchno (w ∷ ws) st st' run =
    let (st1, one, rest) = >>=-eq-some (batch_word dict did batchno w st) _ run in
    batch_words-globaldocs dict did batchno ws st1 st' rest
    ∙ batch_word-globaldocs dict did batchno w st st1 one

pub run_dedup-globaldocs :
    {H : Type 0} (dict : DenseMap CString TokenId) (fuel dn batchno : ℕ) (s : CString)
    (st st' : Batch (Manager dict.Map H))
    → run_dedup dict fuel dn batchno s st ≡ some st'
    → st'.globaldocs ≡ st.globaldocs ++ (dn + 1) ∷ []
unfolding run_dedup
run_dedup-globaldocs {H} dict fuel dn batchno s st st' run =
    let (ws, words, run1) = >>=-eq-some (document_words fuel s) _ run in
    let (st1, added, run2) = >>=-eq-some (batch_words dict (dn + 1) batchno ws st) _ run1 in
    ap (λ (b : Batch (Manager dict.Map H)). b.globaldocs) (sym (some_inj run2))
    ∙ ap (λ l. l ++ (dn + 1) ∷ []) (batch_words-globaldocs dict (dn + 1) batchno ws st st1 added)

module _ (H : Type 0) (dict : DenseMap CString TokenId) (qids : DenseMap ℕ ℕ)
    (tables : DenseMap ℕ (List WordSat)) where
  pub start_query-IsOrderly :
      (query_id : ℕ) (str : CString) (mt : MatchType) (dist : ℕ) (s t : State H dict qids tables)
      → start_query H dict qids tables query_id str mt dist s ≡ some t
      → IsOrderly s
      → IsOrderly t × (t.docsofbatch ≡ 0)
  unfolding start_query
  start_query-IsOrderly query_id str mt dist s t run inv =
      let (s1, entered, run1) = >>=-eq-some (enter_queries s) _ run in
      let (q, read, run2) = >>=-eq-some (query_of query_id str mt dist) _ run1 in
      let (r, added, run3) =
        >>=-eq-some (add_query dict qids q s1.batchno s1.indexx s1.globalmanager) _ run2 in
      let (inv1, now) = enter_queries-IsOrderly s s1 entered inv in
      let frame : Frame s1 t = ground arith in
      (Frame-IsOrderly s1 t frame inv1, frame.docsofbatch ∙ (inv1.entered now).0)

  pub end_query-IsOrderly :
      (query_id : ℕ) (s t : State H dict qids tables)
      → end_query H dict qids tables query_id s ≡ some t
      → IsOrderly s
      → IsOrderly t × (t.docsofbatch ≡ 0)
  unfolding end_query
  end_query-IsOrderly query_id s t run inv =
      let (s1, entered, run1) = >>=-eq-some (enter_queries s) _ run in
      let (r, removed, run2) =
        >>=-eq-some (remove_query dict qids query_id s1.indexx s1.globalmanager) _ run1 in
      let (inv1, now) = enter_queries-IsOrderly s s1 entered inv in
      let frame : Frame s1 t = ground arith in
      (Frame-IsOrderly s1 t frame inv1, frame.docsofbatch ∙ (inv1.entered now).0)

  pub run_gen_res-IsOrderly :
      (start finish length_ : ℕ) (s t : State H dict qids tables)
      → run_gen_res H dict qids tables start finish length_ s ≡ some t
      → IsOrderly s
      → IsOrderly t
  unfolding run_gen_res
  run_gen_res-IsOrderly start finish length_ s t run inv =
      let (b, e, run1) = >>=-eq-some s.bits _ run in
      let (b', marked, run2) =
        >>=-eq-some
          (generate_res dict tables s.globalmanager s.rel s.wordbatchv start finish length_ b) _
          run1 in
      let frame : Frame s t = ground arith in Frame-IsOrderly s t frame inv

  pub run_job_dedup-IsOrderly :
      (fuel : ℕ) (s t : State H dict qids tables)
      → run_job_dedup H dict qids tables fuel s ≡ some t
      → IsOrderly s
      → IsOrderly t
  unfolding run_job_dedup free_spot
  run_job_dedup-IsOrderly fuel s t run inv =
      let (next, e, run1) = >>=-eq-some (next_document s.documents) _ run in
      let batch : Batch (Manager dict.Map H) = record {
        manager = s.globalmanager;
        wordbatchv = s.wordbatchv;
        globaldocs = s.globaldocs;
      } in
      let (b, dedup, run2) =
        >>=-eq-some (run_dedup dict fuel (next.0).dn s.batchno next.1 batch) _ run1 in
      let (documents, freed, run3) = >>=-eq-some (free_spot s.documents) _ run2 in
      let more : length b.globaldocs ≡ length s.globaldocs + 1 =
        ap length (run_dedup-globaldocs dict fuel (next.0).dn s.batchno next.1 batch b dedup)
        ∙ length-append s.globaldocs (((next.0).dn + 1) ∷ []) in
      let fewer = free_spot_of-pending (s.documents).pending s.documents documents freed in
      subst IsOrderly (some_inj run3) (ground arith)

  pub run_job_run-IsOrderly :
      (s t : State H dict qids tables)
      → run_job_run H dict qids tables s ≡ some t
      → IsOrderly s
      → IsOrderly t
  unfolding run_job_run
  run_job_run-IsOrderly s t run inv =
      let (none_pending, run1) = require-eq-some (length (s.documents).pending == 0) _ run in
      let (one, run2) = require-eq-some (ltb 0 s.job_runs) _ run1 in
      let n = length s.globaldocs in
      let size = length-append s.gen_jobs (up_from 0 n) in
      let size' = length-up_from 0 n in subst IsOrderly (some_inj run2) (ground arith)

  pub run_generate_res-IsOrderly :
      (i : ℕ) (s t : State H dict qids tables)
      → run_generate_res H dict qids tables i s ≡ some t
      → IsOrderly s
      → IsOrderly t
  unfolding run_generate_res add_document
  run_generate_res-IsOrderly i s t run inv =
      let (document, here, run1) = >>=-eq-some (get_elem? s.gen_jobs i) _ run in
      let (did, e1, run2) = >>=-eq-some (get_elem? s.globaldocs document) _ run1 in
      let (b, e2, run3) = >>=-eq-some s.bits _ run2 in
      let (ids, e3, run4) = >>=-eq-some (results (s.indexx).vault b did) _ run3 in
      let fewer = remove_at s.gen_jobs i here in
      let new : Document = record { doc_id = did; num_res = length ids; query_ids = ids } in
      let more = length-append s.docs (new ∷ []) in subst IsOrderly (some_inj run4) (ground arith)
