-- ===== src/Interface/Naming.antt =====
-- The calls and the jobs keep the numbers of the documents.
use sigmod_programming_conte.Base.{
  ◌>>◌, require, ℕ, ◌-◌, ◌≡◌, refl, sym, ap, ◌∙◌, subst, Bool, true, false, some, List, [], ◌∷◌,
  ◌++◌, length, get_elem?, ltb, if◌then◌else◌, arith, All, Bool-cases, inl, inr, some_inj,
  >>=-eq-some,
}
use sigmod_programming_conte.Core.{CString}
use sigmod_programming_conte.Interface.Documents.{
  DedupJob, Documents, max_doc_length, submit_at, submit, read_document, free_spot_of,
}
use sigmod_programming_conte.Interface.Server.{
  Document, push_id, Server, enter_queries, leave_queries, match_document,
}
use sigmod_programming_conte.Interface.Orderly.{IsOrderly}
use sigmod_programming_conte.Interface.Protocol.{MayMatch, none_ne_some, require-eq-some}
use sigmod_programming_conte.Interface.Named.{
  IsScheduled, UpTo, IsNamed, push_id-get_elem?, weaken, All-snoc,
}

submit_at-job :
    (empties : List ℕ) (our_id doc_id : ℕ) (doc_str : CString) (q q' : Documents)
    → submit_at empties our_id doc_id doc_str q ≡ some q'
    → (job : DedupJob) × (q'.pending ≡ q.pending ++ job ∷ [])
      × (job.dn ≡ our_id)
      × (job.doc_id ≡ doc_id)
unfolding submit_at
submit_at-job [] our_id doc_id doc_str q q' run = absurd (none_ne_some run)
submit_at-job (spot ∷ rest) our_id doc_id doc_str q q' run =
    let (old, there, run1) = >>=-eq-some (get_elem? q.matchdocjs_buff spot) _ run in
    let (fits, run2) = require-eq-some (ltb (length doc_str) max_doc_length) _ run1 in
    (
      record { dn = our_id; doc_id = doc_id; spot = spot },
      ap (λ (r : Documents). r.pending) (sym (some_inj run2)),
      refl,
      refl,
    )

-- The job that is next, and the jobs after it.
pub free_spot_of-next :
    (jobs : List DedupJob) (q q' : Documents) (next : DedupJob × CString)
    → read_document jobs q ≡ some next
    → free_spot_of jobs q ≡ some q'
    → jobs ≡ next.0 ∷ q'.pending
unfolding free_spot_of read_document
free_spot_of-next [] q q' next run freed = absurd (none_ne_some run)
free_spot_of-next (job ∷ jobs) q q' next run freed =
    let (text, there, run1) = >>=-eq-some (get_elem? q.matchdocjs_buff job.spot) _ run in
    ap (λ (p : DedupJob × CString). p.0 ∷ jobs) (some_inj run1)
    ∙ ap (λ (r : Documents). next.0 ∷ r.pending) (some_inj freed)

module _ {M X R : Type 0} where
  pub enter_queries-IsNamed :
      (s t : Server M X R) → enter_queries s ≡ some t → IsNamed s → IsNamed t
  unfolding enter_queries
  enter_queries-IsNamed s t run inv = of_test s.matching run
    where
      of_test :
          (b : Bool)
          → (if b
              then some s
              else (require (ltb 0 s.batch_end)
                  >> some (record s { batch_end = s.batch_end - 1; matching = true })))
            ≡ some t
          → IsNamed t
      of_test true run = subst IsNamed (some_inj run) inv
      of_test false run =
          let (some_end, run1) = require-eq-some (ltb 0 s.batch_end) _ run in
          subst IsNamed (some_inj run1) (record {
            long = inv.long;
            next = λ h. absurd (cc h);
            over = inv.over;
            scheduled = inv.scheduled;
            read = inv.read;
            done = inv.done;
          })

  -- The number of the next document is that of the ids in `docids`.
  next_number :
      (s : Server M X R)
      → MayMatch s
      → IsOrderly s
      → IsNamed s
      → (leave_queries s).our_id ≡ s.docids.size
  unfolding leave_queries
  next_number s may order inv = elim (Bool-cases s.matching) [
    | inl e ↦ rw e (sym (inv.over (order.entered e).0))
    | inr e ↦ rw e (of_may may e)
  ]
    where
      of_may : MayMatch s → s.matching ≡ false → s.our_id ≡ s.docids.size
      of_may (inl h) e = absurd (ground arith)
      of_may (inr h) e = inv.next e h.1

  pub match_document-IsNamed :
      (doc_id : ℕ) (doc_str : CString) (s t : Server M X R)
      → match_document doc_id doc_str s ≡ some t
      → MayMatch s
      → IsOrderly s
      → IsNamed s
      → IsNamed t
  unfolding match_document leave_queries submit
  match_document-IsNamed doc_id doc_str s t run may order inv =
      let (documents, sub, run1) =
        >>=-eq-some (submit (leave_queries s).our_id doc_id doc_str s.documents) _ run in
      let (job, pending, number, id) =
        submit_at-job (s.documents.empty_spot) (leave_queries s).our_id doc_id doc_str s.documents
          documents sub in
      let (size, long, longer, there, others) = push_id-get_elem? doc_id s.docids inv.long in
      let ids = push_id doc_id s.docids in
      let at = next_number s may order inv in
      subst IsNamed (some_inj run1) (record {
        long = omega (arith, size, long);
        next = λ e some_docs. omega (arith, size, at);
        over = λ none_left. absurd (omega arith);
        scheduled = subst (All (IsScheduled ids)) (sym pending) (
            All-snoc (IsScheduled ids) s.documents.pending job
              (weaken (IsScheduled s.docids) (IsScheduled ids) s.documents.pending
                (λ j h. (omega (arith, size, h.0), others j.dn h.0 ∙ h.1)) inv.scheduled)
              (
                omega (arith, size, number, at),
                ap (get_elem? ids.storage) (number ∙ at) ∙ there ∙ ap some (sym id),
              ));
        read =
            weaken (UpTo s.docids.size) (UpTo ids.size) s.globaldocs
              (λ d h. (h.0, omega (arith, h.1, size))) inv.read;
        done =
            weaken (λ (d : Document). UpTo (length s.docids.storage) d.doc_id)
              (λ (d : Document). UpTo (length ids.storage) d.doc_id) s.docs
              (λ d h. (h.0, omega (arith, h.1, longer))) inv.done;
      })
