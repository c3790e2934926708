-- ===== src/Interface/Buffers.antt =====
-- No document is overwritten while it waits.
use sigmod_programming_conte.Base.{
  ℕ, zero, suc, ◌+◌, ◌≤◌, ◌<◌, ◌≡◌, refl, ap, ◌∙◌, true, false, none, some, List, [], ◌∷◌, ◌++◌,
  length, length-set, get_elem?, get_elem?-set, get_elem?_of_lt, set, ltb, ◌==◌, if◌then◌else◌,
  to_nat, arith, count, count-append, Bool-cases, inl, inr, some_inj, subst, length-append, ◌↔◌,
  lt→ltb,
}
use sigmod_programming_conte.Core.{CString}
use sigmod_programming_conte.Interface.Documents.{
  DedupJob, Documents, max_doc_length, submit_at, submit, read_document, next_document,
  free_spot_of, free_spot, spots_from, empty_buffers, new_documents,
}

abbrev pub spots : List DedupJob → List ℕ
spots [] = []
spots (job ∷ jobs) = job.spot ∷ spots jobs

-- The jobs read these texts, in their order.
abbrev pub Reads : List CString → List DedupJob → List CString → Type 0
Reads buff [] [] = Unit {0}
Reads buff [] (t ∷ texts) = ⊥
Reads buff (job ∷ jobs) [] = ⊥
Reads buff (job ∷ jobs) (t ∷ texts) = (get_elem? buff job.spot ≡ some t) × Reads buff jobs texts

-- Each of the 64 spots is empty or that of one job, and the jobs read the texts.
pub record IsPooled (q : Documents) (texts : List CString) : Type 0 where
  pub sized : length q.matchdocjs_buff ≡ 64
  pub total : length q.empty_spot + length q.pending ≡ 64
  pub shared : (x : ℕ) → count x (q.empty_spot) + count x (spots q.pending) ≡ to_nat (ltb x 64)
  pub reads : Reads q.matchdocjs_buff q.pending texts

-- The calls of `MatchDocument` and the ends of the jobs, with the texts of the documents that wait.
pub data Run : Documents → List CString → Type 0 where
  started : Run new_documents []
  submitted :
      {q q' : Documents} {texts : List CString} (our_id doc_id : ℕ) (doc_str : CString)
      → Run q texts
      → submit our_id doc_id doc_str q ≡ some q'
      → Run q' (texts ++ doc_str ∷ [])
  finished :
      {q q' : Documents} {texts : List CString} (t : CString)
      → Run q (t ∷ texts)
      → free_spot q ≡ some q'
      → Run q' texts

spots-append : (jobs more : List DedupJob) → spots (jobs ++ more) ≡ spots jobs ++ spots more
spots-append [] more = refl
spots-append (job ∷ jobs) more = ap (◌∷◌ job.spot) (spots-append jobs more)

-- Writing to a spot that no job has.
Reads-set :
    (buff : List CString) (jobs : List DedupJob) (texts : List CString) (spot : ℕ) (t : CString)
    → spot < length buff
    → count spot (spots jobs) ≡ 0
    → Reads buff jobs texts
    → Reads (set buff spot t) jobs texts
Reads-set buff [] [] spot t lt free h = tt
Reads-set buff [] (u ∷ texts) spot t lt free h = h
Reads-set buff (job ∷ jobs) [] spot t lt free h = h
Reads-set buff (job ∷ jobs) (u ∷ texts) spot t lt free h =
    let other : (spot == job.spot) ≡ false = ground arith in
    (
      get_elem?-set buff spot job.spot t lt ∙ rw other h.0,
      Reads-set buff jobs texts spot t lt (ground arith) h.1,
    )

Reads-append :
    (buff : List CString) (jobs : List DedupJob) (texts : List CString) (job : DedupJob)
    (t : CString)
    → Reads buff jobs texts
    → get_elem? buff job.spot ≡ some t
    → Reads buff (jobs ++ job ∷ []) (texts ++ t ∷ [])
Reads-append buff [] [] job t h e = (e, tt)
Reads-append buff [] (u ∷ texts) job t h e = absurd h
Reads-append buff (j ∷ jobs) [] job t h e = absurd h
Reads-append buff (j ∷ jobs) (u ∷ texts) job t h e = (h.0, Reads-append buff jobs texts job t h.1 e)

submit_at-IsPooled :
    (empties : List ℕ) (our_id doc_id : ℕ) (doc_str : CString) (q q' : Documents)
    (texts : List CString)
    → q.empty_spot ≡ empties
    → submit_at empties our_id doc_id doc_str q ≡ some q'
    → IsPooled q texts
    → IsPooled q' (texts ++ doc_str ∷ [])
unfolding submit_at
submit_at-IsPooled [] our_id doc_id doc_str q q' texts e run inv = absurd (ground arith)
submit_at-IsPooled (spot ∷ rest) our_id doc_id doc_str q q' texts e run inv =
    let once : count spot (spot ∷ rest) + count spot (spots q.pending) ≡ to_nat (ltb spot 64) =
      rw e at (inv.shared spot) in
    let lt : spot < 64 = ground arith in
    let inside : spot < length q.matchdocjs_buff = omega (arith, inv.sized) in
    let (old, there) = get_elem?_of_lt q.matchdocjs_buff spot inside in
    let free : count spot (spots q.pending) ≡ 0 = ground arith in
    let job : DedupJob = record { dn = our_id; doc_id = doc_id; spot = spot } in
    let buff = set q.matchdocjs_buff spot doc_str in
    elim (Bool-cases (ltb (length doc_str) max_doc_length)) [
      | inl fits ↦
          let q1 : Documents = record {
            empty_spot = rest;
            matchdocjs_buff = buff;
            pending = q.pending ++ job ∷ [];
          } in
          let same : q1 ≡ q' = some_inj (rw (there, fits) at run) in
          subst (λ r. IsPooled r (texts ++ doc_str ∷ [])) same
            (record {
              sized = length-set q.matchdocjs_buff spot doc_str ∙ inv.sized;
              total =
                  let all : length (spot ∷ rest) + length q.pending ≡ 64 = rw e at (inv.total) in
                  omega (arith, length-append q.pending (job ∷ []));
              shared = λ x.
                  let before : count x (spot ∷ rest) + count x (spots q.pending)
                      ≡ to_nat (ltb x 64) =
                    rw e at (inv.shared x) in
                  omega (
                    arith,
                    ap (count x) (spots-append q.pending (job ∷ [])),
                    count-append x (spots q.pending) (spot ∷ []),
                  );
              reads =
                  Reads-append buff q.pending texts job doc_str
                    (Reads-set q.matchdocjs_buff q.pending texts spot doc_str inside free inv.reads)
                    (get_elem?-set q.matchdocjs_buff spot spot doc_str inside ∙ ground arith);
            })
      | inr long ↦ absurd (some_ne_none (rw (there, long) at run))
    ]
  where
    some_ne_none : {r : Documents} → none ≡ some r → ⊥
    some_ne_none h = cc

free_spot_of-IsPooled :
    (jobs : List DedupJob) (q q' : Documents) (t : CString) (texts : List CString)
    → q.pending ≡ jobs
    → free_spot_of jobs q ≡ some q'
    → IsPooled q (t ∷ texts)
    → IsPooled q' texts
unfolding free_spot_of
free_spot_of-IsPooled [] q q' t texts e run inv = absurd (ground arith)
free_spot_of-IsPooled (job ∷ jobs) q q' t texts e run inv =
    let q1 : Documents = record q { empty_spot = q.empty_spot ++ job.spot ∷ []; pending = jobs } in
    let same : q1 ≡ q' = some_inj run in
    let reads : Reads q.matchdocjs_buff (job ∷ jobs) (t ∷ texts) = rw e at (inv.reads) in
    subst (λ r. IsPooled r texts) same
      (record {
        sized = inv.sized;
        total =
            let all : length q.empty_spot + length (job ∷ jobs) ≡ 64 = rw e at (inv.total) in
            omega (arith, length-append q.empty_spot (job.spot ∷ []));
        shared = λ x.
            let before : count x q.empty_spot + count x (spots (job ∷ jobs)) ≡ to_nat (ltb x 64) =
              rw e at (inv.shared x) in
            omega (arith, count-append x q.empty_spot (job.spot ∷ []));
        reads = reads.1;
      })

count-spots_from :
    (x i n : ℕ) → count x (spots_from i n) ≡ (if ltb x i then 0 else if ltb x (i + n) then 1 else 0)
unfolding spots_from
count-spots_from x i zero = ground arith
count-spots_from x i (suc n) = ground (arith, count-spots_from x (i + 1) n)

length-spots_from : (i n : ℕ) → length (spots_from i n) ≡ n
unfolding spots_from
length-spots_from i zero = refl
length-spots_from i (suc n) = ap suc (length-spots_from (i + 1) n)

length-empty_buffers : (n : ℕ) → length (empty_buffers n) ≡ n
unfolding empty_buffers
length-empty_buffers zero = refl
length-empty_buffers (suc n) = ap suc (length-empty_buffers n)

new_documents-IsPooled : IsPooled new_documents []
unfolding new_documents
new_documents-IsPooled = record {
  sized = length-empty_buffers 64;
  total = omega (arith, length-spots_from 0 64);
  shared = λ x. ground (arith, count-spots_from x 0 64);
  reads = tt;
}

Run-IsPooled : {q : Documents} {texts : List CString} → Run q texts → IsPooled q texts
unfolding submit free_spot
Run-IsPooled started = new_documents-IsPooled
Run-IsPooled (submitted {q} {q'} {texts} our_id doc_id doc_str before run) =
    submit_at-IsPooled q.empty_spot our_id doc_id doc_str q q' texts refl run (Run-IsPooled before)
Run-IsPooled (finished {q} {q'} {texts} t before run) =
    free_spot_of-IsPooled q.pending q q' t texts refl run (Run-IsPooled before)

read_document_lem :
    (jobs : List DedupJob) (q : Documents) (t : CString) (texts : List CString)
    → Reads q.matchdocjs_buff jobs (t ∷ texts)
    → (job : DedupJob) × (read_document jobs q ≡ some (job, t))
unfolding read_document
read_document_lem [] q t texts h = absurd h
read_document_lem (job ∷ jobs) q t texts h = (job, rw (h.0) refl)

-- However the calls of `MatchDocument` and the jobs alternate, the job that is next reads the document that
-- was passed to its call: no later call has written to its buffer.
pub next_document-Run :
    {q : Documents} {texts : List CString} (t : CString)
    → Run q (t ∷ texts)
    → (job : DedupJob) × (next_document q ≡ some (job, t))
unfolding next_document
next_document-Run {q} {texts} t run =
    read_document_lem q.pending q t texts ((Run-IsPooled run).reads)

submit_at_waits :
    (empties : List ℕ) (our_id doc_id : ℕ) (doc_str : CString) (q : Documents)
    (texts : List CString)
    → q.empty_spot ≡ empties
    → IsPooled q texts
    → length doc_str < max_doc_length
    → (submit_at empties our_id doc_id doc_str q ≡ none) ↔ (length q.pending ≡ 64)
unfolding submit_at
submit_at_waits [] our_id doc_id doc_str q texts e inv short =
    let all : length {A = ℕ} [] + length q.pending ≡ 64 = rw e at (inv.total) in
    (λ h. omega (arith, all), λ h. refl)
submit_at_waits (spot ∷ rest) our_id doc_id doc_str q texts e inv short =
    let once : count spot (spot ∷ rest) + count spot (spots q.pending) ≡ to_nat (ltb spot 64) =
      rw e at (inv.shared spot) in
    let lt : spot < 64 = ground arith in
    let all : length (spot ∷ rest) + length q.pending ≡ 64 = rw e at (inv.total) in
    let (old, there) = get_elem?_of_lt q.matchdocjs_buff spot (omega (arith, inv.sized)) in
    let fits : ltb (length doc_str) max_doc_length ≡ true = lt→ltb _ _ short in
    (λ h. absurd (some_ne_none (rw (there, fits) at h)), λ h. absurd (omega (arith, all)))
  where
    some_ne_none : {r : Documents} → some r ≡ none → ⊥
    some_ne_none h = cc

-- At most 64 documents wait, and a call of `MatchDocument` with a document that fits a buffer waits only when
-- 64 documents do.
pub submit-Run :
    {q : Documents} {texts : List CString} (our_id doc_id : ℕ) (doc_str : CString)
    → Run q texts
    → length doc_str < max_doc_length
    → (length q.pending ≤ 64) × ((submit our_id doc_id doc_str q ≡ none) ↔ (length q.pending ≡ 64))
unfolding submit
submit-Run {q} {texts} our_id doc_id doc_str run short =
    let inv = Run-IsPooled run in
    (
      omega (arith, inv.total),
      submit_at_waits q.empty_spot our_id doc_id doc_str q texts refl inv short,
    )
