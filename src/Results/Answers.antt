-- ===== src/Results/Answers.antt =====
-- From the recorded matches of a batch to the ids that are returned for a document.
use sigmod_programming_conte.Base.{
  drop-suc, some_inj, get_elem?-drop, get_elem?_of_lt, ℕ, zero, suc, ◌+◌, ◌-◌, ◌≤◌, ◌<◌, ◌≡◌, refl,
  ap, ap₂, ◌∙◌, Bool, true, false, Option, some, List, [], ◌∷◌, map, length, replicate, get_elem?,
  drop, ltb, ◌==◌, if◌then◌else◌, to_nat, ◌>>=◌, >>=-eq-some, arith, All, count,
}
use sigmod_programming_conte.Core.{CString, TokenId}
use sigmod_programming_conte.Library.{DenseMap}
use sigmod_programming_conte.Manager.Defs.{Manager}
use sigmod_programming_conte.Matching.Relations.{WordSat}
use sigmod_programming_conte.Jobs.Defs.{Job}
use sigmod_programming_conte.Queries.Order.{IsSorted}
use sigmod_programming_conte.Queries.Index.{QueryInfo, info_at}
use sigmod_programming_conte.Results.Bitarea.{Bitarea, check_qmid, columns, new_bitarea}
use sigmod_programming_conte.Results.Marks.{flag, words_of, IsSized}
use sigmod_programming_conte.Results.Sort.{results}
use sigmod_programming_conte.Results.Ids.{ids_if, entry_ids, occurrences, results-IsSorted}
use sigmod_programming_conte.Results.Schedule.{up_from}
use sigmod_programming_conte.Results.Shares.{IsGenRes, Covers}
use sigmod_programming_conte.Results.Generate.{run_gen_jobs}
use sigmod_programming_conte.Results.Ranges.{All-get_elem?}
use sigmod_programming_conte.Results.Cover.{batch_counts, BatchFits, run_gen_jobs-Covers}

-- How many entries a query of an index has.
abbrev pub sizes : List QueryInfo → List ℕ
sizes = map (λ (q : QueryInfo). length q.tids)

get_elem?-replicate : {A : Type 0} (n i : ℕ) (a : A) → i < n → get_elem? (replicate n a) i ≡ some a
get_elem?-replicate zero i a lt = absurd (omega arith)
get_elem?-replicate (suc n) zero a lt = refl
get_elem?-replicate (suc n) (suc i) a lt = get_elem?-replicate n i a (omega arith)

get_elem?-columns :
    (counts : List ℕ) (j : ℕ) {c : ℕ}
    → get_elem? counts j ≡ some c
    → get_elem? (columns counts) j ≡ some (record { token = replicate 5 0; count = c })
unfolding columns
get_elem?-columns [] j h = absurd (cc h)
get_elem?-columns (n ∷ counts) zero h = cc
get_elem?-columns (n ∷ counts) (suc j) h = get_elem?-columns counts j h

-- The flags of a new bitarea are 0.
new_flag :
    (counts : List ℕ) (ndocs i j k : ℕ) {c : ℕ}
    → i < ndocs
    → get_elem? counts j ≡ some c
    → k < 5
    → (flag (new_bitarea counts ndocs) i j k ≡ some 0)
      × (words_of (new_bitarea counts ndocs) i j ≡ some c)
unfolding new_bitarea
new_flag counts ndocs i j k lt there five =
    let row = get_elem?-replicate ndocs i (columns counts) lt in
    let cell = get_elem?-columns counts j there in
    (rw (row, cell) (get_elem?-replicate 5 k 0 five), rw (row, cell) refl)

check_qmid_lem :
    (b : Bitarea) (i j c : ℕ) (v : ℕ → ℕ)
    → ((k : ℕ) → k < 5 → flag b i j k ≡ some (v k))
    → words_of b i j ≡ some c
    → check_qmid i (j + 1) b ≡ some (v 1 + v 0 + v 2 + v 3 + v 4 == c)
unfolding check_qmid
check_qmid_lem b i j c v flags words =
    let (row, at_row, e) =
      >>=-eq-some (get_elem? b.vault_ i) (λ row. get_elem? row j >>= λ cell. some cell.count)
        words in
    let (cell, at_cell, size) = >>=-eq-some (get_elem? row j) (λ cell. some cell.count) e in
    let same : j + 1 - 1 ≡ j = omega arith in
    let one : ltb 0 (j + 1) ≡ true = ground arith in
    let read : (k : ℕ) → k < 5 → get_elem? cell.token k ≡ some (v k) =
      λ k lt. rw (at_row, at_cell) at (flags k lt) in
    rw
      (
        at_row,
        one,
        same,
        at_cell,
        read 1 (omega arith),
        read 0 (omega arith),
        read 2 (omega arith),
        read 3 (omega arith),
        read 4 (omega arith),
      )
      (ap (λ n. some (v 1 + v 0 + v 2 + v 3 + v 4 == n)) (some_inj size))

-- How many words of query entry `j` a document has.
abbrev pub matched : (ℕ → ℕ → ℕ → Bool) → ℕ → ℕ → ℕ
matched hit i j =
    to_nat (hit i j 1)
    + to_nat (hit i j 0)
    + to_nat (hit i j 2)
    + to_nat (hit i j 3)
    + to_nat (hit i j 4)

-- How often an id is in the entries, the first number `j`, of which a document has as many words as there are.
abbrev pub answers : (ℕ → ℕ → ℕ → Bool) → ℕ → ℕ → ℕ → List QueryInfo → ℕ
answers hit a i j [] = 0
answers hit a i j (info ∷ qi) =
    (if matched hit i j == length info.tids then count a info.qids else 0)
    + answers hit a i (j + 1) qi

-- The entries of an index, when the document's flags are those of `hit`.
module _ (qi : List QueryInfo) (b : Bitarea) (did : ℕ) (hit : ℕ → ℕ → ℕ → Bool)
    (checked : (j : ℕ) (info : QueryInfo)
      → get_elem? qi j ≡ some info
      → check_qmid (did - 1) (j + 1) b ≡ some (matched hit (did - 1) j == length info.tids)) where
  entry_count :
      (a j : ℕ) (info : QueryInfo)
      → get_elem? qi j ≡ some info
      → count a (entry_ids qi b did (j + 1))
        ≡ (if matched hit (did - 1) j == length info.tids then count a info.qids else 0)
  unfolding info_at
  entry_count a j info there =
      let step : j + 1 ≡ suc j = omega arith in
      let at : info_at (j + 1) qi ≡ some info = rw step there in
      ap₂ (λ o i. count a (ids_if o i)) (checked j info there) at
      ∙ of_test (matched hit (did - 1) j == length info.tids)
    where
      of_test :
          (t : Bool) → count a (ids_if (some t) (some info)) ≡ (if t then count a info.qids else 0)
      of_test true = refl
      of_test false = refl

  occurrences-answers :
      (a j : ℕ) (rest : List QueryInfo)
      → drop j qi ≡ rest
      → occurrences qi b did a (length rest) (j + 1) ≡ answers hit a (did - 1) j rest
  occurrences-answers a j [] e = refl
  occurrences-answers a j (info ∷ rest) e =
      let step : j + 1 ≡ suc j = omega arith in
      ap₂ (λ x y. x + y) (entry_count a j info (get_elem?-drop qi j e))
        (occurrences-answers a (j + 1) rest (ap (λ n. drop n qi) step ∙ drop-suc qi j e))

  every_entry :
      b.size_ ≡ length qi
      → (qmid : ℕ) → 1 ≤ qmid
      → qmid ≤ b.size_
      → (matches : Bool) × (check_qmid (did - 1) qmid b ≡ some matches)
  every_entry size zero low high = absurd (omega arith)
  every_entry size (suc j) low high =
      let (info, there) = get_elem?_of_lt qi j (omega (arith, size)) in
      let step : suc j ≡ j + 1 = omega arith in
      (
        matched hit (did - 1) j == length info.tids,
        ap (λ q. check_qmid (did - 1) q b) step ∙ checked j info there,
      )

get_elem?-sizes :
    (qi : List QueryInfo) (j : ℕ) (info : QueryInfo)
    → get_elem? qi j ≡ some info
    → get_elem? (sizes qi) j ≡ some (length info.tids)
get_elem?-sizes [] j info h = absurd (cc h)
get_elem?-sizes (q ∷ qi) zero info h = ap (λ (q : QueryInfo). some (length q.tids)) (some_inj h)
get_elem?-sizes (q ∷ qi) (suc j) info h = get_elem?-sizes qi j info h

length-sizes : (qi : List QueryInfo) → length (sizes qi) ≡ length qi
length-sizes [] = refl
length-sizes (q ∷ qi) = ap suc (length-sizes qi)

new-IsSized :
    (qi : List QueryInfo) (docs : ℕ) → IsSized docs (length qi) (new_bitarea (sizes qi) docs)
new-IsSized qi docs i j k hi hj hk =
    let (info, there) = get_elem?_of_lt qi j hj in
    (0, (new_flag (sizes qi) docs i j k hi (get_elem?-sizes qi j info there) hk).0)

module _ {H : Type 0} (dict : DenseMap CString TokenId) (tables : DenseMap ℕ (List WordSat))
    (docs : ℕ) (m : Manager dict.Map H) (rels : List tables.Map) (wordbatchv : List (List ℕ))
    (qi : List QueryInfo) where
  -- Whether a match that was recorded for a word of the batch counts.
  abbrev pub counts : ℕ → ℕ → ℕ → Bool
  counts = batch_counts dict tables docs (length qi) m rels wordbatchv

  -- A whole batch: after the jobs that take all its words have set flags in a new bitarea, whatever ranges the
  -- words were dealt out in, `results` of a document returns, in ascending order, the ids of exactly those query entries
  -- for which the words with a recorded match that counts for the document are as many as the entry has words. This holds
  -- if every recorded match fits: the words are stored, with documents of the batch and requests for entries that there
  -- are; and if the ids of each entry ascend.
  pub run_gen_jobs-results :
      (jobs : List Job) (did : ℕ)
      → 1 ≤ did
      → did ≤ docs
      → length wordbatchv ≡ 28
      → All IsGenRes jobs
      → All (λ x. Covers wordbatchv x jobs) (up_from 0 28)
      → BatchFits dict tables docs (length qi) m rels wordbatchv
      → All (λ (info : QueryInfo). IsSorted info.qids) qi
      → (b : Bitarea) × (out : List ℕ) × (run_gen_jobs dict tables m rels wordbatchv jobs
            (new_bitarea (sizes qi) docs)
          ≡ some b)
        × (results qi b did ≡ some out)
        × IsSorted out
        × ((a : ℕ) → count a out ≡ answers counts a (did - 1) 0 qi)
  unfolding new_bitarea info_at
  run_gen_jobs-results jobs did low high words are_jobs covers fits sorted =
      let marks =
        run_gen_jobs-Covers dict tables docs (length qi) m rels wordbatchv jobs
          (new_bitarea (sizes qi) docs) fits words are_jobs covers (new-IsSized qi docs) in
      let b = marks.after in
      let checked : (j : ℕ) (info : QueryInfo)
          → get_elem? qi j ≡ some info
          → check_qmid (did - 1) (j + 1) b ≡ some (matched counts (did - 1) j == length info.tids) =
        λ j info there.
          let new = λ (k : ℕ) (lt : k < 5).
            new_flag (sizes qi) docs (did - 1) j k (omega arith) (get_elem?-sizes qi j info there)
              lt in
          check_qmid_lem b (did - 1) j (length info.tids) (λ k. to_nat (counts (did - 1) j k))
            (λ k lt. marks.flags (did - 1) j k ∙ set_or (counts (did - 1) j k) (new k lt).0)
            (marks.kept (did - 1) j ∙ (new 0 (omega arith)).1) in
      let size : b.size_ ≡ length qi = marks.size ∙ new_size docs in
      let (out, ran, ascending, same) =
        results-IsSorted qi b did low (every_entry qi b did counts checked size)
          (omega (arith, size)) (entry_sorted sorted) in
      (
        b,
        out,
        marks.ran,
        ran,
        ascending,
        λ a.
            same a
            ∙ ap (λ n. occurrences qi b did a n 1) size
            ∙ occurrences-answers qi b did counts checked a 0 qi refl,
      )
    where
      new_size : (docs : ℕ) → (new_bitarea (sizes qi) docs).size_ ≡ length qi
      new_size docs = length-sizes qi

      set_or : (t : Bool) {o : Option ℕ} → o ≡ some 0 → (if t then some 1 else o) ≡ some (to_nat t)
      set_or true e = refl
      set_or false e = e

      entry_sorted :
          All (λ (info : QueryInfo). IsSorted info.qids) qi
          → (qmid : ℕ) (info : QueryInfo) → info_at qmid qi ≡ some info
          → IsSorted info.qids
      entry_sorted sorted zero info h = absurd (cc h)
      entry_sorted sorted (suc j) info h =
          All-get_elem? (λ (info : QueryInfo). IsSorted info.qids) qi j sorted h
