-- ===== src/Results/Cover.antt =====
-- All the `JobGenRes` of a batch, whatever ranges the words are dealt out in.
use sigmod_programming_conte.Base.{
  ℕ, ◌-◌, ◌≤◌, ◌≡◌, refl, sym, ap, ◌∙◌, Bool, some, List, [], ◌∷◌, length, get_elem?, drop, arith,
  All,
}
use sigmod_programming_conte.Core.{CString, TokenId}
use sigmod_programming_conte.Library.{DenseMap}
use sigmod_programming_conte.Manager.Defs.{Manager}
use sigmod_programming_conte.Matching.Relations.{WordSat}
use sigmod_programming_conte.Jobs.Defs.{Job}
use sigmod_programming_conte.Results.Bitarea.{Bitarea}
use sigmod_programming_conte.Results.Marks.{Marks, IsSized, then_Marks, no_Marks, Marks-IsSized}
use sigmod_programming_conte.Results.Schedule.{up_from}
use sigmod_programming_conte.Results.Order.{ranges}
use sigmod_programming_conte.Results.Shares.{IsGenRes, is_gen_res, Covers}
use sigmod_programming_conte.Results.Any.{any, or_none, slice, any-Tiles, any-up_from, any_places}
use sigmod_programming_conte.Results.Generate.{run_gen_job, run_gen_jobs}
use sigmod_programming_conte.Results.Generated.{AllFit, word_counts, generate_res-Marks}
use sigmod_programming_conte.Results.Ranges.{
  job_counts, any_jobs, All-take, All-drop, All-at, inside, JobHas, of_ranges, All-get_elem?,
}

module _ {H : Type 0} (dict : DenseMap CString TokenId) (tables : DenseMap ℕ (List WordSat))
    (docs queries : ℕ) (m : Manager dict.Map H) (rels : List tables.Map)
    (wordbatchv : List (List ℕ)) where
  -- Whether a match that was recorded for a word of the batch counts for word `k` of query entry `j` in document `i`.
  abbrev pub batch_counts : ℕ → ℕ → ℕ → Bool
  batch_counts i j k = any (any (word_counts dict tables docs queries m rels i j k)) wordbatchv

  -- Every match that the threads recorded for a word of the batch fits.
  abbrev pub BatchFits : Type 0
  BatchFits = All (AllFit dict tables docs queries m rels) wordbatchv

  abbrev range_counts : ℕ → ℕ → ℕ → ℕ → ℕ → ℕ → Bool
  range_counts i j k x start finish =
      any (word_counts dict tables docs queries m rels i j k)
        (slice (or_none (get_elem? wordbatchv x)) start finish)

  abbrev InWords : ℕ → ℕ × ℕ → Type 0
  InWords x r =
      (keys : List ℕ) × (get_elem? wordbatchv x ≡ some keys) × (r.0 ≤ r.1) × (r.1 ≤ length keys)

  run_gen_jobs-Marks :
      (jobs : List Job) (b : Bitarea)
      → BatchFits
      → All IsGenRes jobs
      → All (JobHas InWords) jobs
      → IsSized docs queries b
      → Marks b
          (run_gen_jobs dict tables m rels wordbatchv jobs b)
          (λ i j k. any (job_counts (range_counts i j k)) jobs)
  unfolding run_gen_jobs run_gen_job
  run_gen_jobs-Marks [] b fits h inw sized = no_Marks docs queries (λ i j k. refl)
  run_gen_jobs-Marks (job ∷ jobs) b fits h inw sized =
      let one = of_job h.0 inw.0 in
      let rest =
        run_gen_jobs-Marks jobs one.after fits h.1 inw.1 (Marks-IsSized docs queries sized one) in
      then_Marks docs queries (run_gen_jobs dict tables m rels wordbatchv jobs) one rest
        (λ i j k. refl)
    where
      of_job :
          {job : Job}
          → IsGenRes job
          → JobHas InWords job
          → Marks b
              (run_gen_job dict tables m rels wordbatchv job b)
              (λ i j k. job_counts (range_counts i j k) job)
      of_job (is_gen_res s e l lt) (keys, there, order, within) = rw there (
          generate_res-Marks dict tables docs queries m rels wordbatchv s e l keys b there order
            within sized
            (All-take _ (drop s keys) (e - s) (
              All-drop _ keys s
                (All-get_elem? (AllFit dict tables docs queries m rels) wordbatchv l fits there))))

  -- The jobs of a batch, which take all words, set the flags that a match for any word of the batch asks for.
  pub run_gen_jobs-Covers :
      (jobs : List Job) (b : Bitarea)
      → BatchFits
      → length wordbatchv ≡ 28
      → All IsGenRes jobs
      → All (λ x. Covers wordbatchv x jobs) (up_from 0 28)
      → IsSized docs queries b
      → Marks b (run_gen_jobs dict tables m rels wordbatchv jobs b) batch_counts
  run_gen_jobs-Covers jobs b fits words h covers sized =
      let marks =
        run_gen_jobs-Marks jobs b fits h
          (of_ranges InWords jobs h (λ x lt.
            ranges_inside x
              (All-at (λ x. Covers wordbatchv x jobs) 0 28 x covers (omega arith) (omega arith))))
          sized in
      record {
        after = marks.after;
        ran = marks.ran;
        flags = λ i j k. rw (← counts i j k) (marks.flags i j k);
        kept = marks.kept;
        size = marks.size;
      }
    where
      ranges_inside : (x : ℕ) → Covers wordbatchv x jobs → All (InWords x) (ranges x jobs)
      ranges_inside x (keys, most, there, tiles) =
          of_all (ranges x jobs) (inside most 0 (length keys) (ranges x jobs) tiles).1
        where
          of_all :
              (rs : List (ℕ × ℕ))
              → All (λ (r : ℕ × ℕ). (r.0 ≤ r.1) × (r.1 ≤ length keys)) rs
              → All (InWords x) rs
          of_all [] all = tt
          of_all (r ∷ rs) all = ((keys, there, all.0.0, all.0.1), of_all rs all.1)

      one_list :
          (i j k x : ℕ)
          → Covers wordbatchv x jobs
          → any (λ (r : ℕ × ℕ). range_counts i j k x (r.0) (r.1)) (ranges x jobs)
            ≡ any
                (word_counts dict tables docs queries m rels i j k)
                (or_none (get_elem? wordbatchv x))
      one_list i j k x (keys, most, there, tiles) = rw there (
          sym (
            any-Tiles (word_counts dict tables docs queries m rels i j k) keys most 0
              (ranges x jobs) tiles))

      counts : (i j k : ℕ) → any (job_counts (range_counts i j k)) jobs ≡ batch_counts i j k
      counts i j k =
          let p = word_counts dict tables docs queries m rels i j k in
          any_jobs (range_counts i j k) jobs h
          ∙ any-up_from (λ x. any (λ (r : ℕ × ℕ). range_counts i j k x (r.0) (r.1)) (ranges x jobs))
              (λ x. any p (or_none (get_elem? wordbatchv (x - 0)))) 0 28
              (λ x low lt.
                one_list i j k x
                  (All-at (λ x. Covers wordbatchv x jobs) 0 28 x covers (omega arith) lt)
                ∙ ap (λ n. any p (or_none (get_elem? wordbatchv n))) (sub_zero x))
          ∙ ap (λ n. any (λ x. any p (or_none (get_elem? wordbatchv (x - 0)))) (up_from 0 n))
              (sym words)
          ∙ any_places (any p) wordbatchv 0
        where
          sub_zero : (x : ℕ) → x ≡ x - 0
          sub_zero x = omega arith
