-- ===== src/Results/Batch.antt =====
-- `JobRun` schedules the whole batch.
use sigmod_programming_conte.Base.{
  ℕ, zero, suc, ◌+◌, ◌-◌, ◌/◌, min, ◌≤◌, ◌<◌, ◌≡◌, refl, sym, ap, ◌∙◌, some, List, [], ◌∷◌, ◌++◌,
  map, append-nil, append_assoc, length, get_elem?, get_elem?_of_lt, ◌==◌, arith, All, count,
  Bool-cases, inl, inr, ==→eq,
}
use sigmod_programming_conte.Base.Bits.{passes_at}
use sigmod_programming_conte.Core.{CString, TokenId}
use sigmod_programming_conte.Library.{DenseMap}
use sigmod_programming_conte.Manager.Defs.{Manager}
use sigmod_programming_conte.Jobs.Defs.{Job, job_generate_res}
use sigmod_programming_conte.Jobs.Split.{split}
use sigmod_programming_conte.Jobs.Tiles.{split-Tiles}
use sigmod_programming_conte.Jobs.Scheduler.{JobScheduler, schedule}
use sigmod_programming_conte.Jobs.Fetch.{IsCounted, schedule_lem}
use sigmod_programming_conte.Results.Schedule.{
  up_from, down_to, barriers, gen_hashes_list, split_gen_hashes, sum_tokens, batch_qtokens,
  schedule_gen_res, schedule_lengths, split_generate_res, run_batch,
}
use sigmod_programming_conte.Results.Order.{ranges, gen_res}
use sigmod_programming_conte.Results.Shares.{
  IsGenRes, Covers, Adds, lengths_table, split-IsGenRes, append-IsGenRes, All-up_from, other_length,
  same_length, one_after_other, either-Covers,
}

module _ {H : Type 0} (dict : DenseMap CString TokenId) (m : Manager dict.Map H)
    (wordbatchv : List (List ℕ)) (spaces : length m.indexes ≡ 28)
    (words : length wordbatchv ≡ 28) where
  sum_tokens-some : (n i : ℕ) → i + n ≤ 28 → (sum : ℕ) × (sum_tokens dict m.indexes n i ≡ some sum)
  unfolding sum_tokens
  sum_tokens-some zero i le = (0, refl)
  sum_tokens-some (suc n) i le =
      let (s, here) = get_elem?_of_lt m.indexes i (omega arith) in
      let (sum, rest) = sum_tokens-some n (i + 1) (omega arith) in
      (s.max_tokens + sum, rw (here, rest) refl)

  batch_qtokens-some :
      (space : ℕ) → space < 32 → (sum : ℕ) × (batch_qtokens dict space m ≡ some sum)
  unfolding batch_qtokens
  batch_qtokens-some space lt =
      sum_tokens-some (min (space - 4 + 3) 27 - (space - 4 - 3)) (space - 4 - 3) (omega arith)

  schedule_gen_res-Adds :
      (l : ℕ) (js : JobScheduler)
      → 4 ≤ l
      → l ≤ 31
      → IsCounted js
      → (keys : List ℕ) × (wpj : ℕ) × (get_elem? wordbatchv (l - 4) ≡ some keys)
        × (1 ≤ wpj)
        × Adds js
            (schedule_gen_res dict m wordbatchv l js)
            (split (gen_res (l - 4)) wpj (length keys))
  unfolding schedule_gen_res
  schedule_gen_res-Adds l js low high counted =
      let (keys, here) = get_elem?_of_lt wordbatchv (l - 4) (omega arith) in
      let (qtokens, sum) = batch_qtokens-some (l - 4 + 4) (omega arith) in
      let wpj = length keys / (qtokens + 1) / 4 + 1 in
      let jobs = split (gen_res (l - 4)) wpj (length keys) in
      let (queue, counted') = schedule_lem jobs js counted in
      (
        keys,
        wpj,
        here,
        omega arith,
        record {
          after = schedule jobs js;
          ran = rw (here, sum) refl;
          queue = queue;
          counted = counted';
        },
      )

  -- What the loop over some lengths adds, and for which words.
  abbrev Lengths : List ℕ → JobScheduler → Type 0
  Lengths ls js =
      (jobs : List Job) × Adds js (schedule_lengths dict m wordbatchv ls js) jobs
      × All IsGenRes jobs
      × ((x : ℕ) → count (x + 4) ls ≡ 0 → ranges x jobs ≡ [])
      × ((x : ℕ) → count (x + 4) ls ≡ 1 → Covers wordbatchv x jobs)

  schedule_lengths_lem :
      (ls : List ℕ) (js : JobScheduler)
      → All (λ l. (4 ≤ l) × (l ≤ 31)) ls
      → IsCounted js
      → Lengths ls js
  unfolding schedule_lengths
  schedule_lengths_lem [] js h counted = (
    [],
    record { after = js; ran = refl; queue = sym (append-nil js.jobs_queue); counted = counted },
    tt,
    λ x e. refl,
    λ x e. absurd (omega arith),
  )
  schedule_lengths_lem (l ∷ ls) js h counted =
      let (keys, wpj, here, one, first) = schedule_gen_res-Adds l js h.0.0 h.0.1 counted in
      let (more, rest, are_jobs, without, covers) =
        schedule_lengths_lem ls first.after h.1 first.counted in
      let piece = split (gen_res (l - 4)) wpj (length keys) in
      (
        piece ++ more,
        record {
          after = rest.after;
          ran = rw first.ran rest.ran;
          queue =
              rest.queue ∙ ap (λ q. q ++ more) first.queue ∙ append_assoc js.jobs_queue piece more;
          counted = rest.counted;
        },
        append-IsGenRes piece more (split-IsGenRes (l - 4) wpj (length keys) (omega (arith, h.0)))
            are_jobs,
        λ x e.
            other_length x l wpj (length keys) more h.0.0 (ground arith) ∙ without x (ground arith),
        λ x e. elim (Bool-cases (x + 4 == l)) [
          | inl same ↦
              let place : l - 4 ≡ x = ground arith in
              (
                keys,
                wpj,
                rw place at here,
                rw (same_length x l wpj (length keys) more h.0.0 same (without x (ground arith)))
                    (split-Tiles wpj (length keys) one),
              )
          | inr other ↦
              let (keys', most, there, tiles) = covers x (ground arith) in
              (keys', most, there, rw (other_length x l wpj (length keys) more h.0.0 other) tiles)
        ],
      )

  -- `JobRun`, for 28 spaces and 28 lists of words, adds to the queue, in this order: the jobs of `SplitGenHashes`, which
  -- end with a barrier; a barrier for all threads; `JobGenRes` jobs that take the words of every length in ranges, without gap or
  -- overlap; a barrier for all threads; and one job for each document that was read.
  pub run_batch-Adds :
      (globaldocs : List ℕ) (js : JobScheduler)
      → IsCounted js
      → (js' : JobScheduler) × (res_jobs : List Job) × (run_batch dict m wordbatchv globaldocs js
          ≡ some js')
        × (js'.jobs_queue
            ≡ js.jobs_queue
              ++ (gen_hashes_list
                  ++ (barriers 23
                      ++ (res_jobs
                          ++ (barriers 23
                              ++ map job_generate_res (up_from 0 (length globaldocs)))))))
        × All IsGenRes res_jobs
        × All (λ x. Covers wordbatchv x res_jobs) (up_from 0 28)
  unfolding run_batch split_generate_res split_gen_hashes
  run_batch-Adds globaldocs js counted =
      let (q0, c0) = schedule_lem gen_hashes_list js counted in
      let js0 = schedule gen_hashes_list js in
      let (q1, c1) = schedule_lem (barriers 23) js0 c0 in
      let js1 = schedule (barriers 23) js0 in
      let (low, a, low_jobs, low_none, low_covers) =
        schedule_lengths_lem (down_to 4 5) js1 (omega arith) c1 in
      let (high, b, high_jobs, high_none, high_covers) =
        schedule_lengths_lem (up_from 9 23) a.after (omega arith) a.counted in
      let (q4, c4) = schedule_lem (barriers 23) b.after b.counted in
      let js4 = schedule (barriers 23) b.after in
      let docs = map job_generate_res (up_from 0 (length globaldocs)) in
      let (q5, c5) = schedule_lem docs js4 c4 in
      (
        schedule docs js4,
        low ++ high,
        rw (a.ran, b.ran) refl,
        one_after_other js.jobs_queue gen_hashes_list (barriers 23) low high (barriers 23) docs q0
            q1 a.queue b.queue q4 q5,
        append-IsGenRes low high low_jobs high_jobs,
        All-up_from (λ x. Covers wordbatchv x (low ++ high)) 0 28
            λ x _ lt.
              either-Covers wordbatchv x (count (x + 4) (down_to 4 5))
                (count (x + 4) (up_from 9 23)) low high
                (==→eq _ 1 (
                  passes_at (λ x. count (x + 4) (down_to 4 5) + count (x + 4) (up_from 9 23) == 1)
                    28 x lt lengths_table))
                (low_none x) (low_covers x) (high_none x) (high_covers x),
      )
