-- ===== src/Results/Shares.antt =====
-- The shares of the words that the `JobGenRes` of a batch take.
use sigmod_programming_conte.Base.{
  ltb, ℕ, zero, suc, ◌+◌, ◌-◌, ◌≤◌, ◌<◌, ◌≡◌, refl, ◌∙◌, true, false, Option, some, List, [], ◌∷◌,
  ◌++◌, append-nil, append_assoc, length, get_elem?, ◌==◌, arith, All, count, Bool-cases, inl, inr,
}
use sigmod_programming_conte.Base.Bits.{passes}
use sigmod_programming_conte.Jobs.Defs.{Job, job_gen_res}
use sigmod_programming_conte.Jobs.Split.{split, split_from}
use sigmod_programming_conte.Jobs.Tiles.{Tiles}
use sigmod_programming_conte.Jobs.Scheduler.{JobScheduler}
use sigmod_programming_conte.Jobs.Fetch.{IsCounted}
use sigmod_programming_conte.Results.Schedule.{up_from, down_to}
use sigmod_programming_conte.Results.Order.{ranges, ranges-append, gen_res, ranges-split}

-- A `JobGenRes` for one of the 28 lists of words.
pub data IsGenRes : Job → Type 0 where
  is_gen_res :
      (start finish length_ : ℕ) → length_ < 28 → IsGenRes (job_gen_res start finish length_)

-- The jobs for the words at place `x` take all of them, in ranges that follow one another.
abbrev pub Covers : List (List ℕ) → ℕ → List Job → Type 0
Covers wordbatchv x jobs =
    (keys : List ℕ) × (most : ℕ) × (get_elem? wordbatchv x ≡ some keys)
    × Tiles most 0 (length keys) (ranges x jobs)

-- The call returned, and added these jobs to the queue.
pub record Adds (js : JobScheduler) (r : Option JobScheduler) (jobs : List Job) : Type 0 where
  pub after : JobScheduler
  pub ran : r ≡ some after
  pub queue : after.jobs_queue ≡ js.jobs_queue ++ jobs
  pub counted : IsCounted after

-- Each of the 28 lengths is scheduled once.
pub lengths_table :
    passes (λ x. count (x + 4) (down_to 4 5) + count (x + 4) (up_from 9 23) == 1) 28 ≡ true
unfolding passes
lengths_table = refl

pub split_from-IsGenRes :
    (l wpj size fuel k : ℕ) → l < 28 → All IsGenRes (split_from (gen_res l) wpj size fuel k)
unfolding split_from
split_from-IsGenRes l wpj size zero k lt = elim (Bool-cases (k == size)) [
  | inl e ↦ rw e tt
  | inr e ↦ rw e (is_gen_res k size l lt, tt)
]
split_from-IsGenRes l wpj size (suc fuel) k lt =
    let rest = split_from-IsGenRes l wpj size fuel (k + wpj) lt in
    elim (Bool-cases (ltb (k + wpj) size)) [
      | inl e ↦ rw e (is_gen_res k (k + wpj) l lt, rest)
      | inr e ↦ elim (Bool-cases (k == size)) [
        | inl done ↦ rw (e, done) tt
        | inr more ↦ rw (e, more) (is_gen_res k size l lt, tt)
      ]
    ]

pub split-IsGenRes : (l wpj size : ℕ) → l < 28 → All IsGenRes (split (gen_res l) wpj size)
unfolding split
split-IsGenRes l wpj size lt = split_from-IsGenRes l wpj size size 0 lt

pub append-IsGenRes :
    (jobs more : List Job) → All IsGenRes jobs → All IsGenRes more → All IsGenRes (jobs ++ more)
append-IsGenRes [] more h k = k
append-IsGenRes (job ∷ jobs) more h k = (h.0, append-IsGenRes jobs more h.1 k)

pub All-up_from :
    (P : ℕ → Type 0) (first n : ℕ)
    → ((x : ℕ) → first ≤ x → x < first + n → P x)
    → All P (up_from first n)
All-up_from P first zero h = tt
All-up_from P first (suc n) h = (
  h first (omega arith) (omega arith),
  All-up_from P (first + 1) n (λ x low lt. h x (omega arith) (omega arith)),
)

module _ (x l wpj size : ℕ) (more : List Job) (low : 4 ≤ l) where
  pub other_length :
      (x + 4 == l) ≡ false → ranges x (split (gen_res (l - 4)) wpj size ++ more) ≡ ranges x more
  other_length e =
      let ne : (x == l - 4) ≡ false = ground arith in
      ranges-append x (split (gen_res (l - 4)) wpj size) more
      ∙ rw (ranges-split x (l - 4) wpj size, ne) refl

  pub same_length :
      (x + 4 == l) ≡ true
      → ranges x more ≡ []
      → ranges x (split (gen_res (l - 4)) wpj size ++ more) ≡ split (λ a b. (a, b)) wpj size
  same_length e none_more =
      let same : (x == l - 4) ≡ true = ground arith in
      ranges-append x (split (gen_res (l - 4)) wpj size) more
      ∙ rw (ranges-split x (l - 4) wpj size, same, none_more)
          (append-nil (split (λ a b. (a, b)) wpj size))

-- Six additions to a queue.
pub one_after_other {ℓ} :
    {A : Type ℓ} (q : List A) {q0 q1 q2 q3 q4 q5 : List A} (a b c d e f : List A)
    → q0 ≡ q ++ a
    → q1 ≡ q0 ++ b
    → q2 ≡ q1 ++ c
    → q3 ≡ q2 ++ d
    → q4 ≡ q3 ++ e
    → q5 ≡ q4 ++ f
    → q5 ≡ q ++ (a ++ (b ++ ((c ++ d) ++ (e ++ f))))
one_after_other q a b c d e f p0 p1 p2 p3 p4 p5 = rw (p5, p4, p3, p2, p1, p0) (simp append_assoc)

-- A length that is scheduled in one of two loops.
pub either-Covers :
    (wordbatchv : List (List ℕ)) (x n k : ℕ) (low high : List Job)
    → n + k ≡ 1
    → (n ≡ 0 → ranges x low ≡ [])
    → (n ≡ 1 → Covers wordbatchv x low)
    → (k ≡ 0 → ranges x high ≡ [])
    → (k ≡ 1 → Covers wordbatchv x high)
    → Covers wordbatchv x (low ++ high)
either-Covers wordbatchv x zero k low high e low_none low_covers high_none high_covers =
    let (keys, most, there, tiles) = high_covers (omega arith) in
    (keys, most, there, rw (ranges-append x low high, low_none refl) tiles)
either-Covers wordbatchv x (suc n) k low high e low_none low_covers high_none high_covers =
    let (keys, most, there, tiles) = low_covers (omega arith) in
    (
      keys,
      most,
      there,
      rw (ranges-append x low high, high_none (omega arith), append-nil (ranges x low)) tiles,
    )
