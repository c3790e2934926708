-- ===== src/Results/Ranges.antt =====
-- The `JobGenRes` of a batch by the lists of words that they take ranges of.
use sigmod_programming_conte.Base.{
  some_inj, ==→eq, subst, ℕ, zero, suc, ◌+◌, ◌≤◌, ◌<◌, ◌≡◌, refl, sym, ap₂, ◌∙◌, Bool, true, false,
  ◌&&◌, ◌||◌, some, List, [], ◌∷◌, get_elem?, take, drop, ◌==◌, if◌then◌else◌, arith, All,
  Bool-cases, inl, inr,
}
use sigmod_programming_conte.Jobs.Defs.{Job, job_gen_res}
use sigmod_programming_conte.Jobs.Tiles.{Tiles}
use sigmod_programming_conte.Results.Schedule.{up_from}
use sigmod_programming_conte.Results.Order.{ranges}
use sigmod_programming_conte.Results.Shares.{IsGenRes, is_gen_res}
use sigmod_programming_conte.Results.Any.{any, any-up_from, any-or, any_at}

-- Whether the range of a job counts.
abbrev pub job_counts : (ℕ → ℕ → ℕ → Bool) → Job → Bool
job_counts f (job_gen_res start finish length_) = f length_ start finish
job_counts f _ = false

any_none : (xs : List ℕ) → any (λ x. false) xs ≡ false
any_none [] = refl
any_none (x ∷ xs) = any_none xs

-- The jobs, sorted by the lists of words.
pub any_jobs :
    (f : ℕ → ℕ → ℕ → Bool) (jobs : List Job)
    → All IsGenRes jobs
    → any (job_counts f) jobs
      ≡ any (λ x. any (λ (r : ℕ × ℕ). f x (r.0) (r.1)) (ranges x jobs)) (up_from 0 28)
any_jobs f [] h = sym (any_none (up_from 0 28))
any_jobs f (job ∷ jobs) h = of_job h.0 (any_jobs f jobs h.1)
  where
    split_if :
        (x l s e : ℕ) (rs : List (ℕ × ℕ))
        → any (λ (r : ℕ × ℕ). f x (r.0) (r.1)) (if x == l then (s, e) ∷ rs else rs)
          ≡ ((x == l && f x s e) || any (λ (r : ℕ × ℕ). f x (r.0) (r.1)) rs)
    split_if x l s e rs = elim (Bool-cases (x == l)) [ inl t ↦ rw t refl | inr t ↦ rw t refl ]

    of_job :
        {job : Job}
        → IsGenRes job
        → any (job_counts f) jobs
          ≡ any (λ x. any (λ (r : ℕ × ℕ). f x (r.0) (r.1)) (ranges x jobs)) (up_from 0 28)
        → any (job_counts f) (job ∷ jobs)
          ≡ any (λ x. any (λ (r : ℕ × ℕ). f x (r.0) (r.1)) (ranges x (job ∷ jobs))) (up_from 0 28)
    of_job (is_gen_res s e l lt) rest =
        let tail : ℕ → Bool = λ x. any (λ (r : ℕ × ℕ). f x (r.0) (r.1)) (ranges x jobs) in
        sym (
          any-up_from
            (λ x. any (λ (r : ℕ × ℕ). f x (r.0) (r.1)) (ranges x (job_gen_res s e l ∷ jobs)))
            (λ x. (x == l && f x s e) || tail x) 0 28
            (λ x low high. split_if x l s e (ranges x jobs))
          ∙ any-or (λ x. x == l && f x s e) tail (up_from 0 28)
          ∙ ap₂ (λ a b. a || b) (any_at (λ x. f x s e) l 0 28 (omega arith) (omega arith))
              (sym rest))

pub All-take : (P : ℕ → Type 0) (xs : List ℕ) (n : ℕ) → All P xs → All P (take n xs)
All-take P xs zero h = tt
All-take P [] (suc n) h = tt
All-take P (x ∷ xs) (suc n) h = (h.0, All-take P xs n h.1)

pub All-drop : (P : ℕ → Type 0) (xs : List ℕ) (n : ℕ) → All P xs → All P (drop n xs)
All-drop P xs zero h = h
All-drop P [] (suc n) h = tt
All-drop P (x ∷ xs) (suc n) h = All-drop P xs n h.1

-- What holds of all elements, by place.
pub All-get_elem? :
    {A : Type 0} (P : A → Type 0) (xs : List A) (i : ℕ) {x : A}
    → All P xs
    → get_elem? xs i ≡ some x
    → P x
All-get_elem? P [] i h e = absurd (cc e)
All-get_elem? P (y ∷ xs) zero h e = subst P (some_inj e) h.0
All-get_elem? P (y ∷ xs) (suc i) h e = All-get_elem? P xs i h.1 e

pub All-at :
    (P : ℕ → Type 0) (first n x : ℕ) → All P (up_from first n) → first ≤ x → x < first + n → P x
All-at P first zero x h low lt = absurd (omega arith)
All-at P first (suc n) x h low lt = elim (Bool-cases (first == x)) [
  | inl e ↦ subst P (==→eq first x e) h.0
  | inr e ↦ All-at P (first + 1) n x h.1 (ground arith) (omega arith)
]

-- The ranges lie inside.
pub inside :
    (most k size : ℕ) (rs : List (ℕ × ℕ))
    → Tiles most k size rs
    → (k ≤ size) × All (λ (r : ℕ × ℕ). (r.0 ≤ r.1) × (r.1 ≤ size)) rs
inside most k size [] e = (omega (arith, e), tt)
inside most k size ((a, b) ∷ rs) (from, lt, le, rest) =
    let (more, all) = inside most b size rs rest in
    (omega (arith, from, lt, more), ((omega (arith, lt), more), all))

abbrev pub JobHas : (ℕ → ℕ × ℕ → Type 0) → Job → Type 0
JobHas P (job_gen_res start finish length_) = P length_ (start, finish)
JobHas P _ = Unit {0}

-- What holds of all ranges holds of all jobs.
pub of_ranges :
    (P : ℕ → ℕ × ℕ → Type 0) (jobs : List Job)
    → All IsGenRes jobs
    → ((x : ℕ) → x < 28 → All (P x) (ranges x jobs))
    → All (JobHas P) jobs
of_ranges P [] h all = tt
of_ranges P (job ∷ jobs) h all = of_job h.0 all (of_ranges P jobs h.1)
  where
    later :
        (x l s e : ℕ)
        → All (P x) (if x == l then (s, e) ∷ ranges x jobs else ranges x jobs)
        → All (P x) (ranges x jobs)
    later x l s e h = elim (Bool-cases (x == l)) [
      | inl t ↦ let h' : All (P x) ((s, e) ∷ ranges x jobs) = rw t at h in h'.1
      | inr t ↦ rw t at h
    ]

    of_job :
        {job : Job}
        → IsGenRes job
        → ((x : ℕ) → x < 28 → All (P x) (ranges x (job ∷ jobs)))
        → (((x : ℕ) → x < 28 → All (P x) (ranges x jobs)) → All (JobHas P) jobs)
        → JobHas P job × All (JobHas P) jobs
    of_job (is_gen_res s e l lt) all rest =
        let same : (l == l) ≡ true = ground arith in
        let here : All (P l) ((s, e) ∷ ranges l jobs) = rw same at (all l lt) in
        (here.0, rest (λ x xlt. later x l s e (all x xlt)))
