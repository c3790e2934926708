-- ===== src/Jobs/Fetch.antt =====
-- No job is lost, repeated or overtaken.
use sigmod_programming_conte.Base.{
  ℕ, zero, suc, ◌-◌, ◌≤◌, ◌<◌, ◌≡◌, refl, sym, ap, ◌∙◌, true, false, ◌||◌, Option, none, some, List,
  [], ◌∷◌, ◌++◌, length, ltb, ◌==◌, ◌>>=◌, arith, Bool-cases, inl, inr, length-append, append_assoc,
  append-nil,
}
use sigmod_programming_conte.Jobs.Defs.{Job, is_barrier, get_weight}
use sigmod_programming_conte.Jobs.Scheduler.{
  JobScheduler, schedule_job, schedule_all, new_weight, schedule, max_weight, take_weight, is_stop,
  fetch_loop, fetch_work,
}

-- `availableWork` is the number of jobs in the queue.
abbrev pub IsCounted : JobScheduler → Type 0
IsCounted s = s.available_work ≡ length s.jobs_queue

schedule_all_lem :
    (jobs : List Job) (s : JobScheduler)
    → IsCounted s
    → ((schedule_all jobs s).jobs_queue ≡ s.jobs_queue ++ jobs) × IsCounted (schedule_all jobs s)
unfolding schedule_all schedule_job
schedule_all_lem [] s c = (sym (append-nil s.jobs_queue), c)
schedule_all_lem (job ∷ jobs) s c =
    let (queue, counted) =
      schedule_all_lem jobs (schedule_job job s)
        (omega (arith, length-append s.jobs_queue (job ∷ []))) in
    (queue ∙ append_assoc s.jobs_queue (job ∷ []) jobs, counted)

-- `Schedule` puts the jobs at the end of the queue, in their order, and counts them.
pub schedule_lem :
    (jobs : List Job) (s : JobScheduler)
    → IsCounted s
    → ((schedule jobs s).jobs_queue ≡ s.jobs_queue ++ jobs) × IsCounted (schedule jobs s)
unfolding schedule new_weight
schedule_lem [] s c = schedule_all_lem [] s c
schedule_lem (job ∷ jobs) s c = elim (Bool-cases (is_barrier job)) [
  | inl e ↦
      rw e
        (schedule_all_lem (job ∷ jobs) (record s { available_weights = 0 ∷ s.available_weights }) c)
  | inr e ↦ rw e (schedule_all_lem (job ∷ jobs) s c)
]

-- Only the last job of a list may be a null pointer or a barrier.
abbrev pub EndsAtBarrier : List Job → Type 0
EndsAtBarrier [] = Unit {0}
EndsAtBarrier (job ∷ []) = Unit {0}
EndsAtBarrier (job ∷ next ∷ jobs) =
    ((is_stop job || is_barrier job) ≡ false) × EndsAtBarrier (next ∷ jobs)

-- What a fetch took from a queue.
pub record Taken (queue : List Job) (r : Option (List Job × JobScheduler)) : Type 0 where
  pub jobs : List Job
  pub after : JobScheduler
  pub returned : r ≡ some (jobs, after)
  pub kept : jobs ++ after.jobs_queue ≡ queue
  pub counted : IsCounted after
  pub ends : EndsAtBarrier jobs

ends-cons :
    (job : Job) (jobs : List Job)
    → (is_stop job || is_barrier job) ≡ false
    → EndsAtBarrier jobs
    → EndsAtBarrier (job ∷ jobs)
ends-cons job [] e h = tt
ends-cons job (next ∷ jobs) e h = (e, h)

fetch_loop-Taken :
    (work budget : ℕ) (weights : List ℕ) (queue : List Job)
    → work ≡ length queue
    → Taken queue (fetch_loop work budget weights queue)
unfolding fetch_loop
fetch_loop-Taken zero budget weights [] e = record {
  jobs = [];
  after = record { available_work = 0; available_weights = weights; jobs_queue = [] };
  returned = refl;
  kept = refl;
  counted = refl;
  ends = tt;
}
fetch_loop-Taken zero budget weights (next ∷ queue) e = absurd (omega arith)
fetch_loop-Taken (suc work) budget weights [] e = absurd (omega arith)
fetch_loop-Taken (suc work) budget weights (next ∷ queue) e =
    let same : work ≡ length queue = omega arith in
    let left = take_weight (get_weight next) weights in
    let rest = fetch_loop-Taken work (budget - get_weight next) left queue same in
    elim (Bool-cases (budget == 0)) [
      | inl spent ↦ record {
        jobs = [];
        after = record {
          available_work = suc work;
          available_weights = weights;
          jobs_queue = next ∷ queue;
        };
        returned = rw spent refl;
        kept = refl;
        counted = e;
        ends = tt;
      }
      | inr more ↦ elim (Bool-cases (is_stop next)) [
        | inl stop ↦ record {
          jobs = next ∷ [];
          after = record { available_work = work; available_weights = weights; jobs_queue = queue };
          returned = rw (more, stop) refl;
          kept = refl;
          counted = same;
          ends = tt;
        }
        | inr go ↦ elim (Bool-cases (is_barrier next)) [
          | inl barrier ↦ record {
            jobs = next ∷ [];
            after = record { available_work = work; available_weights = left; jobs_queue = queue };
            returned = rw (more, go, barrier) refl;
            kept = refl;
            counted = same;
            ends = tt;
          }
          | inr plain ↦ record {
            jobs = next ∷ rest.jobs;
            after = rest.after;
            returned = rw (more, go, plain, rest.returned) refl;
            kept = ap (◌∷◌ next) rest.kept;
            counted = rest.counted;
            ends = ends-cons next rest.jobs (rw (go, plain) refl) rest.ends;
          }
        ]
      ]
    ]

taken_some_next :
    (next : Job) (r : Option (List Job × JobScheduler)) {jobs : List Job} {after : JobScheduler}
    → ◌>>=◌ {B = List Job × JobScheduler} r (λ q. some (next ∷ q.0, q.1)) ≡ some (jobs, after)
    → 1 ≤ length jobs
taken_some_next next none h = absurd (ground arith)
taken_some_next next (some q) h = ground arith

taken_some :
    (work budget : ℕ) (weights : List ℕ) (queue : List Job) {jobs : List Job} {after : JobScheduler}
    → 0 < work
    → 0 < budget
    → fetch_loop work budget weights queue ≡ some (jobs, after)
    → 1 ≤ length jobs
unfolding fetch_loop
taken_some zero budget weights queue lt pos h = absurd (omega arith)
taken_some (suc work) budget weights [] lt pos h = absurd (ground arith)
taken_some (suc work) budget weights (next ∷ queue) {jobs} {after} lt pos h = ground (
  arith,
  taken_some_next next
      (fetch_loop work (budget - get_weight next) (take_weight (get_weight next) weights) queue)
      {jobs = jobs} {after = after},
)

max_weight-pos : (ws : List ℕ) → 0 < max_weight ws
unfolding max_weight
max_weight-pos [] = omega arith
max_weight-pos (w ∷ ws) = ground arith

-- When the queue is counted and has a job, `fetchWork` returns: it takes one job or more from the front, in order, keeps the others and the
-- count, and only the last job that it takes may be a null pointer or a barrier.
pub fetch_work-Taken :
    (s : JobScheduler)
    → IsCounted s
    → 0 < s.available_work
    → (t : Taken s.jobs_queue (fetch_work s)) × (1 ≤ length t.jobs)
unfolding fetch_work
fetch_work-Taken s c pos =
    let some_work : ltb 0 s.available_work ≡ true = ground arith in
    let t =
      fetch_loop-Taken s.available_work (max_weight s.available_weights) s.available_weights
        s.jobs_queue c in
    (
      record {
        jobs = t.jobs;
        after = t.after;
        returned = rw some_work t.returned;
        kept = t.kept;
        counted = t.counted;
        ends = t.ends;
      },
      taken_some s.available_work (max_weight s.available_weights) s.available_weights s.jobs_queue
          pos (max_weight-pos s.available_weights) t.returned,
    )
