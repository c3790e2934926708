-- ===== src/Jobs/Barrier.antt =====
-- JobScheduler/JobBarrier.{h,cpp}: `Run`, which holds the lock of the barrier but for the wait. The wait stands under an
-- `if`, and POSIX lets it end without a broadcast.
use sigmod_programming_conte.Base.{
  inl, inr, Bool-cases, sym, ◌∙◌, if_true, if_false, ◌∙◌, Bool-cases, ℕ, ◌+◌, ◌-◌, ◌≤◌, ◌<◌, ◌≡◌,
  ltb, if◌then◌else◌, arith, Option, some, none,
}

-- `*count`, the threads that wait, and those that `Run` returned for.
pub record Barrier : Type 0 where
  pub count : ℕ
  pub waiting : ℕ
  pub passed : ℕ

-- One thread calls `Run`, up to its wait or its return: a broadcast ends the wait of all.
unfoldable pub arrive : Barrier → Barrier
arrive b =
    if ltb 0 b.count
    then record b { count = b.count - 1; waiting = b.waiting + 1 }
    else record b { waiting = 0; passed = b.passed + b.waiting + 1 }

-- The wait of one thread ends without a broadcast: `Run` does not test `*count` again, and returns.
unfoldable pub wake : Barrier → Option Barrier
wake b =
    if ltb 0 b.waiting
    then some (record b { waiting = b.waiting - 1; passed = b.passed + 1 })
    else none

-- The barrier as it is set up for `threads` threads.
abbrev pub set_up : ℕ → Barrier
set_up threads = record { count = threads - 1; waiting = 0; passed = 0 }

-- The states after so many calls of `Run` and so many waits that ended without a broadcast, in any order.
pub data Run (threads : ℕ) : ℕ → ℕ → Barrier → Type 0 where
  here : Run threads 0 0 (set_up threads)
  arrives :
      {calls woken : ℕ} {b : Barrier}
      → Run threads calls woken b
      → Run threads (calls + 1) woken (arrive b)
  wakes :
      {calls woken : ℕ} {b c : Barrier}
      → Run threads calls woken b
      → wake b ≡ some c
      → Run threads calls (woken + 1) c

-- Before the last thread has called, and from then on.
record Within (threads calls woken : ℕ) (b : Barrier) : Type 0 where
  early :
      calls < threads
      → (b.count ≡ threads - 1 - calls) × (b.waiting + woken ≡ calls) × (b.passed ≡ woken)
  late : threads ≤ calls → (b.count ≡ 0) × (b.waiting ≡ 0) × (b.passed ≡ calls)

arrive_waits :
    (b : Barrier)
    → 1 ≤ b.count
    → ((arrive b).count + 1 ≡ b.count)
      × ((arrive b).waiting ≡ b.waiting + 1)
      × ((arrive b).passed ≡ b.passed)
unfolding arrive
arrive_waits b some_left = ground arith

arrive_opens :
    (b : Barrier)
    → b.count ≡ 0
    → ((arrive b).count ≡ 0)
      × ((arrive b).waiting ≡ 0)
      × ((arrive b).passed ≡ b.passed + b.waiting + 1)
unfolding arrive
arrive_opens b none_left = ground arith

wake_passes :
    (b c : Barrier)
    → wake b ≡ some c
    → (c.count ≡ b.count) × (c.waiting + 1 ≡ b.waiting) × (c.passed ≡ b.passed + 1)
unfolding wake
wake_passes b c run = ground arith

arrives-Within :
    {threads calls woken : ℕ} {b : Barrier}
    → 1 ≤ threads
    → Within threads calls woken b
    → Within threads (calls + 1) woken (arrive b)
arrives-Within {threads} {calls} {woken} {b} one inv = elim (Bool-cases (ltb 0 b.count)) [
  | inl e ↦
      let (c, w, p) = arrive_waits b (ground arith) in
      record { early = λ lt. (ground arith); late = λ le. (ground arith) }
  | inr e ↦
      let (c, w, p) = arrive_opens b (ground arith) in
      record { early = λ lt. (ground arith); late = λ le. (ground arith) }
]

wakes-Within :
    {threads calls woken : ℕ} {b c : Barrier}
    → Within threads calls woken b
    → wake b ≡ some c
    → Within threads calls (woken + 1) c
wakes-Within {threads} {calls} {woken} {b} {c} inv run =
    let (k, w, p) = wake_passes b c run in
    record { early = λ lt. ground arith; late = λ le. ground arith }

Run-Within :
    {threads calls woken : ℕ} {b : Barrier}
    → 1 ≤ threads
    → Run threads calls woken b
    → Within threads calls woken b
Run-Within {threads} one here = record {
  early = λ lt. ground arith;
  late = λ le. absurd (omega arith);
}
Run-Within one (arrives r) = arrives-Within one (Run-Within one r)
Run-Within one (wakes r run) = wakes-Within (Run-Within one r) run

-- A barrier that was set up for at least one thread: as long as not all threads have called `Run`, exactly as many of
-- them have passed as had their wait ended without a broadcast, so none if there was no such end, and the others that
-- called wait. Once all have called, all have passed and none waits.
pub Run-passed :
    (threads : ℕ)
    → 1 ≤ threads
    → {calls woken : ℕ} {b : Barrier} → Run threads calls woken b
    → (b.passed ≡ (if ltb calls threads then woken else calls))
      × (b.waiting ≡ (if ltb calls threads then calls - woken else 0))
Run-passed threads one {calls} {woken} {b} r =
    let inv = Run-Within one r in
    elim (Bool-cases (ltb calls threads)) [
      | inl e ↦
          let (c, w, p) = inv.early (ground arith) in
          let wait : b.waiting ≡ calls - woken = omega arith in
          (p ∙ sym (if_true _ e), wait ∙ sym (if_true _ e))
      | inr e ↦
          let (c, w, p) = inv.late (ground arith) in
          (p ∙ sym (if_false _ e), w ∙ sym (if_false _ e))
    ]
