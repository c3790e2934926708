-- ===== src/Distance/Gaps.antt =====
-- `EditHammingdiff3`: a word that is three bytes longer is within distance 3 exactly if the shorter word can
-- be made from it by leaving bytes out.
use sigmod_programming_conte.Base.{
  ==→eq, ◌⊎◌, ℕ, zero, suc, ◌+◌, ◌-◌, ◌≤◌, ◌<◌, ◌≡◌, refl, ◌∙◌, Bool, true, false, ◌&&◌, ◌||◌,
  length, get_or, drop, ◌==◌, if◌then◌else◌, arith, Bool-cases, inl, inr,
}
use sigmod_programming_conte.Core.{CString}
use sigmod_programming_conte.Distance.Longer.{
  run_along, third_gap, second_gap, first_gap, edit_hammingdiff3,
}
use sigmod_programming_conte.Distance.Part.{
  is_part, is_part-longer, drop-end, length-drop, step, step_back,
}

module _ (s t : CString) (longer : length t ≡ length s + 3) where
  -- The rest of `s` from `i` on is part of the rest of `t` from `i + d` on.
  abbrev fits : ℕ → ℕ → Bool
  fits d i = is_part (drop i s) (drop (i + d) t)

  abbrev meets_at : ℕ → ℕ → Bool
  meets_at d i = get_or s i 0 == get_or t (i + d) 0

  fits_end : (d i : ℕ) → i ≡ length s → fits d i ≡ true
  fits_end d i e = rw (e, drop-end s) refl

  fits_step :
      (d i : ℕ)
      → i < length s
      → d ≤ 3
      → fits d i ≡ ((meets_at d i && fits d (i + 1)) || fits (d + 1) i)
  fits_step d i lt le =
      let one : i + d + 1 ≡ i + 1 + d = omega arith in
      let two : i + (d + 1) ≡ i + d + 1 = omega arith in
      rw (two, ← one) (step s t i (i + d) lt (omega (arith, longer)))

  fits_shift : (d i : ℕ) → i < length s → fits (d + 1) i ≡ true → fits d (i + 1) ≡ true
  fits_shift d i lt h =
      let same : i + 1 + d ≡ i + (d + 1) = omega arith in
      rw same (step_back s (drop (i + (d + 1)) t) i lt h)

  fits_match : (d i : ℕ) → i < length s → d ≤ 3 → meets_at d i ≡ true → fits d i ≡ fits d (i + 1)
  fits_match d i lt le m = ground (arith, fits_step d i lt le, fits_shift d i lt)

  fits_miss : (d i : ℕ) → i < length s → d ≤ 3 → meets_at d i ≡ false → fits d i ≡ fits (d + 1) i
  fits_miss d i lt le m = ground (arith, fits_step d i lt le)

  fits_four : (i : ℕ) → i < length s → fits 4 i ≡ false
  fits_four i lt =
      is_part-longer (drop i s) (drop (i + 4) t)
        (omega (arith, length-drop s i, length-drop t (i + 4), longer))

  -- Where a run along a diagonal stops.
  record Stops (d i stop : ℕ) : Type 0 where
    within : stop ≤ length s
    same : fits d i ≡ fits d stop
    missed : stop < length s → meets_at d stop ≡ false

  run_along-Stops :
      (d i rounds : ℕ) → d ≤ 3 → i + rounds ≡ length s → Stops d i (run_along s t d i rounds)
  unfolding run_along
  run_along-Stops d i zero le e = record {
    within = omega arith;
    same = refl;
    missed = λ lt. absurd (omega arith);
  }
  run_along-Stops d i (suc rounds) le e = elim (Bool-cases (meets_at d i)) [
    | inl m ↦
        let r = run_along-Stops d (i + 1) rounds le (omega arith) in
        rw m (record {
          within = r.within;
          same = fits_match d i (omega arith) le m ∙ r.same;
          missed = r.missed;
        })
    | inr m ↦ rw m (record { within = omega arith; same = refl; missed = λ lt. m })
  ]

  third_gap_lem : (i : ℕ) → i ≤ length s → third_gap s t (length s) i ≡ fits 3 i
  unfolding third_gap
  third_gap_lem i le =
      let stop = run_along s t 3 i (length s - i) in
      let r = run_along-Stops 3 i (length s - i) (omega arith) (omega arith) in
      elim (Bool-cases (stop == length s)) [
        | inl e ↦ ground (arith, r.same, fits_end 3 stop (==→eq stop (length s) e))
        | inr e ↦
            let lt : stop < length s = ground (arith, r.within) in
            ground
              (arith, r.same, fits_miss 3 stop lt (omega arith) (r.missed lt), fits_four stop lt)
      ]

  -- What a run from a place that matches comes to.
  gap_run :
      (d i : ℕ)
      → i < length s
      → d ≤ 3
      → meets_at d i ≡ true
      → let stop = run_along s t d (i + 1) (length s - (i + 1)) in
        ((stop == length s) ≡ true) × (fits d i ≡ true)
        ⊎ ((stop == length s) ≡ false) × (stop < length s) × (fits d i ≡ fits (d + 1) stop)
  gap_run d i lt le m =
      let stop = run_along s t d (i + 1) (length s - (i + 1)) in
      let r = run_along-Stops d (i + 1) (length s - (i + 1)) le (omega arith) in
      let start = fits_match d i lt le m ∙ r.same in
      elim (Bool-cases (stop == length s)) [
        | inl e ↦ inl (e, start ∙ fits_end d stop (==→eq stop (length s) e))
        | inr e ↦
            let in_range : stop < length s = ground (arith, r.within) in
            inr (e, in_range, start ∙ fits_miss d stop in_range le (r.missed in_range))
      ]

  second_gap_two :
      (i : ℕ) → i < length s → second_gap s t (length s) i 2 ≡ (meets_at 2 i && fits 2 i)
  unfolding second_gap
  second_gap_two i lt = elim (Bool-cases (meets_at 2 i)) [
    | inr m ↦ ground arith
    | inl m ↦ elim (gap_run 2 i lt (omega arith) m) [
      | inl (e, f) ↦ ground arith
      | inr (e, lt', f) ↦
          ground (arith, third_gap_lem (run_along s t 2 (i + 1) (length s - (i + 1))) (omega arith))
    ]
  ]

  second_gap_three :
      (i : ℕ) → i < length s → second_gap s t (length s) i 3 ≡ (meets_at 3 i && fits 3 i)
  unfolding second_gap
  second_gap_three i lt = elim (Bool-cases (meets_at 3 i)) [
    | inr m ↦ ground arith
    | inl m ↦ elim (gap_run 3 i lt (omega arith) m) [
      | inl (e, f) ↦ ground arith
      | inr (e, lt', f) ↦
          ground (arith, fits_four (run_along s t 3 (i + 1) (length s - (i + 1))) lt')
    ]
  ]

  -- On the last diagonals, only the places that match count.
  fits_three : (i : ℕ) → i < length s → fits 3 i ≡ (meets_at 3 i && fits 3 i)
  fits_three i lt =
      ground
        (arith, fits_step 3 i lt (omega arith), fits_four i lt, fits_match 3 i lt (omega arith))

  fits_two :
      (i : ℕ) → i < length s → fits 2 i ≡ ((meets_at 2 i && fits 2 i) || (meets_at 3 i && fits 3 i))
  fits_two i lt =
      ground
        (arith, fits_step 2 i lt (omega arith), fits_three i lt, fits_match 2 i lt (omega arith))

  fits_one :
      (i : ℕ)
      → i < length s
      → fits 1 i
        ≡ ((meets_at 1 i && fits 1 i) || (meets_at 2 i && fits 2 i) || (meets_at 3 i && fits 3 i))
  fits_one i lt =
      ground (arith, fits_step 1 i lt (omega arith), fits_two i lt, fits_match 1 i lt (omega arith))

  first_gap_one : (i : ℕ) → i < length s → first_gap s t (length s) i 1 ≡ (meets_at 1 i && fits 1 i)
  unfolding first_gap
  first_gap_one i lt = elim (Bool-cases (meets_at 1 i)) [
    | inr m ↦ ground arith
    | inl m ↦
        let stop = run_along s t 1 (i + 1) (length s - (i + 1)) in
        elim (gap_run 1 i lt (omega arith) m) [
          | inl (e, f) ↦ ground arith
          | inr (e, lt', f) ↦
              ground (arith, second_gap_two stop lt', second_gap_three stop lt', fits_two stop lt')
        ]
  ]

  first_gap_two : (i : ℕ) → i < length s → first_gap s t (length s) i 2 ≡ (meets_at 2 i && fits 2 i)
  unfolding first_gap
  first_gap_two i lt = elim (Bool-cases (meets_at 2 i)) [
    | inr m ↦ ground arith
    | inl m ↦
        let stop = run_along s t 2 (i + 1) (length s - (i + 1)) in
        elim (gap_run 2 i lt (omega arith) m) [
          | inl (e, f) ↦ ground arith
          | inr (e, lt', f) ↦ ground (arith, second_gap_three stop lt', fits_three stop lt')
        ]
  ]

  first_gap_three :
      (i : ℕ) → i < length s → first_gap s t (length s) i 3 ≡ (meets_at 3 i && fits 3 i)
  unfolding first_gap
  first_gap_three i lt = elim (Bool-cases (meets_at 3 i)) [
    | inr m ↦ ground arith
    | inl m ↦ elim (gap_run 3 i lt (omega arith) m) [
      | inl (e, f) ↦ ground arith
      | inr (e, lt', f) ↦
          ground (arith, fits_four (run_along s t 3 (i + 1) (length s - (i + 1))) lt')
    ]
  ]

  -- For a word `t` that is three bytes longer than `s`, `EditHammingdiff3` answers with the bit of edit distance 3 if
  -- `s` is `t` with three bytes left out, and with 0 if not: its search over three diagonals misses no way.
  pub edit_hammingdiff3_lem :
      edit_hammingdiff3 s t (length s) ≡ (if is_part s t then 0b01000000 else 0)
  unfolding edit_hammingdiff3
  edit_hammingdiff3_lem =
      let start = run_along s t 0 0 (length s) in
      let r = run_along-Stops 0 0 (length s) (omega arith) (omega arith) in
      elim (Bool-cases (start == length s)) [
        | inl e ↦ ground (arith, r.same, fits_end 0 start (==→eq start (length s) e))
        | inr e ↦
            let lt : start < length s = ground (arith, r.within) in
            ground (
              arith,
              r.same,
              fits_miss 0 start lt (omega arith) (r.missed lt),
              fits_one start lt,
              first_gap_one start lt,
              first_gap_two start lt,
              first_gap_three start lt,
            )
      ]
