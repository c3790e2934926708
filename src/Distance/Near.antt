-- ===== src/Distance/Near.antt =====
-- `stavroshtein` of two words of one length with at most three mismatches is not 0.
use sigmod_programming_conte.Base.{
  ◌&&◌, subst, get_or, ℕ, ◌+◌, ◌-◌, ◌≤◌, ◌≡◌, ◌≢◌, refl, sym, ap, ◌∙◌, Bool, true, false, not, min,
  ◌==◌, ltb, bit_and, bit_or, replicate, if◌then◌else◌, arith,
}
use sigmod_programming_conte.Core.{CString}
use sigmod_programming_conte.Distance.Same.{
  Locals, threshold, count_mismatches, mismatches_from, edit_bits, satisfied, round_run, end_of_run,
  back_on_diagonal, round, rounds_of, edit_hamming, by_difference, stavroshtein,
}
use sigmod_programming_conte.Distance.Strong.{
  ham_bits, result_of, count_mismatches-ham, IsStrong, result-IsStrong, result_plain,
}

module _ (s t : CString) (n edrequests thr r : ℕ) (strong : IsStrong r) where
  round-IsStrong :
      (p q : ℕ) (v : Locals)
      → (round s t n 127 edrequests thr r p q v).0 ≡ true
      → bit_and (round s t n 127 edrequests thr r p q v).1 127 ≢ 0
  unfolding round
  round-IsStrong p q v =
      let w = round_run s t n thr p q v in
      let ed = end_of_run s t n w in
      let last = min ed (back_on_diagonal s t n p w) in
      of_tests (not (ed == w.ed) && satisfied edrequests (edit_bits ed))
        (satisfied edrequests (edit_bits last)) ed last w _
    where
      of_tests :
          (b1 b2 : Bool) (ed last : ℕ) (w u : Locals)
          → let out : Bool × ℕ × Locals =
              if b1
              then (true, bit_and (bit_or r (edit_bits ed)) 127, w)
              else if b2
              then (true, bit_and (bit_or r (edit_bits last)) 127, w)
              else (false, 0, u) in
            out.0 ≡ true → bit_and out.1 127 ≢ 0
      of_tests true b2 ed last w u h = strong ed
      of_tests false true ed last w u h = strong last
      of_tests false false ed last w u h = absurd (ground arith)

  rounds_of-IsStrong :
      (p : ℕ) (v : Locals)
      → (rounds_of s t n 127 edrequests thr r p v).0 ≡ true
      → bit_and (rounds_of s t n 127 edrequests thr r p v).1 127 ≢ 0
  unfolding rounds_of
  rounds_of-IsStrong p v =
      let a =
        round s t n 127 edrequests thr r p 0
          (record v { i = get_or v.startpos p 0; j = get_or v.startpos p 0 + 1 }) in
      either a (round s t n 127 edrequests thr r p 1 a.2) (round-IsStrong p 0 _)
        (round-IsStrong p 1 a.2)
    where
      either :
          (a b : Bool × ℕ × Locals)
          → (a.0 ≡ true → bit_and a.1 127 ≢ 0)
          → (b.0 ≡ true → bit_and b.1 127 ≢ 0)
          → (if a.0 then a else b).0 ≡ true
          → bit_and (if a.0 then a else b).1 127 ≢ 0
      either (true, x, v) b ha hb h = ha refl
      either (false, x, v) b ha hb h = hb h

  answer-IsStrong :
      (plain : Bool) (a b : Bool × ℕ × Locals) (ed : ℕ)
      → bit_and (bit_and 127 r) 127 ≢ 0
      → (a.0 ≡ true → bit_and a.1 127 ≢ 0)
      → (b.0 ≡ true → bit_and b.1 127 ≢ 0)
      → bit_and
          (if plain
            then bit_and 127 r
            else if a.0
            then a.1
            else if b.0
            then b.1
            else bit_and (bit_or r (edit_bits ed)) 127)
          127
        ≢ 0
  answer-IsStrong true a b ed hp ha hb = hp
  answer-IsStrong false (true, x, v) b ed hp ha hb = ha refl
  answer-IsStrong false (false, x, v) (true, y, u) ed hp ha hb = hb refl
  answer-IsStrong false (false, x, v) (false, y, u) ed hp ha hb = strong ed

edit_hamming-near :
    (s t : CString) (n : ℕ) → mismatches_from s t 0 n ≤ 3 → bit_and (edit_hamming s t n 127) 127 ≢ 0
unfolding edit_hamming
edit_hamming-near s t n few =
    let edrequests = bit_and 127 0b1110000 in
    let thr = threshold edrequests in
    let start : Locals = record {
      i = 0;
      j = 0;
      c = 0;
      ham_ex = 0b1111;
      startpos = replicate 5 0;
      temp = 0;
      val = 0;
      ed = 10;
    } in
    let v = count_mismatches s t n start in
    let ham : v.ham_ex ≡ ham_bits (mismatches_from s t 0 n) =
      count_mismatches-ham s t n 0 start refl (omega (arith, few)) ∙ ap ham_bits (omega arith) in
    let ed = v.c + n - v.i in
    let r = result_of v.ham_ex (edit_bits ed) in
    let strong : IsStrong r =
      subst (λ h. IsStrong (result_of h (edit_bits ed))) (sym ham)
        (result-IsStrong (mismatches_from s t 0 n) ed (omega (arith, few))) in
    let plain : bit_and (bit_and 127 r) 127 ≢ 0 =
      subst (λ h. bit_and (bit_and 127 (result_of h (edit_bits ed))) 127 ≢ 0) (sym ham)
        (result_plain (mismatches_from s t 0 n) ed (omega (arith, few))) in
    let a = rounds_of s t n 127 edrequests thr r 0 (record v { ed = ed }) in
    let b = rounds_of s t n 127 edrequests thr r 1 a.2 in
    answer-IsStrong s t n edrequests thr r strong (satisfied edrequests r) a b b.2.ed plain
      (rounds_of-IsStrong s t n edrequests thr r strong 0 _)
      (rounds_of-IsStrong s t n edrequests thr r strong 1 a.2)

-- Two words of one length with at most three mismatches match.
pub stavroshtein-near :
    (s t : CString) (n : ℕ) → mismatches_from s t 0 n ≤ 3 → stavroshtein s t n n ≢ 0
unfolding stavroshtein by_difference
stavroshtein-near s t n few =
    let same : ltb n n ≡ false = ground arith in
    let zero : n - n ≡ 0 = omega arith in rw (same, zero) (edit_hamming-near s t n few)
