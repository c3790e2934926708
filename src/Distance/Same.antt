-- ===== src/Distance/Same.antt =====
-- top_impl.h: `EditHamming`, for two words of one length, and `stavroshtein`.
use sigmod_programming_conte.Base.{
  ℕ, zero, suc, ◌+◌, ◌-◌, ◌*◌, ◌%◌, ◌^◌, Bool, true, false, not, ◌&&◌, ◌||◌, min, List, get_or, set,
  replicate, ltb, leb, ◌==◌, if◌then◌else◌, bit_and, bit_or,
}
use sigmod_programming_conte.Core.{CString}
use sigmod_programming_conte.Distance.Defs.{eq_at, ne_at}
use sigmod_programming_conte.Distance.Longer.{
  edit_hammingdiff1, edit_hammingdiff2, edit_hammingdiff3,
}

-- The local variables of `EditHamming` that outlive a loop. `startpos` has five places.
pub record Locals : Type 0 where
  pub i : ℕ
  pub j : ℕ
  pub c : ℕ
  pub ham_ex : ℕ
  pub startpos : List ℕ
  pub temp : ℕ
  pub val : ℕ
  pub ed : ℕ

-- `thr`.
unfoldable pub threshold : ℕ → ℕ
threshold edrequests =
    if leb 64 edrequests
    then 3
    else if leb 32 edrequests
    then 2
    else if leb 16 edrequests
    then 1
    else 0

-- The first loop: the mismatches, up to four of them.
unfoldable pub count_mismatches : CString → CString → ℕ → Locals → Locals
count_mismatches s t zero v = v
count_mismatches s t (suc rounds) v =
    let temp = ne_at s v.i t v.i in
    let rest = count_mismatches s t rounds (record v {
      i = v.i + 1;
      temp = temp;
      ham_ex = v.ham_ex * 2 ^ temp % 16;
      startpos = set v.startpos v.c v.i;
      c = v.c + temp;
    }) in
    if v.ham_ex == 0 then v else rest

-- `(0b0111000 << ed) & 0b01111111`.
unfoldable pub edit_bits : ℕ → ℕ
edit_bits ed = 0b0111000 * 2 ^ ed % 128

-- `(edrequests & result) == edrequests`.
unfoldable pub satisfied : ℕ → ℕ → Bool
satisfied edrequests result = bit_and edrequests result == edrequests

-- `while (i < n && j < n && val < cur_thr)`, on a shifted diagonal.
unfoldable pub shifted_run : CString → CString → ℕ → ℕ → ℕ → ℕ → Locals → Locals
shifted_run s t n q thr zero v = v
shifted_run s t n q thr (suc rounds) v =
    let temp = ne_at s v.i t v.j in
    let rest = shifted_run s t n q thr rounds (record v {
      temp = temp;
      val = v.val + temp;
      startpos = set v.startpos v.c (if q == 0 then v.i else v.j);
      c = v.c + temp;
      i = v.i + 1;
      j = v.j + 1;
    }) in
    if ltb v.i n && ltb v.j n && ltb v.val thr then rest else v

-- The mismatches of the bytes from `i` on, `count` of them.
unfoldable pub mismatches_from : CString → CString → ℕ → ℕ → ℕ
mismatches_from s t i zero = 0
mismatches_from s t i (suc count) = ne_at s i t i + mismatches_from s t (i + 1) count

-- The first part of a round: the shifted run from the places in `v`, with `startpos` reset.
unfoldable pub round_run : CString → CString → ℕ → ℕ → ℕ → ℕ → Locals → Locals
round_run s t n thr p q v =
    let start = record v {
      c = 2;
      val = p + 1;
      startpos = set (set v.startpos 3 (n - 1)) 2 (n - 1);
    } in
    let w = shifted_run s t n q (min (v.ed - 1) thr) n start in
    record w { startpos = if p == 1 then set w.startpos 3 (n - 1) else w.startpos }

-- `ed` where the run came to the end of a word.
unfoldable pub end_of_run : CString → CString → ℕ → Locals → ℕ
end_of_run s t n w =
    if w.i == n || w.j == n then min w.ed (w.val + 1 - eq_at s (n - 1) t (n - 1) * w.temp) else w.ed

-- `val` for going back to the main diagonal after `startpos[3]`.
unfoldable pub back_on_diagonal : CString → CString → ℕ → ℕ → Locals → ℕ
back_on_diagonal s t n p w =
    let p2 = get_or w.startpos 2 0 in
    let p3 = get_or w.startpos 3 0 in
    min (p + 2 + mismatches_from s t (p2 + 1) (p3 - p2)) (p + 3)
    + mismatches_from s t (p3 + 1) (n - (p3 + 1))

-- One round of the two loops: the answer if it returns, and the variables if not.
unfoldable pub round : CString → CString → ℕ → ℕ → ℕ → ℕ → ℕ → ℕ → ℕ → Locals → Bool × ℕ × Locals
round s t n requests edrequests thr result p q v =
    let w = round_run s t n thr p q v in
    let ed = end_of_run s t n w in
    let last = min ed (back_on_diagonal s t n p w) in
    if not (ed == w.ed) && satisfied edrequests (edit_bits ed)
    then (true, bit_and (bit_or result (edit_bits ed)) requests, w)
    else if satisfied edrequests (edit_bits last)
    then (true, bit_and (bit_or result (edit_bits last)) requests, w)
    else (
      false,
      0,
      record w { temp = ed; ed = last; i = get_or w.startpos p 0 + 1; j = get_or w.startpos p 0 },
    )

-- The two rounds for one `p`.
unfoldable pub rounds_of : CString → CString → ℕ → ℕ → ℕ → ℕ → ℕ → ℕ → Locals → Bool × ℕ × Locals
rounds_of s t n requests edrequests thr result p v =
    let start = get_or v.startpos p 0 in
    let a =
      round s t n requests edrequests thr result p 0 (record v { i = start; j = start + 1 }) in
    let b = round s t n requests edrequests thr result p 1 a.2 in if a.0 then a else b

-- `EditHamming`.
unfoldable pub edit_hamming : CString → CString → ℕ → ℕ → ℕ
edit_hamming s t n requests =
    let edrequests = bit_and requests 0b1110000 in
    let thr = threshold edrequests in
    let v = count_mismatches s t n (record {
      i = 0;
      j = 0;
      c = 0;
      ham_ex = 0b1111;
      startpos = replicate 5 0;
      temp = 0;
      val = 0;
      ed = 10;
    }) in
    let ed = v.c + n - v.i in
    let result = bit_or (bit_or (v.ham_ex * 8) v.ham_ex) (edit_bits ed) in
    let a = rounds_of s t n requests edrequests thr result 0 (record v { ed = ed }) in
    let b = rounds_of s t n requests edrequests thr result 1 a.2 in
    if satisfied edrequests result
    then bit_and requests result
    else if a.0
    then a.1
    else if b.0
    then b.1
    else bit_and (bit_or result (edit_bits b.2.ed)) requests

-- `switch (diff)`, for `n ≤ m`.
unfoldable pub by_difference : CString → CString → ℕ → ℕ → ℕ
by_difference s t n diff =
    if diff == 0
    then edit_hamming s t n 127
    else if diff == 1
    then edit_hammingdiff1 s t n
    else if diff == 2
    then edit_hammingdiff2 s t n
    else if diff == 3
    then edit_hammingdiff3 s t n
    else 0

-- `stavroshtein`.
unfoldable pub stavroshtein : CString → CString → ℕ → ℕ → ℕ
stavroshtein s t n m =
    bit_and (if ltb m n then by_difference t s m (n - m) else by_difference s t n (m - n))
      0b01111111
