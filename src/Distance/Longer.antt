-- ===== src/Distance/Longer.antt =====
-- top_impl.h: `EditHammingdiff1`, `EditHammingdiff2` and `EditHammingdiff3`, for a word `t` that is one,
-- two or three bytes longer than `s`.
use sigmod_programming_conte.Base.{
  ℕ, zero, suc, ◌+◌, ◌-◌, ◌*◌, Bool, not, ◌&&◌, ◌||◌, min, get_or, ltb, leb, ◌==◌, if◌then◌else◌,
  to_nat,
}
use sigmod_programming_conte.Core.{CString}
use sigmod_programming_conte.Distance.Defs.{eq_at, ne_at, shift_left}

-- `while (i < n) { if (s[i] != t[i + diag]) break; ++i; }` with `rounds` bytes to go: the place of
-- the first mismatch, or the end.
unfoldable pub run_along : CString → CString → ℕ → ℕ → ℕ → ℕ
run_along s t diag i zero = i
run_along s t diag i (suc rounds) =
    let rest = run_along s t diag (i + 1) rounds in
    if get_or s i 0 == get_or t (i + diag) 0 then rest else i

-- The innermost part of `EditHammingdiff3`, on the last diagonal.
unfoldable pub third_gap : CString → CString → ℕ → ℕ → Bool
third_gap s t n i = run_along s t 3 i (n - i) == n

-- The body of the loop over `diag2`.
unfoldable pub second_gap : CString → CString → ℕ → ℕ → ℕ → Bool
second_gap s t n i diag2 =
    let stop = run_along s t diag2 (i + 1) (n - (i + 1)) in
    get_or s i 0 == get_or t (i + diag2) 0
    && (stop == n || (diag2 + 1 == 3 && third_gap s t n stop))

-- The body of the loop over `diag`; the loop over `diag2` goes from `diag + 1` to 3.
unfoldable pub first_gap : CString → CString → ℕ → ℕ → ℕ → Bool
first_gap s t n i diag =
    let stop = run_along s t diag (i + 1) (n - (i + 1)) in
    get_or s i 0 == get_or t (i + diag) 0
    && (stop == n
        || (leb (diag + 1) 3 && second_gap s t n stop (diag + 1))
        || (leb (diag + 2) 3 && second_gap s t n stop (diag + 2)))

-- `EditHammingdiff3`.
unfoldable pub edit_hammingdiff3 : CString → CString → ℕ → ℕ
edit_hammingdiff3 s t n =
    let start = run_along s t 0 0 n in
    if start == n || first_gap s t n start 1 || first_gap s t n start 2 || first_gap s t n start 3
    then 0b01000000
    else 0

-- The places of the first two mismatches in `EditHammingdiff2`: `c`, `startpos[0]` and `startpos[1]`.
unfoldable pub two_mismatches : CString → CString → ℕ → ℕ → ℕ → ℕ → ℕ → ℕ × ℕ × ℕ
two_mismatches s t i zero c p0 p1 = (c, p0, p1)
two_mismatches s t i (suc rounds) c p0 p1 =
    let q0 = if c == 0 then i else p0 in
    let q1 = if c == 0 then p1 else i in
    let d = c + ne_at s i t i in
    let rest = two_mismatches s t (i + 1) rounds d q0 q1 in if d == 2 then (d, q0, q1) else rest

-- The first `while` of `EditHammingdiff2`: the counts `h1` and `h2`.
unfoldable pub both_shifts : CString → CString → ℕ → ℕ → ℕ → ℕ → ℕ × ℕ
both_shifts s t i zero h1 h2 = (h1, h2)
both_shifts s t i (suc rounds) h1 h2 =
    let k2 = if ne_at s i t (i + 2) == 1 then h2 + 1 else min h1 h2 in
    let k1 = if ne_at s i t (i + 1) == 1 then 1 else h1 in
    let rest = both_shifts s t (i + 1) rounds k1 k2 in
    if ltb 0 k1 && ltb 0 k2 then (k1, k2) else rest

-- The second `while`, with the return at the end.
unfoldable pub last_shifts : CString → CString → ℕ → ℕ → ℕ → ℕ → ℕ
last_shifts s t i zero h1 h2 = shift_left 0b01100000 (min h1 h2)
last_shifts s t i (suc rounds) h1 h2 =
    let k2 = if ne_at s i t (i + 2) == 1 then h2 + 1 else min h1 h2 in
    let k1 = h1 + ne_at s i t (i + 1) in
    let rest = last_shifts s t (i + 1) rounds k1 k2 in if ltb 1 k2 && ltb 1 k1 then 0 else rest

-- What follows the search for the mismatches.
unfoldable pub after_mismatches : CString → CString → ℕ → ℕ → ℕ → ℕ
after_mismatches s t n p0 p1 =
    let h = both_shifts s t p0 (p1 - p0) 0 0 in
    let h1 = min 1 (h.0) in
    let h2 = min 1 (h.1) in
    if ltb 0 h1 && ltb 0 h2 && p1 == n - 1
    then shift_left 0b01100000
        (min h1 h2 + ne_at s (n - 1) t (n - 1) * ne_at s (n - 1) t (n + 1) * ne_at s (n - 1) t n)
    else last_shifts s t p1 (n - p1) h1 h2

-- `EditHammingdiff2`.
unfoldable pub edit_hammingdiff2 : CString → CString → ℕ → ℕ
edit_hammingdiff2 s t n =
    let (c, p0, p1) = two_mismatches s t 0 n 0 0 0 in
    let last = ne_at s (n - 1) t (n - 1) in
    if c == 0
    then 0b01100000
    else if c == 1
    then (if p0 == n - 1
        then shift_left 0b01100000 (
            1
            - to_nat (
                not (last * eq_at s (n - 1) t (n + 1) == 0)
                || not (last * eq_at s (n - 1) t n == 0)))
        else after_mismatches s t n p0 (n - 1))
    else after_mismatches s t n p0 p1

-- The four diagonals of `EditHammingdiff1`.
pub record Diagonals : Type 0 where
  pub h : ℕ
  pub hr : ℕ
  pub hr2 : ℕ
  pub hl : ℕ

-- `temp`.
unfoldable pub nearest : Diagonals → ℕ
nearest d = min (d.h + 1) (min d.hr (min d.hr2 (d.hl + 1)))

-- The first byte.
unfoldable pub first_byte : CString → CString → Diagonals → Diagonals
first_byte s t d =
    let h = min d.h (min (d.hr + 1) (d.hl + 1)) + ne_at s 0 t 0 in
    let hr = min (h + eq_at s 0 t 0) (min d.hr (min (d.hr2 + 1) (d.hl + 1 + 1))) + ne_at s 0 t 1 in
    let hr2 = min (h + 1 + eq_at s 0 t 0) (min (hr + eq_at s 0 t 1) d.hr2) + ne_at s 0 t 2 in
    let hl = min (h + 1) d.hl + ne_at s 1 t 0 in record { h = h; hr = hr; hr2 = hr2; hl = hl }

-- The body of the loop, for the byte `i`.
unfoldable pub next_byte : CString → CString → ℕ → Diagonals → Diagonals
next_byte s t i d =
    let h =
      min d.h (min (d.hr + eq_at s (i - 1) t i) (d.hl + eq_at s i t (i - 1))) + ne_at s i t i in
    let hr =
      min (h + eq_at s i t i)
        (min d.hr (min (d.hr2 + eq_at s (i - 1) t (i + 1)) (d.hl + 1 + eq_at s i t (i - 1))))
      + ne_at s i t (i + 1) in
    let hr2 =
      min (h + 1 + eq_at s i t i) (min (hr + eq_at s i t (i + 1)) d.hr2) + ne_at s i t (i + 2) in
    let hl = min (h + eq_at s i t i) d.hl + ne_at s (i + 1) t i in
    record { h = h; hr = hr; hr2 = hr2; hl = hl }

-- The loop, with the return at the end.
unfoldable pub diff1_loop : CString → CString → ℕ → ℕ → Diagonals → ℕ
diff1_loop s t i zero d = shift_left 0b00111000 (nearest d)
diff1_loop s t i (suc rounds) d =
    let e = next_byte s t i d in
    let rest = diff1_loop s t (i + 1) rounds e in if ltb 3 (nearest e) then 0 else rest

-- `EditHammingdiff1`.
unfoldable pub edit_hammingdiff1 : CString → CString → ℕ → ℕ
edit_hammingdiff1 s t n =
    diff1_loop s t 1 (n - 1) (first_byte s t (record { h = 0; hr = 1; hr2 = 2; hl = 1 }))
