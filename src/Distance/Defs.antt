-- ===== src/Distance/Defs.antt =====
-- The small functions of top_impl.h. A byte of a word past its end reads as the terminator, 0.
use sigmod_programming_conte.Base.{
  ℕ, zero, suc, ◌+◌, ◌*◌, ◌/◌, ◌%◌, ◌^◌, Bool, not, Option, none, some, get_or, ltb, leb, ◌==◌,
  if◌then◌else◌, to_nat, bit_and,
}
use sigmod_programming_conte.Core.{CString, MatchType, exact_match, hamming_dist, edit_dist}

-- `s[i] == t[j]` and `s[i] != t[j]`, as numbers.
unfoldable pub eq_at : CString → ℕ → CString → ℕ → ℕ
eq_at s i t j = to_nat (get_or s i 0 == get_or t j 0)

unfoldable pub ne_at : CString → ℕ → CString → ℕ → ℕ
ne_at s i t j = to_nat (not (get_or s i 0 == get_or t j 0))

-- A shift whose result is put in a `char`.
unfoldable pub shift_left : ℕ → ℕ → ℕ
shift_left mask n = (mask * 2 ^ n) % 256

-- The loop of `HammingDistance`, from byte `j` on, with `n` bytes to go.
unfoldable pub hamming_loop : CString → CString → ℕ → ℕ → ℕ → ℕ → ℕ
hamming_loop a b thr j zero mismatches = mismatches
hamming_loop a b thr j (suc n) mismatches =
    let rest = hamming_loop a b thr (j + 1) n (mismatches + ne_at a j b j) in
    if leb mismatches thr then rest else mismatches

-- `HammingDistance`.
unfoldable pub hamming_distance : CString → ℕ → CString → ℕ → ℕ
hamming_distance a na b thr =
    let mismatches = hamming_loop a b thr 0 na 0 in
    if leb mismatches thr then mismatches else thr + 5

-- `(mask > 3) ? 3 : ((mask > 1) ? 2 : 1)`.
unfoldable pub mask_distance : ℕ → ℕ
mask_distance mask = if ltb 3 mask then 3 else if ltb 1 mask then 2 else 1

-- `TranslateTypeDistance`: the type, if it was written, and the distance.
unfoldable pub translate_type_distance : Bool → ℕ → Option MatchType × ℕ
translate_type_distance size byte =
    let hamming_mask = bit_and byte 0b00001110 / 2 in
    let editdist_mask = bit_and byte 0b01110000 / 16 in
    if size
    then (if not (hamming_mask == 0)
        then (some hamming_dist, mask_distance hamming_mask)
        else if not (editdist_mask == 0)
        then (some edit_dist, mask_distance editdist_mask)
        else if bit_and byte 0b00000001 == 0b00000001
        then (some exact_match, 0)
        else (none, 5))
    else if not (editdist_mask == 0)
    then (some edit_dist, mask_distance editdist_mask)
    else (none, 5)
