-- ===== src/Distance/Hamming.antt =====
-- `HammingDistance` against the plain count of mismatches.
use sigmod_programming_conte.Base.{ℕ, zero, suc, ◌+◌, ◌≡◌, leb, if◌then◌else◌, arith}
use sigmod_programming_conte.Core.{CString}
use sigmod_programming_conte.Distance.Defs.{ne_at, hamming_loop, hamming_distance}
use sigmod_programming_conte.Distance.Same.{mismatches_from}

-- The loop stops early only when the threshold is passed.
hamming_loop_lem :
    (a b : CString) (thr j n m : ℕ)
    → (if leb (hamming_loop a b thr j n m) thr then hamming_loop a b thr j n m else thr + 5)
      ≡ (if leb (m + mismatches_from a b j n) thr then m + mismatches_from a b j n else thr + 5)
unfolding hamming_loop mismatches_from
hamming_loop_lem a b thr j zero m = ground arith
hamming_loop_lem a b thr j (suc n) m =
    ground (arith, hamming_loop_lem a b thr (j + 1) n (m + ne_at a j b j))

-- `HammingDistance` returns the number of places where the first `na` bytes differ if it is at most
-- the threshold, and five more than the threshold if not.
pub hamming_distance_lem :
    (a b : CString) (na thr : ℕ)
    → hamming_distance a na b thr
      ≡ (if leb (mismatches_from a b 0 na) thr then mismatches_from a b 0 na else thr + 5)
unfolding hamming_distance
hamming_distance_lem a b na thr = ground (arith, hamming_loop_lem a b thr 0 na 0)
