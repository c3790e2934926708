-- ===== src/Distance/Strong.antt =====
-- The values of `EditHamming` for few mismatches.
use sigmod_programming_conte.Base.{
  ℕ, zero, suc, ◌+◌, ◌*◌, ◌%◌, ◌^◌, ◌≤◌, ◌<◌, ◌≡◌, ◌≢◌, refl, ap, ◌∙◌, true, false, not, ◌==◌,
  bit_and, bit_or, arith,
}
use sigmod_programming_conte.Base.Bits.{passes, passes_at}
use sigmod_programming_conte.Core.{CString}
use sigmod_programming_conte.Distance.Defs.{ne_at}
use sigmod_programming_conte.Distance.Same.{Locals, count_mismatches, mismatches_from, edit_bits}

-- The bits of `k` mismatches.
abbrev pub ham_bits : ℕ → ℕ
ham_bits zero = 15
ham_bits (suc zero) = 14
ham_bits (suc (suc zero)) = 12
ham_bits (suc (suc (suc k))) = 8

-- The values of `edit_bits`.
abbrev pub ed_bits : ℕ → ℕ
ed_bits zero = 56
ed_bits (suc zero) = 112
ed_bits (suc (suc zero)) = 96
ed_bits (suc (suc (suc zero))) = 64
ed_bits (suc (suc (suc (suc k)))) = 0

pub edit_bits_lem : (ed : ℕ) → (x : ℕ) × (x < 5) × (edit_bits ed ≡ ed_bits x)
unfolding edit_bits
edit_bits_lem zero = (0, omega arith, refl)
edit_bits_lem (suc zero) = (1, omega arith, refl)
edit_bits_lem (suc (suc zero)) = (2, omega arith, refl)
edit_bits_lem (suc (suc (suc zero))) = (3, omega arith, refl)
edit_bits_lem (suc (suc (suc (suc k)))) = (4, omega arith, omega arith)

abbrev pub result_of : ℕ → ℕ → ℕ
result_of h e = bit_or (bit_or (h * 8) h) e

pub all_results :
    passes
      (λ k.
        passes
          (λ x.
            passes
              (λ y. not (
                bit_and (bit_and (bit_or (result_of (ham_bits k) (ed_bits x)) (ed_bits y)) 127) 127
                == 0))
              5)
          5)
      4
    ≡ true
unfolding passes
all_results = refl

pub plain_results :
    passes
      (λ k.
        passes (λ x. not (bit_and (bit_and 127 (result_of (ham_bits k) (ed_bits x))) 127 == 0)) 5)
      4
    ≡ true
unfolding passes
plain_results = refl

pub ham_bits-step : (k n : ℕ) → n ≤ 1 → k + n ≤ 3 → ham_bits k * 2 ^ n % 16 ≡ ham_bits (k + n)
ham_bits-step zero zero le few = refl
ham_bits-step (suc zero) zero le few = refl
ham_bits-step (suc (suc zero)) zero le few = refl
ham_bits-step (suc (suc (suc zero))) zero le few = refl
ham_bits-step (suc (suc (suc (suc k)))) zero le few = absurd (omega arith)
ham_bits-step zero (suc zero) le few = refl
ham_bits-step (suc zero) (suc zero) le few = refl
ham_bits-step (suc (suc zero)) (suc zero) le few = refl
ham_bits-step (suc (suc (suc k))) (suc zero) le few = absurd (omega arith)
ham_bits-step k (suc (suc n)) le few = absurd (omega arith)

pub ham_bits-positive : (k : ℕ) → (ham_bits k == 0) ≡ false
ham_bits-positive zero = refl
ham_bits-positive (suc zero) = refl
ham_bits-positive (suc (suc zero)) = refl
ham_bits-positive (suc (suc (suc k))) = refl

pub ne_at-small : (s : CString) (i : ℕ) (t : CString) (j : ℕ) → ne_at s i t j ≤ 1
unfolding ne_at
ne_at-small s i t j = ground arith

pub count_mismatches-ham :
    (s t : CString) (rounds k : ℕ) (v : Locals)
    → v.ham_ex ≡ ham_bits k
    → k + mismatches_from s t v.i rounds ≤ 3
    → (count_mismatches s t rounds v).ham_ex ≡ ham_bits (k + mismatches_from s t v.i rounds)
unfolding count_mismatches mismatches_from
count_mismatches-ham s t zero k v e few = e ∙ ap ham_bits (omega arith)
count_mismatches-ham s t (suc rounds) k v e few =
    let temp = ne_at s v.i t v.i in
    let going : (v.ham_ex == 0) ≡ false = ap (λ h. h == 0) e ∙ ham_bits-positive k in
    let step : v.ham_ex * 2 ^ temp % 16 ≡ ham_bits (k + temp) =
      ap (λ h. h * 2 ^ temp % 16) e
      ∙ ham_bits-step k temp (ne_at-small s v.i t v.i) (omega (arith, few)) in
    let sum : k + temp + mismatches_from s t (v.i + 1) rounds
        ≡ k + (temp + mismatches_from s t (v.i + 1) rounds) =
      omega arith in
    rw going
      (count_mismatches-ham s t rounds (k + temp) _ step (omega (arith, few)) ∙ ap ham_bits sum)

-- Whatever edit distance is found, the answer is not 0.
abbrev pub IsStrong : ℕ → Type 0
IsStrong r = (e : ℕ) → bit_and (bit_and (bit_or r (edit_bits e)) 127) 127 ≢ 0

pub result-IsStrong : (k ed : ℕ) → k < 4 → IsStrong (result_of (ham_bits k) (edit_bits ed))
result-IsStrong k ed lt e =
    let (x, hx, ex) = edit_bits_lem ed in
    let (y, hy, ey) = edit_bits_lem e in
    let row =
      passes_at
        (λ k.
          passes
            (λ x.
              passes
                (λ y. not (
                  bit_and (bit_and (bit_or (result_of (ham_bits k) (ed_bits x)) (ed_bits y)) 127)
                    127
                  == 0))
                5)
            5)
        4 k lt all_results in
    let col =
      passes_at
        (λ x.
          passes
            (λ y. not (
              bit_and (bit_and (bit_or (result_of (ham_bits k) (ed_bits x)) (ed_bits y)) 127) 127
              == 0))
            5)
        5 x hx row in
    let at =
      passes_at
        (λ y. not (
          bit_and (bit_and (bit_or (result_of (ham_bits k) (ed_bits x)) (ed_bits y)) 127) 127 == 0))
        5 y hy col in
    rw (ex, ey) (nonzero _ at)
  where
    nonzero : (n : ℕ) → not (n == 0) ≡ true → n ≢ 0
    nonzero n h e = absurd (ground arith)

pub result_plain :
    (k ed : ℕ) → k < 4 → bit_and (bit_and 127 (result_of (ham_bits k) (edit_bits ed))) 127 ≢ 0
result_plain k ed lt =
    let (x, hx, ex) = edit_bits_lem ed in
    let row =
      passes_at
        (λ k.
          passes (λ x. not (bit_and (bit_and 127 (result_of (ham_bits k) (ed_bits x))) 127 == 0)) 5)
        4 k lt plain_results in
    let at =
      passes_at (λ x. not (bit_and (bit_and 127 (result_of (ham_bits k) (ed_bits x))) 127 == 0)) 5 x
        hx row in
    rw ex (nonzero _ at)
  where
    nonzero : (n : ℕ) → not (n == 0) ≡ true → n ≢ 0
    nonzero n h e = absurd (ground arith)
