-- ===== src/Matching/Plans.antt =====
-- Which shortened words the matching jobs compare.
use sigmod_programming_conte.Base.{ℕ, ◌-◌, ◌≡◌, Option, none, some, leb, if◌then◌else◌, arith}
use sigmod_programming_conte.Matching.Jobs.{difference, plan3, plan2, plan1, plan0, plan_dq}

-- For lengths that differ by at most `distance`: how many bytes to leave out of the word that is looked up, which
-- has length `b`, and out of those in the table, which have length `a`. What is left of both has one length.
abbrev pub plan_of : ℕ → ℕ → ℕ → Option (ℕ × ℕ)
plan_of distance a b =
    if leb (difference a b) distance then some (distance - (a - b), distance - (b - a)) else none

plan3_lem : (a b : ℕ) → plan3 a b ≡ plan_of 3 a b
unfolding plan3 difference
plan3_lem a b = ground arith

plan2_lem : (a b : ℕ) → plan2 a b ≡ plan_of 2 a b
unfolding plan2 difference
plan2_lem a b = ground arith

plan1_lem : (a b : ℕ) → plan1 a b ≡ plan_of 1 a b
unfolding plan1 difference
plan1_lem a b = ground arith

plan0_lem : (a b : ℕ) → plan0 a b ≡ plan_of 0 a b
unfolding plan0 difference
plan0_lem a b = ground arith

plan_dq_lem : (a b : ℕ) → plan_dq a b ≡ plan_of 3 a b
unfolding plan_dq difference
plan_dq_lem a b = ground arith

-- Each of the five kinds of matching jobs looks at exactly the lengths that differ by at most its distance, 3, 2, 1, 0 and 3. It
-- leaves as many bytes as its distance out of the longer of two words, and out of the other so many that the lengths agree.
pub plans_lem :
    (docspace queryspace : ℕ)
    → (plan3 docspace queryspace ≡ plan_of 3 docspace queryspace)
      × (plan2 docspace queryspace ≡ plan_of 2 docspace queryspace)
      × (plan1 docspace queryspace ≡ plan_of 1 docspace queryspace)
      × (plan0 docspace queryspace ≡ plan_of 0 docspace queryspace)
      × (plan_dq queryspace docspace ≡ plan_of 3 queryspace docspace)
plans_lem d q = (plan3_lem d q, plan2_lem d q, plan1_lem d q, plan0_lem d q, plan_dq_lem q d)
