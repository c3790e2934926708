-- ===== src/Jobs/Split.antt =====
-- The loop that deals a range of work out to jobs, as it stands in JobScheduler/JobGenHashes.cpp,
-- JobScheduler/JobGenHashesToken.cpp and MatchStuff/Results.cpp.
use sigmod_programming_conte.Base.{ℕ, zero, suc, ◌+◌, List, [], ◌∷◌, ltb, ◌==◌, if◌then◌else◌}

-- `for (; k < size - wpj; k += wpj)` and the job for the rest. The `int` test is written without the
-- difference. The fuel is an upper bound on the rounds.
unfoldable pub split_from {ℓ} : {A : Type ℓ} → (ℕ → ℕ → A) → ℕ → ℕ → ℕ → ℕ → List A
split_from make wpj size zero k = if k == size then [] else make k size ∷ []
split_from make wpj size (suc fuel) k =
    let rest = split_from make wpj size fuel (k + wpj) in
    if ltb (k + wpj) size
    then make k (k + wpj) ∷ rest
    else if k == size
    then []
    else make k size ∷ []

-- The whole loop, from 0. Each round but the last takes at least one, so `size` rounds are enough.
unfoldable pub split {ℓ} : {A : Type ℓ} → (ℕ → ℕ → A) → ℕ → ℕ → List A
split make wpj size = split_from make wpj size size 0
