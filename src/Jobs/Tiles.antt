-- ===== src/Jobs/Tiles.antt =====
-- The jobs of a range take it apart without gap or overlap.
use sigmod_programming_conte.Base.{ℕ, zero, suc, ◌+◌, ◌≤◌, ◌<◌, ◌≡◌, List, [], ◌∷◌, arith}
use sigmod_programming_conte.Jobs.Split.{split_from, split}

-- The ranges are not empty, hold at most `most` each, and follow one another from `k` to `size`.
abbrev pub Tiles : ℕ → ℕ → ℕ → List (ℕ × ℕ) → Type 0
Tiles most k size [] = k ≡ size
Tiles most k size ((a, b) ∷ l) = (a ≡ k) × (a < b) × (b ≤ a + most) × Tiles most b size l

-- Enough fuel: each round moves `k` on.
split_from-Tiles :
    (wpj size fuel k : ℕ)
    → 1 ≤ wpj
    → k ≤ size
    → size ≤ k + fuel
    → Tiles wpj k size (split_from (λ a b. (a, b)) wpj size fuel k)
unfolding split_from
split_from-Tiles wpj size zero k one le enough = ground arith
split_from-Tiles wpj size (suc fuel) k one le enough =
    ground (arith, split_from-Tiles wpj size fuel (k + wpj) one)

-- With at least one item per job, the jobs of a range of any size get ranges that are not empty, have at most
-- that many items, and cover the whole range in order, without gap or overlap.
pub split-Tiles : (wpj size : ℕ) → 1 ≤ wpj → Tiles wpj 0 size (split (λ a b. (a, b)) wpj size)
unfolding split
split-Tiles wpj size one = split_from-Tiles wpj size size 0 one (omega arith) (omega arith)
