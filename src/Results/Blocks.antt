-- ===== src/Results/Blocks.antt =====
-- The runs of the merge sort of `bitarea::results` by blocks.
use sigmod_programming_conte.Base.{
  ℕ, ◌+◌, ◌≤◌, ◌≡◌, refl, sym, ap, subst, ◌∙◌, Bool, true, false, ◌&&◌, some, List, [], ◌∷◌, ◌++◌,
  length, length-append, drop_next, append_assoc, append-nil, get_elem?, drop, arith, All, count,
  count-append,
}
use sigmod_programming_conte.Queries.Order.{IsSorted}
use sigmod_programming_conte.Results.Merge.{merged, length-merged, count-merged, merged-IsSorted}

-- The blocks one after the other.
abbrev pub flatten : List (List ℕ) → List ℕ
flatten [] = []
flatten (b ∷ bs) = b ++ flatten bs

-- The blocks are of `h` runs each, the last of `h` at most: the first starts with run `j` at place `at`, and
-- there are no more runs than the blocks have.
abbrev pub Blocks : List ℕ → ℕ → ℕ → ℕ → List (List ℕ) → Type 0
Blocks pos h j at [] = length pos ≤ j
Blocks pos h j at (b ∷ bs) =
    (get_elem? pos j ≡ some at) × (1 ≤ length b) × Blocks pos h (j + h) (at + length b) bs

-- The blocks merged two by two; a last one without a partner stays.
abbrev pub merge_pairs : List (List ℕ) → List (List ℕ)
merge_pairs [] = []
merge_pairs (b ∷ []) = b ∷ []
merge_pairs (b ∷ c ∷ bs) = merged b c ∷ merge_pairs bs

abbrev pub pairs_only : List (List ℕ) → List ℕ
pairs_only [] = []
pairs_only (b ∷ []) = []
pairs_only (b ∷ c ∷ bs) = merged b c ++ pairs_only bs

abbrev pub left_over : List (List ℕ) → List ℕ
left_over [] = []
left_over (b ∷ []) = b
left_over (b ∷ c ∷ bs) = left_over bs

pub flatten-merge_pairs :
    (bs : List (List ℕ)) → pairs_only bs ++ left_over bs ≡ flatten (merge_pairs bs)
flatten-merge_pairs [] = refl
flatten-merge_pairs (b ∷ []) = sym (append-nil b)
flatten-merge_pairs (b ∷ c ∷ bs) =
    append_assoc (merged b c) (pairs_only bs) (left_over bs)
    ∙ ap (λ t. merged b c ++ t) (flatten-merge_pairs bs)

pub count-merge_pairs :
    (a : ℕ) (bs : List (List ℕ)) → count a (flatten (merge_pairs bs)) ≡ count a (flatten bs)
count-merge_pairs a [] = refl
count-merge_pairs a (b ∷ []) = refl
count-merge_pairs a (b ∷ c ∷ bs) = omega (
  arith,
  count-append a (merged b c) (flatten (merge_pairs bs)),
  count-append a b (c ++ flatten bs),
  count-append a c (flatten bs),
  count-merged a b c,
  count-merge_pairs a bs,
)

pub merge_pairs-IsSorted : (bs : List (List ℕ)) → All IsSorted bs → All IsSorted (merge_pairs bs)
merge_pairs-IsSorted [] h = tt
merge_pairs-IsSorted (b ∷ []) h = h
merge_pairs-IsSorted (b ∷ c ∷ bs) h = (merged-IsSorted b c h.0 h.1.0, merge_pairs-IsSorted bs h.1.1)

module _ (pos : List ℕ) (h : ℕ) where
  pub merge_pairs-Blocks :
      (bs : List (List ℕ)) (k j at : ℕ)
      → k ≡ h + h
      → Blocks pos h j at bs
      → Blocks pos k j at (merge_pairs bs)
  merge_pairs-Blocks [] k j at e blocks = blocks
  merge_pairs-Blocks (b ∷ []) k j at e blocks = (blocks.0, blocks.1, omega (arith, blocks.2))
  merge_pairs-Blocks (b ∷ c ∷ bs) k j at e blocks =
      let (first, more, (second, more', rest)) = blocks in
      let same : j + h + h ≡ j + k = omega arith in
      let size : at + length b + length c ≡ at + length (merged b c) =
        omega (arith, length-merged b c) in
      (
        first,
        omega (arith, length-merged b c),
        merge_pairs-Blocks bs k (j + k) (at + length (merged b c)) e (
            subst (λ i. Blocks pos h i (at + length (merged b c)) bs) same
              (subst (λ t. Blocks pos h (j + h + h) t bs) size rest)),
      )

pub drop_run :
    (source b : List ℕ) (at : ℕ) (t : List ℕ)
    → drop at source ≡ b ++ t
    → drop (at + length b) source ≡ t
drop_run source [] at t e = let same : at + 0 ≡ at = omega arith in rw same e
drop_run source (x ∷ b) at t e =
    let same : at + length (x ∷ b) ≡ at + 1 + length b = omega arith in
    rw same (drop_run source b (at + 1) t (drop_next source at e))

pub drop-left_over :
    (source : List ℕ) (bs : List (List ℕ)) (at : ℕ)
    → drop at source ≡ flatten bs
    → drop (at + length (pairs_only bs)) source ≡ left_over bs
drop-left_over source [] at e = let same : at + 0 ≡ at = omega arith in rw same e
drop-left_over source (b ∷ []) at e =
    let same : at + 0 ≡ at = omega arith in rw same (e ∙ append-nil b)
drop-left_over source (b ∷ c ∷ bs) at e =
    let one = drop_run source b at (c ++ flatten bs) e in
    let two = drop_run source c (at + length b) (flatten bs) one in
    let same : at + length (merged b c ++ pairs_only bs)
        ≡ at + length b + length c + length (pairs_only bs) =
      omega (arith, length-append (merged b c) (pairs_only bs), length-merged b c) in
    rw same (drop-left_over source bs (at + length b + length c) two)

pub and_false : (b : Bool) → (b && false) ≡ false
and_false true = refl
and_false false = refl
