-- ===== src/Results/Passes.antt =====
-- The passes of `results` over the blocks of runs: each merges the blocks two by two, and the last leaves one.
use sigmod_programming_conte.Base.{
  ℕ, zero, suc, ◌+◌, ◌-◌, ◌*◌, ◌/◌, ◌≤◌, ◌<◌, ◌≡◌, refl, sym, ap, subst, ◌∙◌, Bool, true, false,
  not, ◌&&◌, some, List, [], ◌∷◌, ◌++◌, length, length-append, length-drop, append_assoc,
  append-nil, get_elem?-length, drop, ltb, if◌then◌else◌, arith, All, count, Bool-cases, inl, inr,
}
use sigmod_programming_conte.Queries.Order.{IsSorted}
use sigmod_programming_conte.Results.Sort.{copy, block_end, merge_block, merge_pass, merge_passes}
use sigmod_programming_conte.Results.Merge.{merged, length-merged, copy_lem, merge_loop-merged}
use sigmod_programming_conte.Results.Blocks.{
  flatten, Blocks, merge_pairs, pairs_only, left_over, flatten-merge_pairs, count-merge_pairs,
  merge_pairs-IsSorted, merge_pairs-Blocks, drop_run, drop-left_over, and_false,
}

module _ (pos source : List ℕ) (h k : ℕ) (two : k ≡ h + h) (some_runs : 1 ≤ h) where
  halves : k / 2 ≡ h
  halves = omega arith

  block_end_lem :
      (bs : List (List ℕ)) (j at : ℕ)
      → Blocks pos h (j + k) at bs
      → length source ≡ at + length (flatten bs)
      → 1 ≤ length pos
      → block_end k pos (length source) j ≡ some (at - 1)
  unfolding block_end
  block_end_lem [] j at blocks size full =
      let over : ltb (length pos - 1) (j + k) ≡ true = ground arith in
      rw over (ap (λ n. some (n - 1)) (omega (arith, size)))
  block_end_lem (b ∷ bs) j at blocks size full =
      let within : ltb (length pos - 1) (j + k) ≡ false =
        ground (arith, get_elem?-length pos (j + k) blocks.0) in
      rw (within, blocks.0) refl

  merge_block_lem :
      (b c : List ℕ) (bs : List (List ℕ)) (j at : ℕ) (dest : List ℕ)
      → Blocks pos h j at (b ∷ c ∷ bs)
      → drop at source ≡ flatten (b ∷ c ∷ bs)
      → merge_block k pos source j dest ≡ some (dest ++ merged b c)
  unfolding merge_block
  merge_block_lem [] c bs j at dest blocks e = absurd (omega (arith, blocks.1))
  merge_block_lem (x ∷ l) [] bs j at dest blocks e = absurd (omega (arith, blocks.2.1))
  merge_block_lem (x ∷ l) (y ∷ r) bs j at dest blocks e =
      let (first, more, (second, more', rest)) = blocks in
      let half : (if ltb 1 (k / 2) then k / 2 else 1) ≡ h = rw halves (ground arith) in
      let same : j + h + h ≡ j + k = omega arith in
      let one = drop_run source (x ∷ l) at ((y ∷ r) ++ flatten bs) e in
      let total : length source ≡ at + length (x ∷ l) + length (y ∷ r) + length (flatten bs) =
        omega (
          arith,
          length-drop source at e,
          length-append l ((y ∷ r) ++ flatten bs),
          length-append r (flatten bs),
        ) in
      let end =
        block_end_lem bs j (at + length (x ∷ l) + length (y ∷ r))
          (subst (λ i. Blocks pos h i (at + length (x ∷ l) + length (y ∷ r)) bs) same rest) total
          (omega (arith, get_elem?-length pos j first)) in
      rw (half, first, second, end)
        (merge_loop-merged _ source at _ (at + length (x ∷ l)) _ dest x y l r
          ((y ∷ r) ++ flatten bs) (flatten bs) e one (omega arith) (omega arith) (omega arith))

  stopped :
      (n john j : ℕ) (dest : List ℕ)
      → (ltb j john && not (ltb (length pos - 1) (j + k / 2))) ≡ false
      → merge_pass (suc n) k pos source john j dest ≡ some dest
  unfolding merge_pass
  stopped n john j dest e = rw (e, merge_pass) refl

  goes_on :
      (n john j : ℕ) (dest dest' : List ℕ)
      → (ltb j john && not (ltb (length pos - 1) (j + k / 2))) ≡ true
      → merge_block k pos source j dest ≡ some dest'
      → merge_pass (suc n) k pos source john j dest ≡ merge_pass n k pos source john (j + k) dest'
  unfolding merge_pass
  goes_on n john j dest dest' e block = rw (e, merge_pass) (rw block refl)

  -- One pass writes the pairs, merged.
  merge_pass_lem :
      (n john : ℕ) (bs : List (List ℕ)) (j at : ℕ) (dest : List ℕ)
      → length pos ≤ john + 1
      → john ≤ j + n
      → 1 ≤ length pos
      → Blocks pos h j at bs
      → drop at source ≡ flatten bs
      → merge_pass n k pos source john j dest ≡ some (dest ++ pairs_only bs)
  unfolding merge_pass
  merge_pass_lem zero john [] j at dest enough fuel full blocks e = ap some (sym (append-nil dest))
  merge_pass_lem zero john (b ∷ []) j at dest enough fuel full blocks e =
      ap some (sym (append-nil dest))
  merge_pass_lem zero john (b ∷ c ∷ bs) j at dest enough fuel full blocks e =
      absurd (omega (arith, get_elem?-length pos (j + h) blocks.2.0))
  merge_pass_lem (suc n) john [] j at dest enough fuel full blocks e =
      let last : not (ltb (length pos - 1) (j + k / 2)) ≡ false = rw halves (ground arith) in
      stopped n john j dest (ap (λ t. ltb j john && t) last ∙ and_false (ltb j john))
      ∙ ap some (sym (append-nil dest))
  merge_pass_lem (suc n) john (b ∷ []) j at dest enough fuel full blocks e =
      let last : not (ltb (length pos - 1) (j + k / 2)) ≡ false = rw halves (ground arith) in
      stopped n john j dest (ap (λ t. ltb j john && t) last ∙ and_false (ltb j john))
      ∙ ap some (sym (append-nil dest))
  merge_pass_lem (suc n) john (b ∷ c ∷ bs) j at dest enough fuel full blocks e =
      let (first, more, (second, more', rest)) = blocks in
      let here : ltb j john ≡ true = ground (arith, get_elem?-length pos (j + h) second) in
      let go : not (ltb (length pos - 1) (j + k / 2)) ≡ true =
        rw halves (ground (arith, get_elem?-length pos (j + h) second)) in
      let same : j + h + h ≡ j + k = omega arith in
      let one = drop_run source b at (c ++ flatten bs) e in
      let after = drop_run source c (at + length b) (flatten bs) one in
      let more_runs : (ltb j john && not (ltb (length pos - 1) (j + k / 2))) ≡ true =
        rw (here, go) refl in
      goes_on n john j dest (dest ++ merged b c) more_runs
        (merge_block_lem b c bs j at dest blocks e)
      ∙ merge_pass_lem n john bs (j + k) (at + length b + length c) (dest ++ merged b c) enough
          (omega arith) full (subst (λ i. Blocks pos h i (at + length b + length c) bs) same rest)
          after
      ∙ ap some (append_assoc dest (merged b c) (pairs_only bs))

-- What a pass leaves is copied.
copy_rest :
    (source dest rest : List ℕ)
    → drop (length dest) source ≡ rest
    → length source ≡ length dest + length rest
    → (if ltb (length dest) (length source)
        then copy source (length dest) (length source - length dest)
        else some [])
      ≡ some rest
copy_rest source dest [] e size =
    let done : ltb (length dest) (length source) ≡ false = ground arith in rw done refl
copy_rest source dest (x ∷ rest) e size =
    let more : ltb (length dest) (length source) ≡ true = ground arith in
    rw more (
      copy_lem source (length dest) (length source - length dest) x rest []
        (e ∙ sym (append-nil (x ∷ rest))) (omega arith))

-- With one block at most, the source is that block.
last_block :
    (pos : List ℕ) (h : ℕ) (bs : List (List ℕ))
    → length pos ≤ h
    → Blocks pos h 0 0 bs
    → All IsSorted bs
    → IsSorted (flatten bs)
last_block pos h [] le blocks sorted = tt
last_block pos h (b ∷ []) le blocks sorted = rw (append-nil b) (sorted.0)
last_block pos h (b ∷ c ∷ bs) le blocks sorted =
    absurd (omega (arith, get_elem?-length pos (0 + h) blocks.2.0))

length-left_over :
    (bs : List (List ℕ)) → length (flatten bs) ≡ length (pairs_only bs) + length (left_over bs)
length-left_over [] = omega arith
length-left_over (b ∷ []) = omega (arith, length-append b [])
length-left_over (b ∷ c ∷ bs) = omega (
  arith,
  length-left_over bs,
  length-append b (c ++ flatten bs),
  length-append c (flatten bs),
  length-append (merged b c) (pairs_only bs),
  length-merged b c,
)

one_pass :
    (n xx k h : ℕ) (odd : Bool) (pos : List ℕ) (bs : List (List ℕ))
    → ltb k xx ≡ true
    → k ≡ h + h
    → 1 ≤ h
    → 1 ≤ length pos
    → Blocks pos h 0 0 bs
    → merge_passes (suc n) xx k odd pos (flatten bs)
      ≡ merge_passes n xx (k * 2) (not odd) pos (flatten (merge_pairs bs))
unfolding merge_passes
one_pass n xx k h odd pos bs go two some_runs full blocks =
    let source = flatten bs in
    let john = if odd then length pos - 1 else length pos in
    let pass =
      merge_pass_lem pos source h k two some_runs john john bs 0 0 [] (ground arith) (omega arith)
        full blocks refl in
    let size : length source ≡ length (pairs_only bs) + length (left_over bs) =
      length-left_over bs in
    let zero_add : 0 + length (pairs_only bs) ≡ length (pairs_only bs) = omega arith in
    let rest =
      copy_rest source (pairs_only bs) (left_over bs)
        (rw zero_add at (drop-left_over source bs 0 refl)) size in
    rw (go, merge_passes) (rw (pass, rest, flatten-merge_pairs bs) refl)

-- The passes return one sorted list with the ids of all blocks.
pub merge_passes_lem :
    (n xx k h : ℕ) (odd : Bool) (pos : List ℕ) (bs : List (List ℕ))
    → k ≡ h + h
    → 1 ≤ h
    → 1 ≤ length pos
    → length pos + length pos ≤ xx
    → xx - k < n
    → Blocks pos h 0 0 bs
    → All IsSorted bs
    → (out : List ℕ) × (merge_passes n xx k odd pos (flatten bs) ≡ some out)
      × IsSorted out
      × ((a : ℕ) → count a out ≡ count a (flatten bs))
unfolding merge_passes
merge_passes_lem zero xx k h odd pos bs two some_runs full wide fuel blocks sorted = elim fuel [ ]
merge_passes_lem (suc n) xx k h odd pos bs two some_runs full wide fuel blocks sorted =
    elim (Bool-cases (ltb k xx)) [
      | inl go ↦
          let (out, ran, ascending, same) =
            merge_passes_lem n xx (k * 2) k (not odd) pos (merge_pairs bs) (omega arith)
              (omega arith) full wide (ground arith) (merge_pairs-Blocks pos h bs k 0 0 two blocks)
              (merge_pairs-IsSorted bs sorted) in
          (
            out,
            one_pass n xx k h odd pos bs go two some_runs full blocks ∙ ran,
            ascending,
            λ a. same a ∙ count-merge_pairs a bs,
          )
      | inr stop ↦ (
        flatten bs,
        rw (stop, merge_passes) refl,
        last_block pos h bs (ground arith) blocks sorted,
        λ a. refl,
      )
    ]
