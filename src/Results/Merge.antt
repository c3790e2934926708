-- ===== src/Results/Merge.antt =====
-- The innermost loop of `results` merges two runs of the source.
use sigmod_programming_conte.Base.{
  ℕ, zero, suc, ◌+◌, ◌-◌, ◌≤◌, ◌<◌, ◌≡◌, refl, ap, ◌∙◌, true, false, some, List, [], ◌∷◌, ◌++◌,
  length, length-append, get_elem?-drop, drop_next, length-drop, append_assoc, get_elem?, take,
  drop, ltb, leb, arith, All, count, Bool-cases, inl, inr,
}
use sigmod_programming_conte.Queries.Order.{IsSorted}
use sigmod_programming_conte.Results.Sort.{copy, merge_loop}

-- Two lists merged; of two equal heads the second list's goes first.
pub merged : List ℕ → List ℕ → List ℕ
merged [] r = r
merged (x ∷ l) [] = x ∷ l
merged (x ∷ l) (y ∷ r) = elim (ltb x y) [
  | true ↦ x ∷ merged l (y ∷ r)
  | false ↦ y ∷ merged (x ∷ l) r
]

merged_left :
    (x y : ℕ) (l r : List ℕ) → ltb x y ≡ true → merged (x ∷ l) (y ∷ r) ≡ x ∷ merged l (y ∷ r)
unfolding merged
merged_left x y l r h = ground arith

merged_right :
    (x y : ℕ) (l r : List ℕ) → ltb x y ≡ false → merged (x ∷ l) (y ∷ r) ≡ y ∷ merged (x ∷ l) r
unfolding merged
merged_right x y l r h = ground arith

merged_nothing : (l r : List ℕ) → (merged [] r ≡ r) × (merged l [] ≡ l)
unfolding merged
merged_nothing [] r = (refl, refl)
merged_nothing (x ∷ l) r = (refl, refl)

pub length-merged : (l r : List ℕ) → length (merged l r) ≡ length l + length r
unfolding merged
length-merged [] r = omega arith
length-merged (x ∷ l) [] = omega arith
length-merged (x ∷ l) (y ∷ r) = ground (arith, length-merged l (y ∷ r), length-merged (x ∷ l) r)

pub count-merged : (a : ℕ) (l r : List ℕ) → count a (merged l r) ≡ count a l + count a r
unfolding merged
count-merged a [] r = omega arith
count-merged a (x ∷ l) [] = omega arith
count-merged a (x ∷ l) (y ∷ r) = ground (arith, count-merged a l (y ∷ r), count-merged a (x ∷ l) r)

merged-All : (a : ℕ) (l r : List ℕ) → All (◌≤◌ a) l → All (◌≤◌ a) r → All (◌≤◌ a) (merged l r)
merged-All a [] r hl hr = rw ((merged_nothing [] r).0) hr
merged-All a (x ∷ l) [] hl hr = rw ((merged_nothing (x ∷ l) []).1) hl
merged-All a (x ∷ l) (y ∷ r) hl hr = elim (Bool-cases (ltb x y)) [
  | inl e ↦ rw (merged_left x y l r e) (hl.0, merged-All a l (y ∷ r) hl.1 hr)
  | inr e ↦ rw (merged_right x y l r e) (hr.0, merged-All a (x ∷ l) r hl hr.1)
]

All-le : (a b : ℕ) (l : List ℕ) → a ≤ b → All (◌≤◌ b) l → All (◌≤◌ a) l
All-le a b [] le h = tt
All-le a b (x ∷ l) le h = (omega (arith, h.0), All-le a b l le h.1)

pub merged-IsSorted : (l r : List ℕ) → IsSorted l → IsSorted r → IsSorted (merged l r)
merged-IsSorted [] r hl hr = rw ((merged_nothing [] r).0) hr
merged-IsSorted (x ∷ l) [] hl hr = rw ((merged_nothing (x ∷ l) []).1) hl
merged-IsSorted (x ∷ l) (y ∷ r) hl hr = elim (Bool-cases (ltb x y)) [
  | inl e ↦
      let le : x ≤ y = ground arith in
      rw (merged_left x y l r e)
        (merged-All x l (y ∷ r) hl.0 (le, All-le x y r le hr.0), merged-IsSorted l (y ∷ r) hl.1 hr)
  | inr e ↦
      let le : y ≤ x = ground arith in
      rw (merged_right x y l r e)
        (merged-All y (x ∷ l) r (le, All-le y x l le hl.0) hr.0, merged-IsSorted (x ∷ l) r hl hr.1)
]

take-append : (l s : List ℕ) → take (length l) (l ++ s) ≡ l
take-append [] s = refl
take-append (x ∷ l) s = ap (◌∷◌ x) (take-append l s)

pub copy_lem :
    (source : List ℕ) (i n x : ℕ) (l s : List ℕ)
    → drop i source ≡ (x ∷ l) ++ s
    → n ≡ length (x ∷ l)
    → copy source i n ≡ some (x ∷ l)
unfolding copy
copy_lem source i n x l s h e =
    let fits : leb (i + length (x ∷ l)) (length source) ≡ true =
      ground (arith, length-drop source i h, length-append l s) in
    rw (e, fits, h) (ap (λ t. some (x ∷ t)) (take-append l s))

module _ (n : ℕ) (source : List ℕ) (ind1 eind1 ind2 eind2 : ℕ) (dest : List ℕ) (x y : ℕ) where
  -- A round that takes from the first run.
  left_round :
      (l r t : List ℕ)
      → get_elem? source ind1 ≡ some x
      → drop ind2 source ≡ (y ∷ r) ++ t
      → eind1 ≡ ind1 + length l
      → eind2 ≡ ind2 + length r
      → ltb x y ≡ true
      → ((x' : ℕ) (l' : List ℕ)
          → l ≡ x' ∷ l'
          → merge_loop n source (ind1 + 1) eind1 ind2 eind2 (dest ++ x ∷ [])
            ≡ some ((dest ++ x ∷ []) ++ merged (x' ∷ l') (y ∷ r)))
      → merge_loop (suc n) source ind1 eind1 ind2 eind2 dest ≡ some (dest ++ merged (x ∷ l) (y ∷ r))
  unfolding merge_loop
  left_round [] r t get1 hr el er e rest =
      let over : ltb eind1 (ind1 + 1) ≡ true = ground arith in
      let copied = copy_lem source ind2 (eind2 - ind2 + 1) y r t hr (omega arith) in
      rw
        (
          get1,
          get_elem?-drop source ind2 hr,
          e,
          over,
          copied,
          merged_left x y [] r e,
          (merged_nothing [] (y ∷ r)).0,
        )
        (ap some (append_assoc dest (x ∷ []) (y ∷ r)))
  left_round (x' ∷ l) r t get1 hr el er e rest =
      let here : ltb eind1 (ind1 + 1) ≡ false = ground arith in
      let there : ltb eind2 ind2 ≡ false = ground arith in
      rw
        (
          get1,
          get_elem?-drop source ind2 hr,
          e,
          here,
          there,
          rest x' l refl,
          merged_left x y (x' ∷ l) r e,
        )
        (ap some (append_assoc dest (x ∷ []) (merged (x' ∷ l) (y ∷ r))))

  -- A round that takes from the second run.
  right_round :
      (l r s : List ℕ)
      → drop ind1 source ≡ (x ∷ l) ++ s
      → get_elem? source ind2 ≡ some y
      → eind1 ≡ ind1 + length l
      → eind2 ≡ ind2 + length r
      → ltb x y ≡ false
      → ((y' : ℕ) (r' : List ℕ)
          → r ≡ y' ∷ r'
          → merge_loop n source ind1 eind1 (ind2 + 1) eind2 (dest ++ y ∷ [])
            ≡ some ((dest ++ y ∷ []) ++ merged (x ∷ l) (y' ∷ r')))
      → merge_loop (suc n) source ind1 eind1 ind2 eind2 dest ≡ some (dest ++ merged (x ∷ l) (y ∷ r))
  unfolding merge_loop
  right_round l [] s hl get2 el er e rest =
      let here : ltb eind1 ind1 ≡ false = ground arith in
      let over : ltb eind2 (ind2 + 1) ≡ true = ground arith in
      let copied = copy_lem source ind1 (eind1 - ind1 + 1) x l s hl (omega arith) in
      rw
        (
          get_elem?-drop source ind1 hl,
          get2,
          e,
          here,
          over,
          copied,
          merged_right x y l [] e,
          (merged_nothing (x ∷ l) []).1,
        )
        (ap some (append_assoc dest (y ∷ []) (x ∷ l)))
  right_round l (y' ∷ r) s hl get2 el er e rest =
      let here : ltb eind1 ind1 ≡ false = ground arith in
      let there : ltb eind2 (ind2 + 1) ≡ false = ground arith in
      rw
        (
          get_elem?-drop source ind1 hl,
          get2,
          e,
          here,
          there,
          rest y' r refl,
          merged_right x y l (y' ∷ r) e,
        )
        (ap some (append_assoc dest (y ∷ []) (merged (x ∷ l) (y' ∷ r))))

-- The loop, from places where the rests of two runs start, writes their merge. It has enough rounds.
pub merge_loop-merged :
    (n : ℕ) (source : List ℕ) (ind1 eind1 ind2 eind2 : ℕ) (dest : List ℕ) (x y : ℕ)
    (l r s t : List ℕ)
    → drop ind1 source ≡ (x ∷ l) ++ s
    → drop ind2 source ≡ (y ∷ r) ++ t
    → eind1 ≡ ind1 + length l
    → eind2 ≡ ind2 + length r
    → length l + length r < n
    → merge_loop n source ind1 eind1 ind2 eind2 dest ≡ some (dest ++ merged (x ∷ l) (y ∷ r))
merge_loop-merged zero source ind1 eind1 ind2 eind2 dest x y l r s t hl hr el er lt = elim lt [ ]
merge_loop-merged (suc n) source ind1 eind1 ind2 eind2 dest x y l r s t hl hr el er lt =
    elim (Bool-cases (ltb x y)) [
      | inl e ↦
          left_round n source ind1 eind1 ind2 eind2 dest x y l r t (get_elem?-drop source ind1 hl)
            hr el er e
            (λ x' l' same.
              merge_loop-merged n source (ind1 + 1) eind1 ind2 eind2 (dest ++ x ∷ []) x' y l' r s t
                (drop_next source ind1 hl ∙ ap (λ k. k ++ s) same) hr
                (omega (arith, ap length same)) er (omega (arith, ap length same)))
      | inr e ↦
          right_round n source ind1 eind1 ind2 eind2 dest x y l r s hl
            (get_elem?-drop source ind2 hr) el er e
            (λ y' r' same.
              merge_loop-merged n source ind1 eind1 (ind2 + 1) eind2 (dest ++ y ∷ []) x y' l r' s t
                hl (drop_next source ind2 hr ∙ ap (λ k. k ++ t) same) el
                (omega (arith, ap length same)) (omega (arith, ap length same)))
    ]
