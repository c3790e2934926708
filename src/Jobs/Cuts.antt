-- ===== src/Jobs/Cuts.antt =====
-- The words with one, two or three bytes left out, and the loops that enter all of them in a hash
-- table, as in JobScheduler/JobGenHashes.cpp and JobScheduler/JobGenHashesToken.cpp.
use sigmod_programming_conte.Base.{ℕ, zero, suc, ◌+◌, ◌-◌, List, [], ◌∷◌, ◌++◌, take, drop}
use mathlib.Core.Option.{get_or}
use sigmod_programming_conte.Core.{CString}
use sigmod_programming_conte.Library.{DenseMap, Hash}

-- What the pieces copied to `res` spell: the word without its byte `k`.
unfoldable pub cut : ℕ → CString → CString
cut k s = take k s ++ drop (k + 1) s

-- Without its bytes `j < k`.
unfoldable pub cut2 : ℕ → ℕ → CString → CString
cut2 j k s = take j s ++ take (k - j - 1) (drop (j + 1) s) ++ drop (k + 1) s

-- Without its bytes `i < j < k`.
unfoldable pub cut3 : ℕ → ℕ → ℕ → CString → CString
cut3 i j k s =
    take i s
    ++ take (j - i - 1) (drop (i + 1) s)
    ++ take (k - j - 1) (drop (j + 1) s)
    ++ drop (k + 1) s

-- `for (k = first; k < first + count; k++)`.
unfoldable pub for_range {ℓ} : {A : Type ℓ} → ℕ → ℕ → (ℕ → A → A) → A → A
for_range first zero body a = a
for_range first (suc count) body a = for_range (first + 1) count body (body first a)

module _ (hash : Hash) (tables : DenseMap ℕ (List ℕ)) where
  open tables use {Map, find, put}

  -- `table[mur()(s)].push_back(id)`.
  unfoldable pub push_hash : ℕ → CString → Map → Map
  push_hash id s table = put (hash.mur s) (get_or (find (hash.mur s) table) [] ++ id ∷ []) table

  -- The loop for one byte.
  unfoldable pub push_cuts : ℕ → CString → ℕ → Map → Map
  push_cuts id s size = for_range 0 size (λ k. push_hash id (cut k s))

  -- The loops for two bytes.
  unfoldable pub push_cuts2 : ℕ → CString → ℕ → Map → Map
  push_cuts2 id s size =
      for_range 0 (size - 1)
        (λ j. for_range (j + 1) (size - (j + 1)) (λ k. push_hash id (cut2 j k s)))

  -- The loops for three bytes.
  unfoldable pub push_cuts3 : ℕ → CString → ℕ → Map → Map
  push_cuts3 id s size = for_range 0 (size - 2) (λ i.
      for_range (i + 1) (size - 1 - (i + 1))
        (λ j. for_range (j + 1) (size - (j + 1)) (λ k. push_hash id (cut3 i j k s))))
