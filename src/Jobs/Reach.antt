-- ===== src/Jobs/Reach.antt =====
-- The hashing loops enter every shortened word.
use sigmod_programming_conte.Base.{
  ℕ, zero, suc, ◌+◌, ◌-◌, ◌≤◌, ◌<◌, ◌≡◌, ◌≢◌, ◌∙◌, Bool, true, List, [], ◌∷◌, ◌++◌, arith,
  ℕ_discrete,
}
use mathlib.Core.Option.{get_or}
use sigmod_programming_conte.Core.{CString}
use sigmod_programming_conte.Library.{DenseMap, Hash}
use sigmod_programming_conte.Token.Documents.{holds}
use sigmod_programming_conte.Jobs.Cuts.{
  cut, cut2, cut3, for_range, push_hash, push_cuts, push_cuts2, push_cuts3,
}

-- What every round of a loop keeps, the loop keeps.
pub for_range-keeps {ℓ κ} :
    {A : Type ℓ} (P : A → Type κ) (body : ℕ → A → A)
    → ((k : ℕ) (a : A) → P a → P (body k a))
    → (first count : ℕ) (a : A) → P a
    → P (for_range first count body a)
unfolding for_range
for_range-keeps P body keeps first zero a h = h
for_range-keeps P body keeps first (suc count) a h =
    for_range-keeps P body keeps (first + 1) count (body first a) (keeps first a h)

-- The same, if the round needs what the rounds before it keep.
pub for_range-reaches {ℓ κ} :
    {A : Type ℓ} (Q P : A → Type κ) (body : ℕ → A → A)
    → ((k : ℕ) (a : A) → Q a → Q (body k a))
    → ((k : ℕ) (a : A) → P a → P (body k a))
    → (i : ℕ) → ((a : A) → Q a → P (body i a))
    → (first count : ℕ) (a : A) → first ≤ i
    → i < first + count
    → Q a
    → P (for_range first count body a)
unfolding for_range
for_range-reaches Q P body before keeps i hit first zero a lo hi h = absurd (omega arith)
for_range-reaches Q P body before keeps i hit first (suc count) a lo hi h =
    elim (ℕ_discrete first i) [
      | yes e ↦ for_range-keeps P body keeps (first + 1) count (body first a) (rw e (hit a h))
      | no ne ↦
          for_range-reaches Q P body before keeps i hit (first + 1) count (body first a)
            (omega arith) (omega arith) (before first a h)
    ]

-- What one round establishes and all rounds keep holds after the loop.
for_range-hits {ℓ κ} :
    {A : Type ℓ} (P : A → Type κ) (body : ℕ → A → A)
    → ((k : ℕ) (a : A) → P a → P (body k a))
    → (i : ℕ) → ((a : A) → P (body i a))
    → (first count : ℕ) (a : A) → first ≤ i
    → i < first + count
    → P (for_range first count body a)
unfolding for_range
for_range-hits P body keeps i hit first zero a lo hi = absurd (omega arith)
for_range-hits P body keeps i hit first (suc count) a lo hi = elim (ℕ_discrete first i) [
  | yes e ↦ for_range-keeps P body keeps (first + 1) count (body first a) (rw e (hit a))
  | no ne ↦
      for_range-hits P body keeps i hit (first + 1) count (body first a) (omega arith) (omega arith)
]

holds-append_self : (id : ℕ) (l : List ℕ) → holds id (l ++ id ∷ []) ≡ true
holds-append_self id [] = ground arith
holds-append_self id (x ∷ l) = ground (arith, holds-append_self id l)

holds-append_left : (id x : ℕ) (l : List ℕ) → holds id l ≡ true → holds id (l ++ x ∷ []) ≡ true
holds-append_left id x [] h = ground arith
holds-append_left id x (y ∷ l) h = ground (arith, holds-append_left id x l)

module _ (hash : Hash) (tables : DenseMap ℕ (List ℕ)) (unused : tables.empty_key ≡ 0) where
  open tables use {Map, find, put, find-put_self, find-put_ne}

  -- The table lists the word `id` under the hash of `s`.
  abbrev pub lists : ℕ → CString → Map → Bool
  lists id s table = holds id (get_or (find (hash.mur s) table) [])

  mur_ok : (s : CString) → hash.mur s ≢ tables.empty_key
  mur_ok s e = hash.mur-ne-zero s (e ∙ unused)

  push_hash-hits :
      (id : ℕ) (s : CString) (table : Map) → lists id s (push_hash hash tables id s table) ≡ true
  unfolding push_hash
  push_hash-hits id s table =
      rw
        (find-put_self (hash.mur s) (get_or (find (hash.mur s) table) [] ++ id ∷ []) table
          (mur_ok s))
        (holds-append_self id (get_or (find (hash.mur s) table) []))

  push_hash-keeps :
      (id x : ℕ) (s t : CString) (table : Map)
      → lists id s table ≡ true
      → lists id s (push_hash hash tables x t table) ≡ true
  unfolding push_hash
  push_hash-keeps id x s t table h = elim (ℕ_discrete (hash.mur s) (hash.mur t)) [
    | yes e ↦
        rw
          (
            e,
            find-put_self (hash.mur t) (get_or (find (hash.mur t) table) [] ++ x ∷ []) table
                (mur_ok t),
          )
          (holds-append_left id x (get_or (find (hash.mur t) table) []) (rw e at h))
    | no ne ↦
        rw
          (find-put_ne (hash.mur s) (hash.mur t) (get_or (find (hash.mur t) table) [] ++ x ∷ [])
            table (mur_ok t) ne)
          h
  ]

  module _ (id : ℕ) (s : CString) (size : ℕ) where
    -- A word that is listed stays listed, whatever loop of this kind runs.
    abbrev Keeps : CString → ℕ → Map → Type 0
    Keeps t x table = lists x t table ≡ true

    cuts-Keeps :
        (t : CString) (x k : ℕ) (a : Map)
        → Keeps t x a
        → Keeps t x (push_hash hash tables id (cut k s) a)
    cuts-Keeps t x k a h = push_hash-keeps x id t (cut k s) a h

    -- After the loop for one byte, the word is listed under the hash of each word that leaves out one of its `size` bytes.
    pub push_cuts-lists :
        (k : ℕ) (table : Map)
        → k < size
        → lists id (cut k s) (push_cuts hash tables id s size table) ≡ true
    unfolding push_cuts
    push_cuts-lists k table lt =
        for_range-hits (Keeps (cut k s) id) (λ k. push_hash hash tables id (cut k s))
          (λ x a h. cuts-Keeps (cut k s) id x a h) k (λ a. push_hash-hits id (cut k s) a) 0 size
          table (omega arith) (omega arith)

    inner2 : ℕ → Map → Map
    inner2 j = for_range (j + 1) (size - (j + 1)) (λ k. push_hash hash tables id (cut2 j k s))

    inner2-Keeps : (t : CString) (j : ℕ) (a : Map) → Keeps t id a → Keeps t id (inner2 j a)
    unfolding inner2
    inner2-Keeps t j a h =
        for_range-keeps (Keeps t id) (λ k. push_hash hash tables id (cut2 j k s))
          (λ k a h. push_hash-keeps id id t (cut2 j k s) a h) (j + 1) (size - (j + 1)) a h

    -- After the loops for two bytes, the word is listed under the hash of each word that leaves out two of its bytes.
    pub push_cuts2-lists :
        (j k : ℕ) (table : Map)
        → j < k
        → k < size
        → lists id (cut2 j k s) (push_cuts2 hash tables id s size table) ≡ true
    unfolding push_cuts2 inner2
    push_cuts2-lists j k table lo hi =
        for_range-hits (Keeps (cut2 j k s) id) inner2 (λ j' a h. inner2-Keeps (cut2 j k s) j' a h) j
          (λ a.
            for_range-hits (Keeps (cut2 j k s) id) (λ k. push_hash hash tables id (cut2 j k s))
              (λ x a h. push_hash-keeps id id (cut2 j k s) (cut2 j x s) a h) k
              (λ a. push_hash-hits id (cut2 j k s) a) (j + 1) (size - (j + 1)) a (omega arith)
              (omega arith))
          0 (size - 1) table (omega arith) (omega arith)

    inner3 : ℕ → ℕ → Map → Map
    inner3 i j = for_range (j + 1) (size - (j + 1)) (λ k. push_hash hash tables id (cut3 i j k s))

    middle3 : ℕ → Map → Map
    middle3 i = for_range (i + 1) (size - 1 - (i + 1)) (inner3 i)

    inner3-Keeps : (t : CString) (i j : ℕ) (a : Map) → Keeps t id a → Keeps t id (inner3 i j a)
    unfolding inner3
    inner3-Keeps t i j a h =
        for_range-keeps (Keeps t id) (λ k. push_hash hash tables id (cut3 i j k s))
          (λ k a h. push_hash-keeps id id t (cut3 i j k s) a h) (j + 1) (size - (j + 1)) a h

    middle3-Keeps : (t : CString) (i : ℕ) (a : Map) → Keeps t id a → Keeps t id (middle3 i a)
    unfolding middle3
    middle3-Keeps t i a h =
        for_range-keeps (Keeps t id) (inner3 i) (λ j a h. inner3-Keeps t i j a h) (i + 1)
          (size - 1 - (i + 1)) a h

    -- After the loops for three bytes, the word is listed under the hash of each word that leaves out three of its bytes.
    pub push_cuts3-lists :
        (i j k : ℕ) (table : Map)
        → i < j
        → j < k
        → k < size
        → lists id (cut3 i j k s) (push_cuts3 hash tables id s size table) ≡ true
    unfolding push_cuts3 inner3 middle3
    push_cuts3-lists i j k table lo mid hi =
        let P = Keeps (cut3 i j k s) id in
        for_range-hits P middle3 (λ x a h. middle3-Keeps (cut3 i j k s) x a h) i
          (λ a.
            for_range-hits P (inner3 i) (λ x a h. inner3-Keeps (cut3 i j k s) i x a h) j
              (λ a.
                for_range-hits P (λ k. push_hash hash tables id (cut3 i j k s))
                  (λ x a h. push_hash-keeps id id (cut3 i j k s) (cut3 i j x s) a h) k
                  (λ a. push_hash-hits id (cut3 i j k s) a) (j + 1) (size - (j + 1)) a (omega arith)
                  (omega arith))
              (i + 1) (size - 1 - (i + 1)) a (omega arith) (omega arith))
          0 (size - 2) table (omega arith) (omega arith)
