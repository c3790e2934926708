-- ===== src/Matching/Shared.antt =====
-- Two words of one length with at most three mismatches share a word that leaves out three bytes, so that the tables
-- of JobGenHashes lead to the one from the other.
use sigmod_programming_conte.Base.{
  ◌&&◌, ℕ, zero, suc, ◌+◌, ◌-◌, ◌≤◌, ◌<◌, ◌≡◌, refl, sym, ap, ap₂, ◌∙◌, true, not, List, [], ◌∷◌,
  length, leb, ◌==◌, ==→eq, to_nat, arith, Bool-cases, inl, inr,
}
use sigmod_programming_conte.Core.{CString}
use sigmod_programming_conte.Library.{DenseMap, Hash}
use sigmod_programming_conte.Distance.Defs.{ne_at, hamming_distance}
use sigmod_programming_conte.Distance.Same.{mismatches_from}
use sigmod_programming_conte.Distance.Hamming.{hamming_distance_lem}
use sigmod_programming_conte.Jobs.Cuts.{cut, cut2, cut3, push_cuts3}
use sigmod_programming_conte.Jobs.Reach.{lists, push_cuts3-lists}

-- The places where two words of one length differ.
abbrev mismatches : CString → CString → ℕ
mismatches [] t = 0
mismatches (c ∷ s) [] = 0
mismatches (c ∷ s) (d ∷ t) = to_nat (not (c == d)) + mismatches s t

mismatches-length : (s t : CString) → mismatches s t ≤ length s
mismatches-length [] t = omega arith
mismatches-length (c ∷ s) [] = omega arith
mismatches-length (c ∷ s) (d ∷ t) = ground (arith, mismatches-length s t)

no_mismatches : (s t : CString) → length s ≡ length t → mismatches s t ≡ 0 → s ≡ t
no_mismatches [] [] e h = refl
no_mismatches [] (d ∷ t) e h = absurd (omega (arith, e))
no_mismatches (c ∷ s) [] e h = absurd (omega (arith, e))
no_mismatches (c ∷ s) (d ∷ t) e h =
    let same : (c == d) ≡ true = ground arith in
    ap₂ (λ x l. x ∷ l) (==→eq c d same) (no_mismatches s t (omega (arith, e)) (ground arith))

-- The index of the loop against the list.
mismatches_from-drop :
    (c d : ℕ) (s t : CString) (j n : ℕ)
    → mismatches_from (c ∷ s) (d ∷ t) (j + 1) n ≡ mismatches_from s t j n
unfolding mismatches_from ne_at
mismatches_from-drop c d s t j zero = refl
mismatches_from-drop c d s t j (suc n) =
    let step : j + 1 ≡ suc j = omega arith in
    ap₂ (λ x y. x + y) (rw step refl) (mismatches_from-drop c d s t (j + 1) n)

mismatches_from-mismatches :
    (s t : CString) → length s ≡ length t → mismatches_from s t 0 (length s) ≡ mismatches s t
unfolding mismatches_from ne_at
mismatches_from-mismatches [] t e = refl
mismatches_from-mismatches (c ∷ s) [] e = absurd (omega (arith, e))
mismatches_from-mismatches (c ∷ s) (d ∷ t) e =
    ap (λ n. to_nat (not (c == d)) + n)
      (mismatches_from-drop c d s t 0 (length s)
        ∙ mismatches_from-mismatches s t (omega (arith, e)))

-- How the shortened words of a word begin.
pub cut-suc : (k c : ℕ) (s : CString) → cut (suc k) (c ∷ s) ≡ c ∷ cut k s
unfolding cut
cut-suc k c s = let step : suc k + 1 ≡ suc (k + 1) = omega arith in rw step refl

pub cut2-zero : (k c : ℕ) (s : CString) → cut2 0 (suc k) (c ∷ s) ≡ cut k s
unfolding cut cut2
cut2-zero k c s =
    let step : suc k + 1 ≡ suc (k + 1) = omega arith in
    let size : suc k - 0 - 1 ≡ k = omega arith in rw (step, size) refl

pub cut2-suc : (j k c : ℕ) (s : CString) → cut2 (suc j) (suc k) (c ∷ s) ≡ c ∷ cut2 j k s
unfolding cut2
cut2-suc j k c s =
    let first : suc j + 1 ≡ suc (j + 1) = omega arith in
    let second : suc k + 1 ≡ suc (k + 1) = omega arith in
    let size : suc k - suc j - 1 ≡ k - j - 1 = omega arith in rw (first, second, size) refl

pub cut3-zero : (j k c : ℕ) (s : CString) → cut3 0 (suc j) (suc k) (c ∷ s) ≡ cut2 j k s
unfolding cut2 cut3
cut3-zero j k c s =
    let first : suc j + 1 ≡ suc (j + 1) = omega arith in
    let second : suc k + 1 ≡ suc (k + 1) = omega arith in
    let size : suc k - suc j - 1 ≡ k - j - 1 = omega arith in
    let size' : suc j - 0 - 1 ≡ j = omega arith in rw (first, second, size, size') refl

pub cut3-suc : (i j k c : ℕ) (s : CString) → cut3 (suc i) (suc j) (suc k) (c ∷ s) ≡ c ∷ cut3 i j k s
unfolding cut3
cut3-suc i j k c s =
    let first : suc i + 1 ≡ suc (i + 1) = omega arith in
    let second : suc j + 1 ≡ suc (j + 1) = omega arith in
    let third : suc k + 1 ≡ suc (k + 1) = omega arith in
    let size : suc j - suc i - 1 ≡ j - i - 1 = omega arith in
    let size' : suc k - suc j - 1 ≡ k - j - 1 = omega arith in
    rw (first, second, third, size, size') refl

share1 :
    (s t : CString)
    → length s ≡ length t
    → 1 ≤ length s
    → mismatches s t ≤ 1
    → (k : ℕ) × (k < length s) × (cut k s ≡ cut k t)
unfolding cut
share1 [] t e long few = absurd (omega arith)
share1 (c ∷ s) [] e long few = absurd (omega (arith, e))
share1 (c ∷ s) (d ∷ t) e long few = elim (Bool-cases (c == d && leb 1 (length s))) [
  | inl same ↦
      let (k, lt, shared) = share1 s t (omega (arith, e)) (ground arith) (ground arith) in
      let first = ==→eq c d (ground arith) in
      (suc k, omega arith, cut-suc k c s ∙ ap₂ (λ x l. x ∷ l) first shared ∙ sym (cut-suc k d t))
  | inr other ↦
      let size = mismatches-length s t in
      (0, omega arith, no_mismatches s t (omega (arith, e)) (ground (arith, size)))
]

share2 :
    (s t : CString)
    → length s ≡ length t
    → 2 ≤ length s
    → mismatches s t ≤ 2
    → (j k : ℕ) × (j < k) × (k < length s) × (cut2 j k s ≡ cut2 j k t)
share2 [] t e long few = absurd (omega arith)
share2 (c ∷ s) [] e long few = absurd (omega (arith, e))
share2 (c ∷ s) (d ∷ t) e long few = elim (Bool-cases (c == d && leb 2 (length s))) [
  | inl same ↦
      let (j, k, order, lt, shared) = share2 s t (omega (arith, e)) (ground arith) (ground arith) in
      let first = ==→eq c d (ground arith) in
      (
        suc j,
        suc k,
        omega arith,
        omega arith,
        cut2-suc j k c s ∙ ap₂ (λ x l. x ∷ l) first shared ∙ sym (cut2-suc j k d t),
      )
  | inr other ↦
      let size = mismatches-length s t in
      let (k, lt, shared) = share1 s t (omega (arith, e)) (omega arith) (ground (arith, size)) in
      (0, suc k, omega arith, omega arith, cut2-zero k c s ∙ shared ∙ sym (cut2-zero k d t))
]

share3 :
    (s t : CString)
    → length s ≡ length t
    → 3 ≤ length s
    → mismatches s t ≤ 3
    → (i j k : ℕ) × (i < j) × (j < k) × (k < length s) × (cut3 i j k s ≡ cut3 i j k t)
share3 [] t e long few = absurd (omega arith)
share3 (c ∷ s) [] e long few = absurd (omega (arith, e))
share3 (c ∷ s) (d ∷ t) e long few = elim (Bool-cases (c == d && leb 3 (length s))) [
  | inl same ↦
      let (i, j, k, order, order', lt, shared) =
        share3 s t (omega (arith, e)) (ground arith) (ground arith) in
      let first = ==→eq c d (ground arith) in
      (
        suc i,
        suc j,
        suc k,
        omega arith,
        omega arith,
        omega arith,
        cut3-suc i j k c s ∙ ap₂ (λ x l. x ∷ l) first shared ∙ sym (cut3-suc i j k d t),
      )
  | inr other ↦
      let size = mismatches-length s t in
      let (j, k, order, lt, shared) =
        share2 s t (omega (arith, e)) (omega arith) (ground (arith, size)) in
      (
        0,
        suc j,
        suc k,
        omega arith,
        omega arith,
        omega arith,
        cut3-zero j k c s ∙ shared ∙ sym (cut3-zero j k d t),
      )
]

module _ (hash : Hash) (tables : DenseMap ℕ (List ℕ)) (unused : tables.empty_key ≡ 0) where
  -- A query word and a document word of one length, at least three bytes, between which `HammingDistance` finds at most
  -- three mismatches: once the loops of JobGenHashes have run for the document word, the table lists it under the
  -- hash of some word that leaves out three bytes of the query word, which QD3 looks up.
  pub push_cuts3-hamming_distance :
      (id : ℕ) (doc query : CString) (table : tables.Map)
      → length doc ≡ length query
      → 3 ≤ length doc
      → hamming_distance doc (length doc) query 3 ≤ 3
      → (i j k : ℕ) × (i < j)
        × (j < k)
        × (k < length query)
        × (lists hash tables unused id
              (cut3 i j k query)
              (push_cuts3 hash tables id doc (length doc) table)
            ≡ true)
  push_cuts3-hamming_distance id doc query table e long near =
      let distance = hamming_distance_lem doc query (length doc) 3 in
      let few : mismatches doc query ≤ 3 =
        ground (arith, distance, mismatches_from-mismatches doc query e) in
      let (i, j, k, order, order', lt, shared) = share3 doc query e long few in
      (
        i,
        j,
        k,
        order,
        order',
        omega (arith, e),
        rw (← shared)
            (push_cuts3-lists hash tables unused id doc (length doc) i j k table order order' lt),
      )
