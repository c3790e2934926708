-- ===== src/Interface/Splitting.antt =====
-- Documents with one space between words are split into their words; a document that ends with a space
-- is never done.
use sigmod_programming_conte.Base.{
  ℕ, zero, suc, ◌+◌, ◌≤◌, ◌<◌, ◌≡◌, refl, ap, ◌∙◌, false, none, some, List, [], ◌∷◌, ◌++◌, length,
  ◌==◌, ◌>>=◌, arith, All, Bool-cases, inl, inr,
}
use sigmod_programming_conte.Core.{CString}
use sigmod_programming_conte.Interface.Reading.{
  skip_spaces, take_word, after_word, document_loop, document_words,
}

-- A word: at least one byte, and no space.
abbrev pub IsWord : CString → Type 0
IsWord s = (1 ≤ length s) × All (λ c. (c == 32) ≡ false) s

-- The words with one space between them.
abbrev pub join : CString → List CString → CString
join w [] = w
join w (v ∷ ws) = w ++ 32 ∷ join v ws

pub take_word-append :
    (w s : CString) → All (λ c. (c == 32) ≡ false) w → take_word (w ++ 32 ∷ s) ≡ (w, 32 ∷ s)
unfolding take_word
take_word-append [] s h = refl
take_word-append (c ∷ w) s h = rw (h.0, take_word-append w s h.1) refl

pub take_word-whole : (w : CString) → All (λ c. (c == 32) ≡ false) w → take_word w ≡ (w, [])
unfolding take_word
take_word-whole [] h = refl
take_word-whole (c ∷ w) h = rw (h.0, take_word-whole w h.1) refl

pub skip_spaces-word : (c : ℕ) (s : CString) → (c == 32) ≡ false → skip_spaces (c ∷ s) ≡ c ∷ s
unfolding skip_spaces
skip_spaces-word c s h = rw h refl

module _ (fuel : ℕ) (s : CString) where
  pub document_loop-last :
      {c : ℕ} {cs : CString}
      → take_word (skip_spaces s) ≡ (c ∷ cs, [])
      → document_loop (suc fuel) s ≡ some ((c ∷ cs) ∷ [])
  unfolding document_loop after_word
  document_loop-last e = rw e refl

  pub document_loop-more :
      {c d : ℕ} {cs rest : CString}
      → take_word (skip_spaces s) ≡ (c ∷ cs, d ∷ rest)
      → document_loop (suc fuel) s ≡ (document_loop fuel rest >>= λ more. some ((c ∷ cs) ∷ more))
  unfolding document_loop after_word
  document_loop-more e = rw e refl

  document_loop-again :
      {rest : CString}
      → take_word (skip_spaces s) ≡ ([], rest)
      → document_loop (suc fuel) s ≡ document_loop fuel rest
  unfolding document_loop after_word
  document_loop-again e = rw e refl

document_loop-join :
    (w : CString) (ws : List CString) (fuel : ℕ)
    → IsWord w
    → All IsWord ws
    → length ws < fuel
    → document_loop fuel (join w ws) ≡ some (w ∷ ws)
document_loop-join [] ws fuel h hs lt = absurd (omega (arith, h.0))
document_loop-join (c ∷ w) ws zero h hs lt = absurd (omega arith)
document_loop-join (c ∷ w) [] (suc fuel) h hs lt =
    document_loop-last fuel (c ∷ w)
      (ap take_word (skip_spaces-word c w h.1.0) ∙ take_word-whole (c ∷ w) h.1)
document_loop-join (c ∷ w) (v ∷ ws) (suc fuel) h hs lt =
    document_loop-more fuel (c ∷ w ++ 32 ∷ join v ws) (
      ap take_word (skip_spaces-word c (w ++ 32 ∷ join v ws) h.1.0)
      ∙ take_word-append (c ∷ w) (join v ws) h.1)
    ∙ rw (document_loop-join v ws fuel hs.0 hs.1 (omega arith)) refl

document_words-loop :
    (fuel : ℕ) (s : CString) → 1 ≤ length s → document_words fuel s ≡ document_loop fuel s
unfolding document_words
document_words-loop fuel [] h = absurd (omega arith)
document_words-loop fuel (c ∷ s) h = refl

join-nonempty : (w : CString) (ws : List CString) → 1 ≤ length w → 1 ≤ length (join w ws)
join-nonempty [] ws h = absurd (omega arith)
join-nonempty (c ∷ w) [] h = h
join-nonempty (c ∷ w) (v ∷ ws) h = omega arith

-- A document of words with one space between them is read as those words, and one round of the loop for
-- each word is enough.
pub document_words-join :
    (w : CString) (ws : List CString)
    → IsWord w
    → All IsWord ws
    → document_words (length ws + 1) (join w ws) ≡ some (w ∷ ws)
document_words-join w ws h hs =
    document_words-loop (length ws + 1) (join w ws) (join-nonempty w ws h.0)
    ∙ document_loop-join w ws (length ws + 1) h hs (omega arith)

-- The string is empty or ends with a space.
abbrev pub EndsWithSpace : CString → Type 0
EndsWithSpace [] = Unit {0}
EndsWithSpace (c ∷ []) = c ≡ 32
EndsWithSpace (c ∷ d ∷ s) = EndsWithSpace (d ∷ s)

EndsWithSpace-tail : (c : ℕ) (s : CString) → EndsWithSpace (c ∷ s) → EndsWithSpace s
EndsWithSpace-tail c [] h = tt
EndsWithSpace-tail c (d ∷ s) h = h

skip_spaces-EndsWithSpace : (s : CString) → EndsWithSpace s → EndsWithSpace (skip_spaces s)
unfolding skip_spaces
skip_spaces-EndsWithSpace [] h = h
skip_spaces-EndsWithSpace (c ∷ s) h = elim (Bool-cases (c == 32)) [
  | inl e ↦ rw e (skip_spaces-EndsWithSpace s (EndsWithSpace-tail c s h))
  | inr e ↦ rw e h
]

-- A word of such a string has a space after it.
take_word-EndsWithSpace :
    (c : ℕ) (s : CString)
    → EndsWithSpace (c ∷ s)
    → (w : CString) × (d : ℕ) × (rest : CString) × (take_word (c ∷ s) ≡ (w, d ∷ rest))
      × EndsWithSpace (d ∷ rest)
unfolding take_word
take_word-EndsWithSpace c [] h = ([], c, [], rw h refl, h)
take_word-EndsWithSpace c (b ∷ s) h =
    let (w, d, rest, e, k) = take_word-EndsWithSpace b s h in
    elim (Bool-cases (c == 32)) [
      | inl space ↦ ([], c, b ∷ s, rw space refl, h)
      | inr other ↦ (c ∷ w, d, rest, rw (other, e) refl, k)
    ]

-- One more round finds nothing, if the rounds after it do not.
document_loop-space :
    (fuel : ℕ) (s t : CString)
    → skip_spaces s ≡ t
    → EndsWithSpace t
    → ((r : CString) → EndsWithSpace r → document_loop fuel r ≡ none)
    → document_loop (suc fuel) s ≡ none
unfolding take_word
document_loop-space fuel s [] e h before =
    document_loop-again fuel s (ap take_word e) ∙ before [] tt
document_loop-space fuel s (c ∷ t) e h before =
    let (w, d, rest, word, k) = take_word-EndsWithSpace c t h in
    round_ends w d rest (ap take_word e ∙ word) k
  where
    round_ends :
        (w : CString) (d : ℕ) (rest : CString)
        → take_word (skip_spaces s) ≡ (w, d ∷ rest)
        → EndsWithSpace (d ∷ rest)
        → document_loop (suc fuel) s ≡ none
    round_ends [] d rest word k = document_loop-again fuel s word ∙ before (d ∷ rest) k
    round_ends (b ∷ w) d rest word k =
        document_loop-more fuel s word ∙ rw (before rest (EndsWithSpace-tail d rest k)) refl

document_loop-none : (fuel : ℕ) (s : CString) → EndsWithSpace s → document_loop fuel s ≡ none
unfolding document_loop after_word
document_loop-none zero s h = refl
document_loop-none (suc fuel) s h =
    document_loop-space fuel s (skip_spaces s) refl (skip_spaces-EndsWithSpace s h)
      (document_loop-none fuel)

-- A document that ends with a space is read for ever: no number of rounds is enough.
pub document_words-space :
    (fuel : ℕ) (c : ℕ) (s : CString) → EndsWithSpace (c ∷ s) → document_words fuel (c ∷ s) ≡ none
document_words-space fuel c s h =
    document_words-loop fuel (c ∷ s) (omega arith) ∙ document_loop-none fuel (c ∷ s) h
