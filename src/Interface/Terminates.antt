-- ===== src/Interface/Terminates.antt =====
-- The loop of `JobDedup::Run` on any document.
use sigmod_programming_conte.Base.{
  ℕ, zero, suc, ◌≤◌, ◌<◌, ◌≡◌, ◌⊎◌, refl, sym, ap, ◌∙◌, Bool, true, false, none, some, List, [],
  ◌∷◌, ◌++◌, append-nil, append_assoc, length, ◌==◌, if◌then◌else◌, arith, Bool-cases, inl, inr,
}
use sigmod_programming_conte.Core.{CString}
use sigmod_programming_conte.Interface.Reading.{
  skip_spaces, take_word, document_loop, document_words,
}
use sigmod_programming_conte.Interface.Splitting.{
  EndsWithSpace, document_loop-last, document_loop-more, document_words-space,
}

-- A word that is complete.
abbrev pub field : CString → List CString
field [] = []
field (c ∷ w) = (c ∷ w) ∷ []

-- The words of a string, which any number of spaces separates; `w` is the word that is being read.
abbrev pub fields : CString → CString → List CString
fields w [] = field w
fields w (c ∷ s) = if c == 32 then field w ++ fields [] s else fields (w ++ c ∷ []) s

-- Whether a string ends with a space.
abbrev pub ends : CString → Bool
ends [] = false
ends (c ∷ []) = c == 32
ends (c ∷ d ∷ s) = ends (d ∷ s)

-- The word and what comes after it.
abbrev end_field : CString → CString → List CString
end_field w [] = field w
end_field w (d ∷ rest) = field w ++ fields [] rest

ends-tail : (c : ℕ) (s : CString) → ends (c ∷ s) ≡ false → ends s ≡ false
ends-tail c [] h = refl
ends-tail c (d ∷ s) h = h

fields-skip_spaces : (s : CString) → fields [] (skip_spaces s) ≡ fields [] s
unfolding skip_spaces
fields-skip_spaces [] = refl
fields-skip_spaces (c ∷ s) = elim (Bool-cases (c == 32)) [
  | inl e ↦ rw e (fields-skip_spaces s)
  | inr e ↦ rw e (rw e refl)
]

fields-take_word : (w s : CString) → fields w s ≡ end_field (w ++ (take_word s).0) (take_word s).1
unfolding take_word
fields-take_word w [] = ap field (sym (append-nil w))
fields-take_word w (c ∷ s) = elim (Bool-cases (c == 32)) [
  | inl e ↦ rw e (ap (λ v. field v ++ fields [] s) (sym (append-nil w)))
  | inr e ↦ rw e (
      fields-take_word (w ++ c ∷ []) s
      ∙ ap (λ v. end_field v (take_word s).1) (append_assoc w (c ∷ []) (take_word s).0))
]

-- A string that is not done is left at a word.
skip_spaces-word :
    (s : CString)
    → 1 ≤ length s
    → ends s ≡ false
    → (c : ℕ) × (t : CString) × (skip_spaces s ≡ c ∷ t)
      × ((c == 32) ≡ false)
      × (ends (c ∷ t) ≡ false)
      × (length (c ∷ t) ≤ length s)
unfolding skip_spaces
skip_spaces-word [] h e = absurd (omega arith)
skip_spaces-word (c ∷ []) h e = (c, [], rw e refl, e, e, omega arith)
skip_spaces-word (c ∷ d ∷ s) h e = elim (Bool-cases (c == 32)) [
  | inl space ↦
      let (b, t, skipped, word, more, shorter) = skip_spaces-word (d ∷ s) (omega arith) e in
      (b, t, rw space skipped, word, more, omega (arith, shorter))
  | inr other ↦ (c, d ∷ s, rw other refl, other, e, omega arith)
]

-- What a word leaves of it: nothing, or a byte and more.
abbrev Left : CString → CString → Type 0
Left s [] = Unit {0}
Left s (d ∷ rest) = (1 ≤ length rest) × (ends rest ≡ false) × (length rest < length s)

Left-cons : (c : ℕ) (s rest : CString) → Left s rest → Left (c ∷ s) rest
Left-cons c s [] h = tt
Left-cons c s (d ∷ rest) (some_left, more, shorter) = (some_left, more, omega (arith, shorter))

take_word-Left : (s : CString) → ends s ≡ false → Left s (take_word s).1
unfolding take_word
take_word-Left [] e = tt
take_word-Left (c ∷ []) e = rw e tt
take_word-Left (c ∷ d ∷ s) e = elim (Bool-cases (c == 32)) [
  | inl space ↦ rw space (omega arith, e, omega arith)
  | inr other ↦ rw other (Left-cons c (d ∷ s) (take_word (d ∷ s)).1 (take_word-Left (d ∷ s) e))
]

take_word-cons :
    (c : ℕ) (t : CString)
    → (c == 32) ≡ false
    → take_word (c ∷ t) ≡ (c ∷ (take_word t).0, (take_word t).1)
unfolding take_word
take_word-cons c t e = rw e refl

-- A round that stops at the end, or goes on with what is left.
one_round :
    (fuel : ℕ) (s w : CString) (c : ℕ) (rest : CString)
    → take_word (skip_spaces s) ≡ (c ∷ w, rest)
    → ((d : ℕ) (more : CString) → rest ≡ d ∷ more → document_loop fuel more ≡ some (fields [] more))
    → document_loop (suc fuel) s ≡ some (end_field (c ∷ w) rest)
one_round fuel s w c [] word h = document_loop-last fuel s word
one_round fuel s w c (d ∷ rest) word h = document_loop-more fuel s word ∙ rw (h d rest refl) refl

after_word_fits :
    (s t rest more : CString) (d fuel : ℕ)
    → Left t rest
    → rest ≡ d ∷ more
    → length t ≤ length s
    → length s ≤ suc fuel
    → (1 ≤ length more) × (ends more ≡ false) × (length more ≤ fuel)
after_word_fits s t [] more d fuel h e small le = absurd (cc e)
after_word_fits s t (b ∷ rest) more d fuel (some_left, ended, shorter) e small le =
    let same : rest ≡ more = cc e in
    rw (← same) (some_left, ended, omega (arith, shorter, small, le))

document_loop-fields :
    (fuel : ℕ) (s : CString)
    → 1 ≤ length s
    → ends s ≡ false
    → length s ≤ fuel
    → document_loop fuel s ≡ some (fields [] s)
document_loop-fields zero s h e le = absurd (omega arith)
document_loop-fields (suc fuel) s h e le =
    let (c, t, skipped, word, ended, small) = skip_spaces-word s h e in
    let left = take_word-Left (c ∷ t) ended in
    let taken = take_word-cons c t word in
    one_round fuel s (take_word t).0 c (take_word t).1 (ap take_word skipped ∙ taken)
      (λ d more rest.
        let (some_left, more_ended, fits) =
          after_word_fits s (c ∷ t) (take_word (c ∷ t)).1 more d fuel left
            (ap (λ p. p.1) taken ∙ rest) small le in
        document_loop-fields fuel more some_left more_ended fits)
    ∙ ap some (
        ap (λ (p : CString × CString). end_field (p.0) (p.1)) (sym taken)
        ∙ sym (fields-take_word [] (c ∷ t))
        ∙ ap (fields []) (sym skipped)
        ∙ fields-skip_spaces s)

ends-EndsWithSpace : (c : ℕ) (s : CString) → ends (c ∷ s) ≡ true → EndsWithSpace (c ∷ s)
ends-EndsWithSpace c [] e = ground arith
ends-EndsWithSpace c (d ∷ s) e = ends-EndsWithSpace d s e

-- The loop of `JobDedup` ends on a document exactly when the document does not end with a space. It then finds the
-- words, which any number of spaces can separate, and as many rounds as the document has bytes are enough. On a
-- document that ends with a space no number of rounds is enough.
pub document_words-fields :
    (s : CString)
    → ((ends s ≡ false) × (document_words (length s) s ≡ some (fields [] s)))
      ⊎ ((ends s ≡ true) × ((fuel : ℕ) → document_words fuel s ≡ none))
unfolding document_words
document_words-fields [] = inl (refl, refl)
document_words-fields (c ∷ s) = elim (Bool-cases (ends (c ∷ s))) [
  | inl e ↦ inr (e, λ fuel. document_words-space fuel c s (ends-EndsWithSpace c s e))
  | inr e ↦ inl (e, document_loop-fields (length (c ∷ s)) (c ∷ s) (omega arith) e (omega arith))
]
