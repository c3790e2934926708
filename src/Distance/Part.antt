-- ===== src/Distance/Part.antt =====
-- Words that are another word with bytes left out, and their suffixes.
use sigmod_programming_conte.Base.{
  ℕ, zero, suc, ◌+◌, ◌-◌, ◌<◌, ◌≡◌, refl, sym, ap, ◌∙◌, Bool, true, false, ◌&&◌, ◌||◌, [], ◌∷◌,
  length, get_or, drop, ◌==◌, arith,
}
use sigmod_programming_conte.Core.{CString}

-- `s` is `t` with bytes left out.
abbrev pub is_part : CString → CString → Bool
is_part [] t = true
is_part (a ∷ s) [] = false
is_part (a ∷ s) (b ∷ t) = (a == b && is_part s t) || is_part (a ∷ s) t

pub is_part-longer : (s t : CString) → length t < length s → is_part s t ≡ false
is_part-longer [] t lt = absurd (omega arith)
is_part-longer (a ∷ s) [] lt = refl
is_part-longer (a ∷ s) (b ∷ t) lt =
    ground (arith, is_part-longer s t (omega arith), is_part-longer (a ∷ s) t (omega arith))

-- Leaving the first byte out of `s`.
is_part-tail : (a : ℕ) (s t : CString) → is_part (a ∷ s) t ≡ true → is_part s t ≡ true
is_part-tail a [] t h = refl
is_part-tail a (c ∷ s) [] h = ground arith
is_part-tail a (c ∷ s) (b ∷ t) h = ground (arith, is_part-tail a (c ∷ s) t)

drop-split : (s : CString) (i : ℕ) → i < length s → drop i s ≡ get_or s i 0 ∷ drop (i + 1) s
drop-split [] i lt = elim lt [ ]
drop-split (a ∷ s) zero lt = refl
drop-split (a ∷ s) (suc i) lt =
    let same : suc i + 1 ≡ suc (i + 1) = omega arith in
    drop-split s i (omega arith) ∙ ap (λ k. get_or s i 0 ∷ drop k (a ∷ s)) (sym same)

pub length-drop : (s : CString) (i : ℕ) → length (drop i s) ≡ length s - i
length-drop s zero = omega arith
length-drop [] (suc i) = omega arith
length-drop (a ∷ s) (suc i) = omega (arith, length-drop s i)

pub drop-end : (s : CString) → drop (length s) s ≡ []
drop-end [] = refl
drop-end (a ∷ s) = drop-end s

-- One place of each word.
pub step :
    (s t : CString) (i j : ℕ)
    → i < length s
    → j < length t
    → is_part (drop i s) (drop j t) ≡ (
        (get_or s i 0 == get_or t j 0 && is_part (drop (i + 1) s) (drop (j + 1) t))
        || is_part (drop i s) (drop (j + 1) t))
step s t i j hi hj = rw (drop-split s i hi, drop-split t j hj) refl

pub step_back :
    (s t : CString) (i : ℕ)
    → i < length s
    → is_part (drop i s) t ≡ true
    → is_part (drop (i + 1) s) t ≡ true
step_back s t i hi h = is_part-tail (get_or s i 0) (drop (i + 1) s) t (rw (drop-split s i hi) at h)
