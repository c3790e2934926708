-- ===== src/Queries/Words.antt =====
-- `AddToken` of `Query` keeps the words of a query ascending and without duplicates.
use sigmod_programming_conte.Base.{
  leb, ◌+◌, ◌≤◌, ◌<◌, ◌≡◌, refl, Bool, true, false, ◌||◌, some, List, [], ◌∷◌, length, All, arith,
  Bool-cases, inl, inr,
}
use sigmod_programming_conte.Core.{CString}
use sigmod_programming_conte.Queries.Query.{Query, str_lt, str_eq, insert_token, add_token}

str_lt_trans : (s t u : CString) → str_lt s t ≡ true → str_lt t u ≡ true → str_lt s u ≡ true
unfolding str_lt
str_lt_trans s [] u h k = absurd (ground arith)
str_lt_trans s (b ∷ t) [] h k = absurd (ground arith)
str_lt_trans [] (b ∷ t) (c ∷ u) h k = refl
str_lt_trans (a ∷ s) (b ∷ t) (c ∷ u) h k = ground (arith, str_lt_trans s t u)

-- Of two different words, one is less.
str_lt_total : (s t : CString) → str_lt s t ≡ false → str_eq s t ≡ false → str_lt t s ≡ true
unfolding str_lt str_eq
str_lt_total [] [] h k = absurd (ground arith)
str_lt_total [] (b ∷ t) h k = absurd (ground arith)
str_lt_total (a ∷ s) [] h k = refl
str_lt_total (a ∷ s) (b ∷ t) h k = ground (arith, str_lt_total s t)

abbrev pub Before : CString → CString → Type 0
Before s t = str_lt s t ≡ true

abbrev pub IsAscending : List CString → Type 0
IsAscending [] = Unit {0}
IsAscending (s ∷ ss) = All (Before s) ss × IsAscending ss

-- Whether a word is in a list.
abbrev pub has_word : CString → List CString → Bool
has_word w [] = false
has_word w (s ∷ ss) = str_eq s w || has_word w ss

All-Before :
    (s t : CString) (ss : List CString) → Before s t → All (Before t) ss → All (Before s) ss
All-Before s t [] lt h = tt
All-Before s t (u ∷ ss) lt h = (str_lt_trans s t u lt h.0, All-Before s t ss lt h.1)

insert_token-All :
    (s token : CString) (ts : List CString)
    → Before s token
    → All (Before s) ts
    → All (Before s) (insert_token token ts)
unfolding insert_token
insert_token-All s token [] lt h = (lt, tt)
insert_token-All s token (t ∷ ts) lt h = elim (Bool-cases (str_lt t token)) [
  | inl e ↦ rw e (h.0, insert_token-All s token ts lt h.1)
  | inr e ↦ elim (Bool-cases (str_eq t token)) [
    | inl same ↦ rw (e, same) h
    | inr ne ↦ rw (e, ne) (lt, h)
  ]
]

insert_token-IsAscending :
    (token : CString) (ts : List CString) → IsAscending ts → IsAscending (insert_token token ts)
unfolding insert_token
insert_token-IsAscending token [] h = (tt, tt)
insert_token-IsAscending token (t ∷ ts) h = elim (Bool-cases (str_lt t token)) [
  | inl e ↦ rw e (insert_token-All t token ts e h.0, insert_token-IsAscending token ts h.1)
  | inr e ↦ elim (Bool-cases (str_eq t token)) [
    | inl same ↦ rw (e, same) h
    | inr ne ↦
        let lt : Before token t = str_lt_total t token e ne in
        rw (e, ne) ((lt, All-Before token t ts lt h.0), h)
  ]
]

str_eq_refl : (s : CString) → str_eq s s ≡ true
unfolding str_eq
str_eq_refl [] = refl
str_eq_refl (a ∷ s) = ground (arith, str_eq_refl s)

str_eq-left : (s t w : CString) → str_eq s t ≡ true → str_eq s w ≡ str_eq t w
unfolding str_eq
str_eq-left [] [] w h = refl
str_eq-left [] (b ∷ t) w h = absurd (ground arith)
str_eq-left (a ∷ s) [] w h = absurd (ground arith)
str_eq-left (a ∷ s) (b ∷ t) [] h = refl
str_eq-left (a ∷ s) (b ∷ t) (c ∷ w) h = ground (arith, str_eq-left s t w)

has_word-insert_token :
    (w token : CString) (ts : List CString)
    → has_word w (insert_token token ts) ≡ (str_eq token w || has_word w ts)
unfolding insert_token
has_word-insert_token w token [] = refl
has_word-insert_token w token (t ∷ ts) =
    ground (arith, has_word-insert_token w token ts, str_eq-left t token w)

length-insert_token :
    (token : CString) (ts : List CString) → length (insert_token token ts) ≤ length ts + 1
unfolding insert_token
length-insert_token token [] = omega arith
length-insert_token token (t ∷ ts) = ground (arith, length-insert_token token ts)

-- `AddToken` of a word of at most 31 bytes to a query with ascending words, less than five of them, returns; the words are
-- ascending again, so none is there twice, and they are the old ones and the new one.
pub add_token-IsAscending :
    (token : CString) (q : Query)
    → IsAscending q.tokens
    → length q.tokens < 5
    → length token ≤ 31
    → (q' : Query) × (add_token token q ≡ some q')
      × IsAscending q'.tokens
      × ((w : CString) → has_word w q'.tokens ≡ (str_eq token w || has_word w q.tokens))
unfolding add_token
add_token-IsAscending token q h few short =
    let room : leb (length (insert_token token q.tokens)) 5 ≡ true =
      ground (arith, length-insert_token token q.tokens) in
    let fits : leb (length token) 31 ≡ true = ground arith in
    (
      record q { tokens = insert_token token q.tokens },
      rw (room, fits) refl,
      insert_token-IsAscending token q.tokens h,
      λ w. has_word-insert_token w token q.tokens,
    )
