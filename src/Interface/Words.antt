-- ===== src/Interface/Words.antt =====
-- The loop of `StartQuery` gives each word of the query to `AddToken`, in order.
use sigmod_programming_conte.Base.{
  ℕ, zero, suc, ◌≤◌, ◌<◌, ◌≡◌, refl, ap, ◌∙◌, true, Option, none, some, List, [], ◌∷◌, ◌++◌, length,
  length-append, leb, ◌>>=◌, arith, All,
}
use sigmod_programming_conte.Core.{CString, MatchType}
use sigmod_programming_conte.Queries.Query.{Query, new_query, add_token}
use sigmod_programming_conte.Interface.Reading.{skip_spaces, take_word, read_query, query_of}
use sigmod_programming_conte.Interface.Splitting.{
  IsWord, join, take_word-append, take_word-whole, skip_spaces-word,
}

-- A word that the 32 places of `buff` take.
abbrev pub IsQueryWord : CString → Type 0
IsQueryWord w = IsWord w × (length w ≤ 31)

-- `AddToken` for one word after the other.
abbrev pub add_all : List CString → Query → Option Query
add_all [] q = some q
add_all (w ∷ ws) q = do q' ← add_token w q; add_all ws q'

bind-same :
    {A B : Type 0} (o : Option A) {f g : A → Option B}
    → ((x : A) → f x ≡ g x)
    → (o >>= f) ≡ (o >>= g)
bind-same none e = refl
bind-same (some x) e = e x

read_query-round :
    (fuel c : ℕ) (s w rest : CString) (q : Query)
    → take_word (skip_spaces (c ∷ s)) ≡ (w, rest)
    → leb (length w) 31 ≡ true
    → read_query (suc fuel) (c ∷ s) q ≡ (add_token w q >>= read_query fuel rest)
unfolding read_query
read_query-round fuel c s w rest q e h = rw (e, h) refl

skip_spaces-join :
    (w : CString) (ws : List CString) → IsWord w → skip_spaces (join w ws) ≡ join w ws
skip_spaces-join [] ws h = absurd (omega (arith, h.0))
skip_spaces-join (c ∷ w) [] h = skip_spaces-word c w h.1.0
skip_spaces-join (c ∷ w) (v ∷ ws) h = skip_spaces-word c (w ++ 32 ∷ join v ws) h.1.0

-- The loop from a place where the next word follows, maybe after spaces.
read_query-words :
    (w : CString) (ws : List CString) (fuel c : ℕ) (s : CString) (q : Query)
    → skip_spaces (c ∷ s) ≡ join w ws
    → IsQueryWord w
    → All IsQueryWord ws
    → length ws < fuel
    → read_query fuel (c ∷ s) q ≡ add_all (w ∷ ws) q
unfolding read_query skip_spaces
read_query-words w ws zero c s q e h hs lt = absurd (omega arith)
read_query-words w [] (suc fuel) c s q e h hs lt =
    read_query-round fuel c s w [] q (ap take_word e ∙ take_word-whole w h.0.1)
      (ground (arith, h.1))
read_query-words w (v ∷ ws) (suc fuel) c s q e h hs lt =
    read_query-round fuel c s w (32 ∷ join v ws) q
      (ap take_word e ∙ take_word-append w (join v ws) h.0.1) (ground (arith, h.1))
    ∙ bind-same (add_token w q) (λ q'.
      read_query-words v ws fuel 32 (join v ws) q' (skip_spaces-join v ws hs.0.0) hs.0 hs.1
        (omega arith))

length-join :
    (w : CString) (ws : List CString)
    → IsQueryWord w
    → All IsQueryWord ws
    → length ws < length (join w ws)
length-join w [] h hs = omega (arith, h.0.0)
length-join w (v ∷ ws) h hs =
    omega (arith, length-append w (32 ∷ join v ws), length-join v ws hs.0 hs.1)

-- `StartQuery`, for a query of words of at most 31 bytes with one space between them, calls `AddToken` for
-- each word in order, and its loop ends.
pub query_of-join :
    (query_id : ℕ) (w : CString) (ws : List CString) (match_type : MatchType) (match_dist : ℕ)
    → IsQueryWord w
    → All IsQueryWord ws
    → query_of query_id (join w ws) match_type match_dist
      ≡ add_all (w ∷ ws) (new_query match_type match_dist query_id)
unfolding query_of
query_of-join query_id [] ws match_type match_dist h hs = absurd (omega (arith, h.0.0))
query_of-join query_id (c ∷ w) [] match_type match_dist h hs =
    read_query-words (c ∷ w) [] (length (c ∷ w)) c w (new_query match_type match_dist query_id)
      (skip_spaces-join (c ∷ w) [] h.0) h hs (omega arith)
query_of-join query_id (c ∷ w) (v ∷ ws) match_type match_dist h hs =
    let words = v ∷ ws in
    read_query-words (c ∷ w) words (length (join (c ∷ w) words)) c (w ++ 32 ∷ join v ws)
      (new_query match_type match_dist query_id) (skip_spaces-join (c ∷ w) words h.0) h hs
      (length-join (c ∷ w) words h hs)
