-- ===== src/Interface/Reading.antt =====
-- The loops of `StartQuery` (top_impl.cpp) and of `JobDedup::Run` that take a string apart. What is left of the string
-- stands for the index `i`.
use sigmod_programming_conte.Base.{
  ℕ, zero, suc, Option, none, some, List, [], ◌∷◌, length, leb, ◌==◌, if◌then◌else◌, ◌>>=◌, ◌>>◌,
  require,
}
use sigmod_programming_conte.Core.{CString, MatchType}
use sigmod_programming_conte.Queries.Query.{Query, new_query, add_token}

-- `while (s[i] != '\0' && s[i] == ' ') i++`.
unfoldable pub skip_spaces : CString → CString
skip_spaces [] = []
skip_spaces (c ∷ s) = let rest = skip_spaces s in if c == 32 then rest else c ∷ s

-- `while (s[i] != '\0' && s[i] != ' ') …`: the bytes that are passed, and what is left.
unfoldable pub take_word : CString → CString × CString
take_word [] = ([], [])
take_word (c ∷ s) = let rest = take_word s in if c == 32 then ([], c ∷ s) else (c ∷ rest.0, rest.1)

-- The loop of `StartQuery`: each word goes through `buff`, which has 32 places, to `AddToken`. A round takes at least one
-- byte, so the length of the string is enough fuel.
unfoldable pub read_query : ℕ → CString → Query → Option Query
read_query fuel [] q = some q
read_query zero (c ∷ s) q = none
read_query (suc fuel) (c ∷ s) q = do
  let word = take_word (skip_spaces (c ∷ s))
  require (leb (length (word.0)) 31)
  q' ← add_token word.0 q
  read_query fuel word.1 q'

-- `StartQuery` up to `AddQuery`.
unfoldable pub query_of : ℕ → CString → MatchType → ℕ → Option Query
query_of query_id query_str match_type match_dist =
    read_query (length query_str) query_str (new_query match_type match_dist query_id)

-- The end of a round: without a word the loop goes on where it stands; at the end of the string it stops, and elsewhere
-- it passes the byte after the word.
unfoldable pub after_word :
    CString → CString → (CString → Option (List CString)) → Option (List CString)
after_word [] rest next = next rest
after_word (c ∷ cs) [] next = some ((c ∷ cs) ∷ [])
after_word (c ∷ cs) (d ∷ rest) next = do more ← next rest; some ((c ∷ cs) ∷ more)

-- The loop of `JobDedup::Run`, for the words it finds. `fuel` is the number of rounds that it is run for; it need not end.
unfoldable pub document_loop : ℕ → CString → Option (List CString)
document_loop zero s = none
document_loop (suc fuel) s =
    let word = take_word (skip_spaces s) in after_word (word.0) (word.1) (document_loop fuel)

-- The words of a document.
unfoldable pub document_words : ℕ → CString → Option (List CString)
document_words fuel [] = some []
document_words fuel (c ∷ s) = document_loop fuel (c ∷ s)
