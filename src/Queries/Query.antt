-- ===== src/Queries/Query.antt =====
-- QueryIndex/Query.{h,cpp}: a query while it is read. A byte is a number below 128.
use sigmod_programming_conte.Base.{
  ℕ, ◌+◌, ◌*◌, ◌%◌, ◌^◌, Bool, true, false, Option, some, List, [], ◌∷◌, length, ltb, leb, ◌==◌,
  if◌then◌else◌, ◌>>◌, require,
}
use sigmod_programming_conte.Core.{CString, MatchType, match_code, max_word_length, max_query_words}

-- `NTokens` is the length of `tokens`.
pub record Query : Type 0 where
  pub tokens : List CString
  pub type_ : MatchType
  pub dist_ : ℕ
  pub qid : ℕ

-- The constructor.
unfoldable pub new_query : MatchType → ℕ → ℕ → Query
new_query t dist q = record { tokens = []; type_ = t; dist_ = dist; qid = q }

-- `strcmp(s, t) < 0`.
unfoldable pub str_lt : CString → CString → Bool
str_lt s [] = false
str_lt [] (b ∷ t) = true
str_lt (a ∷ s) (b ∷ t) =
    let rest = str_lt s t in if ltb a b then true else if a == b then rest else false

-- `strcmp(s, t) == 0`.
unfoldable pub str_eq : CString → CString → Bool
str_eq [] [] = true
str_eq [] (b ∷ t) = false
str_eq (a ∷ s) [] = false
str_eq (a ∷ s) (b ∷ t) = let rest = str_eq s t in if a == b then rest else false

-- The loop of `AddToken`, the return for a token that is there, and the move that makes room.
unfoldable pub insert_token : CString → List CString → List CString
insert_token token [] = token ∷ []
insert_token token (t ∷ ts) =
    let rest = insert_token token ts in
    if str_lt t token then t ∷ rest else if str_eq t token then t ∷ ts else token ∷ t ∷ ts

-- `AddToken`. The array has room for 5 tokens of 31 bytes; writing more is undefined behaviour.
unfoldable pub add_token : CString → Query → Option Query
add_token token q = do
  let ts = insert_token token q.tokens
  require (leb (length ts) max_query_words)
  require (leb (length token) max_word_length)
  some (record q { tokens = ts })

-- The inner loop of `hashvalue`, for the token at place `x`, from its byte `i` on.
unfoldable pub hash_token : ℕ → ℕ → CString → ℕ
hash_token x i [] = 0
hash_token x i (c ∷ s) = (x + 1) * (i + 1) * c + hash_token x (i + 1) s

-- The outer loop: every second token.
unfoldable pub hash_tokens : ℕ → List CString → ℕ
hash_tokens x [] = 0
hash_tokens x (s ∷ []) = hash_token x 0 s
hash_tokens x (s ∷ t ∷ ts) = hash_token x 0 s + hash_tokens (x + 2) ts

-- `hashvalue`.
unfoldable pub hashvalue : Query → ℕ
hashvalue q = (hash_tokens 0 q.tokens + 100000 * (q.dist_ + 3 * match_code q.type_)) % 2 ^ 32
