-- ===== src/Core.antt =====
-- Includes/core.h and the enumerations of TokenIndex/TokenStructs_Vector.h and
-- TokenIndex/defn.h: the types that all parts share.
use sigmod_programming_conte.Base.{ℕ, List, ℕ_discrete, ◌*◌, ◌+◌}

abbrev pub min_word_length : ℕ
min_word_length = 4

abbrev pub max_word_length : ℕ
max_word_length = 31

abbrev pub max_query_words : ℕ
max_query_words = 5

-- How a query word is compared with a document word.
pub data MatchType : Type 0 where
  exact_match hamming_dist edit_dist mt_none : MatchType

-- The value of the enumerator.
unfoldable pub match_code : MatchType → ℕ
match_code exact_match = 0
match_code hamming_dist = 1
match_code edit_dist = 2
match_code mt_none = 3

-- The codes that the operations return; the enumeration has others that nothing uses.
pub data ErrorCode : Type 0 where
  ec_success ec_no_avail_res ec_fail : ErrorCode
  out_of_range error not_found fresh_token token_exists_in_batch token_removed : ErrorCode
  token_activated token_up ok : ErrorCode

-- A C string: its bytes, without the terminator.
abbrev pub CString : Type 0
CString = List ℕ

-- The identity of a word: its length, and its place among the words of that length.
pub record TokenId : Type 0 where
  pub length_ : ℕ
  pub id_ : ℕ

-- `TokenId::key`.
unfoldable pub key : TokenId → ℕ
key t = t.id_ * 100 + t.length_

-- `strcmp(s, t) == 0`.
unfoldable pub CString-discrete : Discrete CString
unfolding ℕ_discrete
CString-discrete = hlevel ℕ_discrete
