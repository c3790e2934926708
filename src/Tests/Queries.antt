-- ===== src/Tests/Queries.antt =====
-- The theorems on queries at concrete inputs.
use sigmod_programming_conte.Base.{
  ℕ, ◌+◌, ◌*◌, ◌^◌, ◌≤◌, ◌<◌, ◌≡◌, ◌≢◌, refl, ◌&&◌, some, List, [], ◌∷◌, arith, ltb, ◌==◌, to_nat,
  count, replicate,
}
use sigmod_programming_conte.Core.{CString, exact_match, edit_dist, match_code, TokenId}
use sigmod_programming_conte.Library.Assoc.{words, table}
use sigmod_programming_conte.Token.Defs.{new_token}
use sigmod_programming_conte.Space.Defs.{Space, init_space, get_token_string}
use sigmod_programming_conte.Manager.Defs.{Manager, new_manager, manager_token_string}
use sigmod_programming_conte.Queries.Vault.{Vault, add_qid, remove_qid}
use sigmod_programming_conte.Queries.Order.{
  IsSorted, sorted_insert, add_qid_lem, remove_qid-IsSorted, remove_qid-add_qid,
}
use sigmod_programming_conte.Queries.Query.{Query, hashvalue, hash_tokens, hash_token, str_eq}
use sigmod_programming_conte.Queries.Index.{
  QueryInfo, QueryIndex, info_at, hash_lookup, first_match, entry_matches, equal_range, same_tokens,
  same_type,
}
use sigmod_programming_conte.Queries.Index.Match.{IsSame, hash_lookup-IsSame, hash_lookup-long}

abbrev three : Vault
three = 2 ∷ 5 ∷ 9 ∷ []

three-IsSorted : IsSorted three
three-IsSorted = omega arith

add_qid_lem_example : add_qid 5 three ≡ sorted_insert 5 three
add_qid_lem_example = add_qid_lem 5 three three-IsSorted

remove_qid-IsSorted_example :
    IsSorted (remove_qid 5 three)
    × ((a : ℕ)
        → count a three ≡ to_nat (a == 5 && ltb 0 (count 5 three)) + count a (remove_qid 5 three))
remove_qid-IsSorted_example = remove_qid-IsSorted 5 three three-IsSorted

remove_qid-add_qid_example : remove_qid 5 (add_qid 5 three) ≡ three
remove_qid-add_qid_example = remove_qid-add_qid 5 three three-IsSorted

abbrev rain : CString
rain = 114 ∷ 97 ∷ 105 ∷ 110 ∷ []

abbrev rain_id : TokenId
rain_id = record { length_ = 4; id_ = 0 }

-- The words of length 4: "rain" alone.
abbrev space : Space ℕ
space = record (init_space 0 0) { tokens = new_token rain ∷ [] }

abbrev manager : Manager (List (CString × TokenId)) ℕ
manager = record (new_manager (words TokenId) 0) {
  exact = (rain, rain_id) ∷ [];
  indexes = space ∷ replicate 27 (init_space 0 1);
}

-- The query for "rain", exactly, which an index with one entry has.
abbrev rain_query : Query
rain_query = record { tokens = rain ∷ []; type_ = exact_match; dist_ = 0; qid = 4 }

abbrev rain_info : QueryInfo
rain_info = record { qids = 3 ∷ []; tids = rain_id ∷ []; type_ = exact_match; dist_ = 0 }

abbrev one_query : QueryIndex (List (ℕ × ℕ))
one_query = record {
  vault = rain_info ∷ [];
  emptycells = [];
  qidindex = (3, 1) ∷ [];
  qmidindex = (1063, 1) ∷ [];
}

found_rain : hash_lookup (words TokenId) (table ℕ) rain_query one_query manager ≡ some 1
unfolding hash_lookup first_match entry_matches equal_range same_tokens info_at same_type match_code
    hashvalue hash_tokens hash_token new_manager manager_token_string get_token_string init_space
    new_token str_eq
found_rain = refl

hash_lookup-IsSame_example :
    (info : QueryInfo) × (info_at 1 one_query.vault ≡ some info)
    × IsSame (words TokenId) rain_query info manager
hash_lookup-IsSame_example =
    hash_lookup-IsSame (words TokenId) (table ℕ) rain_query one_query manager 1 found_rain
      (λ e. absurd (omega arith))

-- Five words of 31 bytes 'z'.
abbrev long_query : Query
long_query = record {
  tokens = replicate 5 (replicate 31 122);
  type_ = edit_dist;
  dist_ = 3;
  qid = 8;
}

big : 100000 ≤ hash_tokens 0 long_query.tokens
unfolding hash_tokens hash_token
big = omega arith

small :
    hash_tokens 0 long_query.tokens + 100000 * (long_query.dist_ + 3 * match_code long_query.type_)
    < 2 ^ 32
unfolding hash_tokens hash_token match_code
small = omega arith

hash_lookup-long_example :
    hash_lookup (words TokenId) (table ℕ) long_query one_query manager ≢ some 1
hash_lookup-long_example =
    hash_lookup-long (words TokenId) (table ℕ) long_query one_query manager 0 big small
