-- ===== src/Manager/Defs.antt =====
-- The state and the operations of `TokenManager`. The dictionary that it is given by pointer is a
-- field here, since nothing else uses it.
use sigmod_programming_conte.Base.{
  suc, zero, ℕ, ◌+◌, ◌-◌, Option, none, some, List, [], ◌∷◌, set, get_elem?, take, map, ltb, leb,
  if◌then◌else◌, ◌>>=◌, ◌>>◌, require,
}
use sigmod_programming_conte.Core.{
  CString, MatchType, ErrorCode, fresh_token, out_of_range, token_activated, token_removed, TokenId,
  min_word_length, max_word_length,
}
use sigmod_programming_conte.Library.{DenseMap}
use sigmod_programming_conte.Dictionary.{look_up, add_pair}
use sigmod_programming_conte.Token.Defs.{TokenInfo}
use sigmod_programming_conte.Space.Defs.{
  Space, init_space, get_token_info, get_token_string, add_query_token, add_query_token2,
  add_doc_token, add_doc_token2, insert_new_qmid, insert_new_docid, remove_token_qmid_info,
  clear_space_ids, new_batch, restart_space,
}

-- `active_tokens_` and `inactive_tokens_` are statistics that nothing reads and that the
-- constructor leaves unset; they start at 0 here.
pub record Manager (D H : Type 0) : Type 0 where
  pub exact : D
  pub indexes : List (Space H)
  pub removed_tokens : ℕ
  pub active_tokens : ℕ
  pub inactive_tokens : ℕ

module _ {H : Type 0} (dict : DenseMap CString TokenId) where
  open dict use {Map, empty}

  -- The loop of the constructor.
  unfoldable pub init_from : H → ℕ → ℕ → List (Space H)
  init_from none_yet zero i = []
  init_from none_yet (suc n) i = init_space none_yet i ∷ init_from none_yet n (i + 1)

  -- The constructor, over an empty dictionary.
  unfoldable pub new_manager : H → Manager Map H
  new_manager none_yet = record {
    exact = empty;
    indexes = init_from none_yet 28 0;
    removed_tokens = 0;
    active_tokens = 0;
    inactive_tokens = 0;
  }

  -- `indexes_[i]`: an index past the array is undefined behaviour.
  abbrev pub space_at : Manager Map H → ℕ → Option (Space H)
  space_at m i = get_elem? m.indexes i

  abbrev pub put_space : Manager Map H → ℕ → Space H → Manager Map H
  put_space m i s = record m { indexes = set m.indexes i s }

  -- `GetTokenInfo`.
  unfoldable pub manager_token_info : TokenId → Manager Map H → Option TokenInfo
  manager_token_info gid m = do
    s ← space_at m (gid.length_ - min_word_length)
    get_token_info gid.id_ s

  -- `GetTokenString`.
  unfoldable pub manager_token_string : TokenId → Manager Map H → Option CString
  manager_token_string gid m = do
    s ← space_at m (gid.length_ - min_word_length)
    get_token_string gid.id_ s

  -- `if (err == TOKENACTIVATED) ++active_tokens_`.
  unfoldable pub count_active : ErrorCode → Manager Map H → Manager Map H
  count_active token_activated m = record m { active_tokens = m.active_tokens + 1 }
  count_active _ m = m

  -- `AddQueryToken` for a word that the dictionary has.
  unfoldable pub add_known_query :
      ℕ → ℕ → ℕ → ℕ → MatchType → ℕ → ℕ → Manager Map H → Option (Manager Map H × ErrorCode)
  add_known_query id length_ qmid position mt dist batch m = do
    s ← space_at m (length_ - min_word_length)
    t ← get_token_info id s
    r ←
        if t.isqueryt
        then insert_new_qmid id qmid position mt dist s
        else add_query_token2 id qmid position mt dist batch s
    some (count_active r.1 (put_space m (length_ - min_word_length) r.0), r.1)

  -- `AddQueryToken` for a word that is new.
  unfoldable pub add_new_query :
      CString
      → ℕ
      → ℕ
      → ℕ
      → MatchType
      → ℕ
      → ℕ
      → Manager Map H
      → Option (Manager Map H × ErrorCode × TokenId)
  add_new_query string length_ qmid position mt dist batch m = do
    s ← space_at m (length_ - min_word_length)
    let r = add_query_token string qmid position mt dist batch s
    let gid : TokenId = record { length_ = length_; id_ = r.1 }
    name ← get_token_string r.1 r.0
    some (
      record (put_space m (length_ - min_word_length) r.0) {
        exact = (add_pair dict name gid m.exact).0;
        active_tokens = m.active_tokens + 1;
      },
      r.2,
      gid,
    )

  -- `AddQueryToken`: the new state, the code, and the id if it was written. The copy of the word
  -- into `tempstring` comes before the test of its length: a longer word overflows the array.
  unfoldable pub manager_add_query_token :
      CString
      → ℕ
      → ℕ
      → ℕ
      → MatchType
      → ℕ
      → ℕ
      → Manager Map H
      → Option (Manager Map H × ErrorCode × Option TokenId)
  manager_add_query_token string length_ qmid position mt dist batch m = do
    require (leb length_ max_word_length)
    let tempstring = take length_ string
    if ltb length_ min_word_length
        then some (m, out_of_range, none)
        else elim (look_up dict tempstring m.exact).0 [
          | some tid ↦ do
            r ← add_known_query tid.id_ length_ qmid position mt dist batch m
            some (r.0, r.1, some (record { length_ = length_; id_ = tid.id_ }))
          | none ↦ do
            r ← add_new_query tempstring length_ qmid position mt dist batch m
            some (r.0, r.1, some r.2)
        ]

  -- `AddDocToken` for a word that the dictionary has.
  unfoldable pub add_known_doc : ℕ → ℕ → ℕ → ℕ → Manager Map H → Option (Manager Map H × ErrorCode)
  add_known_doc id length_ did batchid m = do
    s ← space_at m (length_ - min_word_length)
    t ← get_token_info id s
    r ←
        if t.isdoct
        then insert_new_docid id did batchid s
        else do q ← add_doc_token2 id did batchid s; some (q.0, fresh_token)
    some (put_space m (length_ - min_word_length) r.0, r.1)

  -- `AddDocToken` for a word that is new.
  unfoldable pub add_new_doc :
      CString → ℕ → ℕ → ℕ → Manager Map H → Option (Manager Map H × ErrorCode × TokenId)
  add_new_doc string length_ did batchid m = do
    s ← space_at m (length_ - min_word_length)
    r ← add_doc_token string did batchid s
    let gid : TokenId = record { length_ = length_; id_ = r.1 }
    name ← get_token_string r.1 r.0
    some (
      record (put_space m (length_ - min_word_length) r.0) {
        exact = (add_pair dict name gid m.exact).0;
      },
      r.2,
      gid,
    )

  -- `AddDocToken`, with the same copy before the test.
  unfoldable pub manager_add_doc_token :
      CString → ℕ → ℕ → ℕ → Manager Map H → Option (Manager Map H × ErrorCode × Option TokenId)
  manager_add_doc_token string length_ did batchid m = do
    require (leb length_ max_word_length)
    let tempstring = take length_ string
    if ltb length_ min_word_length
        then some (m, out_of_range, none)
        else elim (look_up dict tempstring m.exact).0 [
          | some tid ↦ do
            r ← add_known_doc tid.id_ length_ did batchid m
            some (r.0, r.1, some (record { length_ = length_; id_ = tid.id_ }))
          | none ↦ do r ← add_new_doc tempstring length_ did batchid m; some (r.0, r.1, some r.2)
        ]

  -- `if (err == TOKENREMOVED) ++inactive_tokens_`.
  unfoldable pub count_inactive : ErrorCode → Manager Map H → Manager Map H
  count_inactive token_removed m = record m { inactive_tokens = m.inactive_tokens + 1 }
  count_inactive _ m = m

  -- `RemoveTokenQmidInfo`.
  unfoldable pub manager_remove_qmid :
      TokenId → ℕ → MatchType → ℕ → Manager Map H → Option (Manager Map H × ErrorCode)
  manager_remove_qmid gid qmid mt dist m = do
    s ← space_at m (gid.length_ - min_word_length)
    r ← remove_token_qmid_info gid.id_ qmid mt dist s
    some (count_inactive r.1 (put_space m (gid.length_ - min_word_length) r.0), r.1)

  -- `NewBatch`.
  unfoldable pub manager_new_batch : Manager Map H → Manager Map H
  manager_new_batch m = record m { indexes = map new_batch m.indexes }

  -- `Restart`.
  unfoldable pub manager_restart : H → Manager Map H → Manager Map H
  manager_restart cleared m = record m { indexes = map (restart_space cleared) m.indexes }

  -- The loop of `ClearDocIds`.
  unfoldable pub clear_spaces : List (Space H) → Option (List (Space H))
  clear_spaces [] = some []
  clear_spaces (s ∷ ss) = do r ← clear_space_ids s; rest ← clear_spaces ss; some (r.0 ∷ rest)

  -- `ClearDocIds`.
  unfoldable pub clear_doc_ids : Manager Map H → Option (Manager Map H)
  clear_doc_ids m = do ss ← clear_spaces m.indexes; some (record m { indexes = ss })
