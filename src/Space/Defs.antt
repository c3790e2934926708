-- ===== src/Space/Defs.antt =====
-- The state and the operations of `SpaceBySize`. `H` is the type of its hash tables. A token is
-- owned by the vector `tokens_`; an `ActiveToken` is the index of its token there.
use sigmod_programming_conte.Base.{
  ℕ, ◌+◌, Bool, true, false, Option, some, List, [], ◌∷◌, ◌++◌, length, set, get_elem?, replicate,
  ltb, if◌then◌else◌, ◌>>=◌, ◌==◌,
}
use sigmod_programming_conte.Core.{CString, MatchType, ErrorCode, fresh_token, ok, token_up}
use sigmod_programming_conte.Token.Defs.{
  TokenInfo, new_token, new_query_token, insert_qmid, remove_qmid, new_doc_token, insert_did,
  clear_ids,
}

pub record Space (H : Type 0) : Type 0 where
  pub lastbatch_inserted : ℕ
  pub tokenstringsize : ℕ
  pub tokens : List TokenInfo
  pub qhash : List H
  pub dhash : List H
  pub qbrandnew3 : List ℕ
  pub qbrandnew2 : List ℕ
  pub qbrandnew1 : List ℕ
  pub qbrandnew0 : List ℕ
  pub qbrandnew : List ℕ
  pub dbrandnew : List ℕ
  pub max_tokens : ℕ
  pub batch : Bool

-- The list that the nested tests on `requests` choose for a new token: 3, 2, 1 or 0.
unfoldable pub queue_of : ℕ → ℕ
queue_of requests =
    if ltb 15 requests
    then (if ltb 63 requests then 3 else if ltb 31 requests then 2 else 1)
    else if ltb 7 requests
    then 3
    else if ltb 3 requests
    then 2
    else if ltb 1 requests
    then 1
    else 0

-- The loop of `ClearIds`.
unfoldable pub clear_all : List TokenInfo → Option (List TokenInfo)
clear_all [] = some []
clear_all (t ∷ ts) = do u ← clear_ids t; us ← clear_all ts; some (u ∷ us)

module _ {H : Type 0} where
  -- `Init`, with empty tables.
  unfoldable pub init_space : H → ℕ → Space H
  init_space none_yet size = record {
    lastbatch_inserted = 0;
    tokenstringsize = size;
    tokens = [];
    qhash = replicate 4 none_yet;
    dhash = replicate 4 none_yet;
    qbrandnew3 = [];
    qbrandnew2 = [];
    qbrandnew1 = [];
    qbrandnew0 = [];
    qbrandnew = [];
    dbrandnew = [];
    max_tokens = 0;
    batch = true;
  }

  -- `GetTokenInfo`: an index past the vector is undefined behaviour.
  abbrev pub get_token_info : ℕ → Space H → Option TokenInfo
  get_token_info id s = get_elem? s.tokens id

  -- `GetTokenString`.
  unfoldable pub get_token_string : ℕ → Space H → Option CString
  get_token_string id s = do t ← get_token_info id s; some t.tokenstring

  -- `qbrandnew3.push_back` for list 3, and so on.
  unfoldable pub push_queue : ℕ → ℕ → Space H → Space H
  push_queue q id s =
      if q == 3
      then record s { qbrandnew3 = s.qbrandnew3 ++ id ∷ [] }
      else if q == 2
      then record s { qbrandnew2 = s.qbrandnew2 ++ id ∷ [] }
      else if q == 1
      then record s { qbrandnew1 = s.qbrandnew1 ++ id ∷ [] }
      else record s { qbrandnew0 = s.qbrandnew0 ++ id ∷ [] }

  -- The part that `AddQueryToken`, `AddQueryToken2` and `Restart` share.
  unfoldable pub enqueue : ℕ → ℕ → Space H → Space H
  enqueue id requests s =
      push_queue (queue_of requests) id (record s { qbrandnew = s.qbrandnew ++ id ∷ [] })

  -- `if (batch) { lastbatch_inserterdid_ = id; batch = false; }`
  unfoldable pub mark_first : ℕ → Space H → Space H
  mark_first id s = if s.batch then record s { lastbatch_inserted = id; batch = false } else s

  -- `AddQueryToken`: the new space and the id of the token. The code is `FRESHTOKEN`.
  unfoldable pub add_query_token :
      CString → ℕ → ℕ → MatchType → ℕ → ℕ → Space H → Space H × ℕ × ErrorCode
  add_query_token string qmid position mt dist batch s =
      let token = new_query_token qmid position mt dist batch (new_token string) in
      let id = length s.tokens in
      (
        enqueue id token.requests (
            mark_first id
              (record s { tokens = s.tokens ++ token ∷ []; max_tokens = s.max_tokens + 1 })),
        id,
        fresh_token,
      )

  -- `AddQueryToken2`: a token that only documents used becomes a query token too.
  unfoldable pub add_query_token2 :
      ℕ → ℕ → ℕ → MatchType → ℕ → ℕ → Space H → Option (Space H × ErrorCode)
  add_query_token2 id qmid position mt dist batch s = do
    t ← get_token_info id s
    let token = new_query_token qmid position mt dist batch t
    some (
      enqueue id token.requests
          (record s { tokens = set s.tokens id token; max_tokens = s.max_tokens + 1 }),
      fresh_token,
    )

  -- `AddDocToken`.
  unfoldable pub add_doc_token : CString → ℕ → ℕ → Space H → Option (Space H × ℕ × ErrorCode)
  add_doc_token string did batchid s = do
    token ← new_doc_token did batchid (new_token string)
    let id = length s.tokens
    some (
      mark_first id
          (record s { tokens = s.tokens ++ token ∷ []; dbrandnew = s.dbrandnew ++ id ∷ [] }),
      id,
      fresh_token,
    )

  -- `AddDocToken2`: a token that only queries used becomes a document token too.
  unfoldable pub add_doc_token2 : ℕ → ℕ → ℕ → Space H → Option (Space H × ErrorCode)
  add_doc_token2 id did batchid s = do
    t ← get_token_info id s
    token ← new_doc_token did batchid t
    some (record s { tokens = set s.tokens id token; dbrandnew = s.dbrandnew ++ id ∷ [] }, ok)

  -- The tests on `highest_request` in `InsertNewQmid`.
  unfoldable pub queue_up : ErrorCode → ℕ → ℕ → Space H → Space H
  queue_up token_up highest id s =
      if highest == 3
      then record s { qbrandnew3 = s.qbrandnew3 ++ id ∷ [] }
      else if highest == 2
      then record s { qbrandnew2 = s.qbrandnew2 ++ id ∷ [] }
      else record s { qbrandnew1 = s.qbrandnew1 ++ id ∷ [] }
  queue_up _ highest id s = s

  -- `InsertNewQmid`.
  unfoldable pub insert_new_qmid :
      ℕ → ℕ → ℕ → MatchType → ℕ → Space H → Option (Space H × ErrorCode)
  insert_new_qmid id qmid position mt dist s = do
    t ← get_token_info id s
    let r = insert_qmid qmid position mt dist t
    some (queue_up r.1 r.0.highest_request id (record s { tokens = set s.tokens id r.0 }), r.1)

  -- `if (memory_refreshed) { dbrandnew.push_back(…); memory_refreshed = false; }`
  unfoldable pub requeue_doc : ℕ → TokenInfo → Space H → Space H × TokenInfo
  requeue_doc id t s =
      if t.memory_refreshed
      then (record s { dbrandnew = s.dbrandnew ++ id ∷ [] }, record t { memory_refreshed = false })
      else (s, t)

  -- `InsertNewDocid`.
  unfoldable pub insert_new_docid : ℕ → ℕ → ℕ → Space H → Option (Space H × ErrorCode)
  insert_new_docid id did batchid s = do
    t ← get_token_info id s
    let q = requeue_doc id t s
    r ← insert_did did batchid q.1
    some (record (q.0) { tokens = set s.tokens id r.0 }, r.1)

  -- `RemoveTokenQmidInfo`.
  unfoldable pub remove_token_qmid_info :
      ℕ → ℕ → MatchType → ℕ → Space H → Option (Space H × ErrorCode)
  remove_token_qmid_info id qmid mt dist s = do
    t ← get_token_info id s
    r ← remove_qmid qmid mt dist t
    some (record s { tokens = set s.tokens id r.0 }, r.1)

  -- `ClearIds`.
  unfoldable pub clear_space_ids : Space H → Option (Space H × ErrorCode)
  clear_space_ids s = do ts ← clear_all s.tokens; some (record s { tokens = ts }, ok)

  -- `NewBatch`.
  unfoldable pub new_batch : Space H → Space H
  new_batch s = record s {
    qbrandnew3 = [];
    qbrandnew2 = [];
    qbrandnew1 = [];
    qbrandnew0 = [];
    qbrandnew = [];
    dbrandnew = [];
    max_tokens = 0;
    batch = true;
    lastbatch_inserted = length s.tokens;
  }

  -- One round of the inner loop of `Restart`, for the token `j`: it is queued again if a query
  -- asks for it, and it is marked if a document used it.
  unfoldable pub restart_token : ℕ → TokenInfo → Space H → Space H
  restart_token j t s =
      let queued = if t.requests == 0 then s else enqueue j t.requests s in
      if t.isdoct
      then record queued { tokens = set queued.tokens j (record t { memory_refreshed = true }) }
      else queued

  -- The inner loop of `Restart`: `ts` are the tokens from `j` on.
  unfoldable pub restart_from : ℕ → List TokenInfo → Space H → Space H
  restart_from j [] s = s
  restart_from j (t ∷ ts) s = restart_from (j + 1) ts (restart_token j t s)

  -- `Restart` for one space: the inner loop, and the four document tables cleared.
  unfoldable pub restart_space : H → Space H → Space H
  restart_space cleared s = record (restart_from 0 s.tokens s) { dhash = replicate 4 cleared }
