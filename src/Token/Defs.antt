-- ===== src/Token/Defs.antt =====
-- The state and the operations of `TokenInfo`.
use sigmod_programming_conte.Base.{
  ℕ, ◌+◌, ◌-◌, ◌^◌, Bool, true, false, ◌&&◌, not, Option, none, some, List, [], ◌∷◌, ◌++◌, bit_and,
  bit_or, ltb, ◌==◌, if◌then◌else◌, set, get_elem?, replicate, ◌>>=◌,
}
use sigmod_programming_conte.Core.{
  CString, MatchType, exact_match, hamming_dist, edit_dist, mt_none, ErrorCode, error, ok, token_up,
  not_found, token_exists_in_batch,
}

pub record TokenQmidInfo : Type 0 where
  pub qmid_ : ℕ
  pub position_ : ℕ

-- A null pointer is `none`. The constructor leaves `lastbatch`, `old_high` and `highest_request`
-- unset: they get a value here that nothing reads before `new_doc_token` or `new_query_token`
-- has set them. `lastbatch` is -1 as `none`.
pub record TokenInfo : Type 0 where
  pub tokenstring : CString
  pub docpointer : Option (List ℕ)
  pub requests : ℕ
  pub querypointer : List (Option (List TokenQmidInfo))
  pub memory_refreshed : Bool
  pub isqueryt : Bool
  pub isdoct : Bool
  pub batch_inserted : ℕ
  pub lastbatch : Option ℕ
  pub old_high : ℕ
  pub highest_request : ℕ

-- The constructor, for a string of the given length.
unfoldable pub new_token : CString → TokenInfo
new_token s = record {
  tokenstring = s;
  docpointer = none;
  requests = 0;
  querypointer = replicate 7 none;
  memory_refreshed = false;
  isqueryt = false;
  isdoct = false;
  batch_inserted = 0;
  lastbatch = none;
  old_high = 0;
  highest_request = 0;
}

-- `(r & mask) != 0`.
abbrev pub meets : ℕ → ℕ → Bool
meets r mask = not (bit_and r mask == 0)

-- The last statements of `InsertQmid`: the highest distance that was ever asked for.
unfoldable pub raise_highest : TokenInfo → TokenInfo × ErrorCode
raise_highest t =
    if meets t.requests 0b01001000 && ltb t.highest_request 3
    then (record t { old_high = t.highest_request; highest_request = 3 }, token_up)
    else if meets t.requests 0b00100100 && ltb t.highest_request 2
    then (record t { old_high = t.highest_request; highest_request = 2 }, token_up)
    else if meets t.requests 0b00010010 && ltb t.highest_request 1
    then (record t { old_high = t.highest_request; highest_request = 1 }, token_up)
    else (record t { old_high = t.highest_request }, ok)

-- `querypointer_[i]`, made if it is null, and pushed to.
abbrev pub push_info : Option (List TokenQmidInfo) → TokenQmidInfo → Option (List TokenQmidInfo)
push_info none info = some (info ∷ [])
push_info (some l) info = some (l ++ info ∷ [])

-- One case of the switch in `InsertQmid`, for the list at index `i`.
unfoldable pub insert_bucket : ℕ → TokenQmidInfo → TokenInfo → TokenInfo
insert_bucket i info t = record t {
  requests = bit_or t.requests (2 ^ i);
  querypointer = elim (get_elem? t.querypointer i) [
    | none ↦ t.querypointer
    | some p ↦ set t.querypointer i (push_info p info)
  ];
}

-- The tests on `dist`: lists `i + 1`, `i + 2` and `i + 3`, and nothing for another distance.
unfoldable pub insert_by_dist : ℕ → ℕ → TokenQmidInfo → TokenInfo → TokenInfo
unfolding insert_bucket
insert_by_dist i dist info t =
    if dist == 1
    then insert_bucket (i + 1) info t
    else if dist == 2
    then insert_bucket (i + 2) info t
    else if dist == 3
    then insert_bucket (i + 3) info t
    else t

-- `InsertQmid`.
unfoldable pub insert_qmid : ℕ → ℕ → MatchType → ℕ → TokenInfo → TokenInfo × ErrorCode
unfolding raise_highest insert_bucket insert_by_dist
insert_qmid qmid position exact_match dist t =
    raise_highest (insert_bucket 0 (record { qmid_ = qmid; position_ = position }) t)
insert_qmid qmid position hamming_dist dist t =
    raise_highest (insert_by_dist 0 dist (record { qmid_ = qmid; position_ = position }) t)
insert_qmid qmid position edit_dist dist t =
    raise_highest (insert_by_dist 3 dist (record { qmid_ = qmid; position_ = position }) t)
insert_qmid qmid position mt_none dist t = (t, error)

-- `NewQueryToken`.
unfoldable pub new_query_token : ℕ → ℕ → MatchType → ℕ → ℕ → TokenInfo → TokenInfo
unfolding insert_qmid
new_query_token qmid position mt dist batch t =
    (insert_qmid qmid position mt dist (record t {
      highest_request = 0;
      isqueryt = true;
      batch_inserted = batch;
      querypointer = replicate 7 none;
      requests = 0;
    })).0

-- `(mt == 0) ? 0 : ((mt == 1) ? dist : 3 + dist)`.
unfoldable pub bucket_of : MatchType → ℕ → ℕ
bucket_of exact_match dist = 0
bucket_of hamming_dist dist = dist
bucket_of edit_dist dist = 3 + dist
bucket_of mt_none dist = 3 + dist

-- The loop of `RemoveQmid`: the list without the first entry of the query, if there is one.
unfoldable pub erase_qmid : ℕ → List TokenQmidInfo → Option (List TokenQmidInfo)
erase_qmid qmid [] = none
erase_qmid qmid (x ∷ xs) =
    let rest = erase_qmid qmid xs in
    if x.qmid_ == qmid then some xs else elim rest [ none ↦ none | some ys ↦ some (x ∷ ys) ]

-- What `RemoveQmid` does once the entry is erased: an empty list is deleted and its bit cleared.
unfoldable pub put_bucket : ℕ → List TokenQmidInfo → TokenInfo → TokenInfo
put_bucket b [] t = record t {
  requests = bit_and t.requests (255 - 2 ^ b);
  querypointer = set t.querypointer b none;
}
put_bucket b (x ∷ xs) t = record t { querypointer = set t.querypointer b (some (x ∷ xs)) }

-- `if (requests_ == 0) highest_request = 0`.
unfoldable pub reset_highest : TokenInfo → TokenInfo
reset_highest t = if t.requests == 0 then record t { highest_request = 0 } else t

-- `RemoveQmid` on the list at index `b`. A null list, or an index past the array, is undefined
-- behaviour.
unfoldable pub remove_at : ℕ → ℕ → TokenInfo → Option (TokenInfo × ErrorCode)
unfolding erase_qmid put_bucket reset_highest
remove_at b qmid t = do
  p ← get_elem? t.querypointer b
  l ← p
  elim (erase_qmid qmid l) [
    | none ↦ some (t, not_found)
    | some rest ↦ some (reset_highest (put_bucket b rest t), ok)
  ]

-- `RemoveQmid`.
unfoldable pub remove_qmid : ℕ → MatchType → ℕ → TokenInfo → Option (TokenInfo × ErrorCode)
unfolding bucket_of remove_at
remove_qmid qmid mt dist t = remove_at (bucket_of mt dist) qmid t

-- `docpointer_->push_back(info)` unless the last document is the same.
unfoldable pub push_did : ℕ → List ℕ → List ℕ
push_did did [] = did ∷ []
push_did did (d ∷ []) = if d == did then d ∷ [] else d ∷ did ∷ []
push_did did (d ∷ e ∷ l) = d ∷ push_did did (e ∷ l)

-- `batchid == lastbatch_`.
abbrev pub same_batch : ℕ → Option ℕ → Bool
same_batch batch none = false
same_batch batch (some b) = batch == b

-- `InsertDid`.
unfoldable pub insert_did : ℕ → ℕ → TokenInfo → Option (TokenInfo × ErrorCode)
unfolding push_did
insert_did did batch t = do
  l ← t.docpointer
  some (
    record t { docpointer = some (push_did did l); lastbatch = some batch },
    if same_batch batch t.lastbatch then token_exists_in_batch else ok,
  )

-- `NewDocToken`.
unfoldable pub new_doc_token : ℕ → ℕ → TokenInfo → Option TokenInfo
unfolding insert_did
new_doc_token did batch t = do
  r ← insert_did did batch (record t { isdoct = true; docpointer = some []; lastbatch = none })
  some r.0

-- `ClearIds`.
unfoldable pub clear_ids : TokenInfo → Option TokenInfo
clear_ids t = do _ ← t.docpointer; some (record t { docpointer = some [] })
