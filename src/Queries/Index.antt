-- ===== src/Queries/Index.antt =====
-- QueryIndex/QueryInfo.h and QueryIndex/QueryIndex.{h,cpp}. A query entry is known by its place in
-- `vault_`, counted from 1; 0 means none.
pub mod Match
use sigmod_programming_conte.Base.{
  ℕ, zero, suc, ◌+◌, ◌*◌, ◌-◌, ◌/◌, Bool, true, false, ◌&&◌, Option, none, some, List, [], ◌∷◌,
  ◌++◌, length, get_elem?, set, ltb, ◌==◌, if◌then◌else◌, ◌>>=◌, ◌>>◌, require, max,
}
use sigmod_programming_conte.Core.{
  CString, MatchType, exact_match, match_code, ErrorCode, ec_success, TokenId,
}
use sigmod_programming_conte.Library.{DenseMap}
use sigmod_programming_conte.Manager.Defs.{
  Manager, manager_token_string, manager_add_query_token, manager_remove_qmid,
}
use sigmod_programming_conte.Queries.Vault.{Vault, add_qid, remove_qid, is_empty}
use sigmod_programming_conte.Queries.Query.{Query, hashvalue, str_eq}

-- `tids` is the part of `tids_` below `NTokens_`.
pub record QueryInfo : Type 0 where
  pub qids : Vault
  pub tids : List TokenId
  pub type_ : MatchType
  pub dist_ : ℕ

-- The constructor.
unfoldable pub new_query_info : QueryInfo
new_query_info = record { qids = []; tids = []; type_ = exact_match; dist_ = 0 }

-- `AddTokenId`: the array has six places.
unfoldable pub add_token_id : TokenId → QueryInfo → Option QueryInfo
add_token_id tid info = do
  require (ltb (length info.tids) 6)
  some (record info { tids = info.tids ++ tid ∷ [] })

-- `clean`.
unfoldable pub clean : QueryInfo → QueryInfo
clean info = record info { tids = [] }

-- `qmidindex` is the list of its pairs; `emptycells_` has its top first.
pub record QueryIndex (Q : Type 0) : Type 0 where
  pub vault : List QueryInfo
  pub emptycells : List ℕ
  pub qidindex : Q
  pub qmidindex : List (ℕ × ℕ)

-- `MatchType` values compared.
unfoldable pub same_type : MatchType → MatchType → Bool
same_type s t = match_code s == match_code t

-- `equal_range`.
unfoldable pub equal_range : ℕ → List (ℕ × ℕ) → List ℕ
equal_range h [] = []
equal_range h ((k, qmid) ∷ l) = let rest = equal_range h l in if k == h then qmid ∷ rest else rest

-- `vault_[qmid-1]`.
unfoldable pub info_at : ℕ → List QueryInfo → Option QueryInfo
info_at zero vault = none
info_at (suc i) vault = get_elem? vault i

-- The value of `tid` after a call that wrote one, or none.
unfoldable pub written : Option TokenId → Option TokenId → Option TokenId
written none old = old
written (some t) old = some t

module _ (qids : DenseMap ℕ ℕ) where
  -- The constructor.
  unfoldable pub new_query_index : QueryIndex qids.Map
  new_query_index = record { vault = []; emptycells = []; qidindex = qids.empty; qmidindex = [] }

  -- `Lookup`.
  unfoldable pub lookup : ℕ → QueryIndex qids.Map → Option QueryInfo
  lookup qmid x = info_at qmid x.vault

  -- `qidindex[qid]`: a missing key is entered with 0.
  unfoldable pub read_or_insert : ℕ → qids.Map → ℕ × qids.Map
  read_or_insert qid s = elim (qids.find qid s) [ none ↦ (0, qids.put qid 0 s) | some q ↦ (q, s) ]

module _ {H : Type 0} (dict : DenseMap CString TokenId) where
  open dict use {Map}

  -- The loop of `HashLookup` over the tokens of two queries with equally many.
  unfoldable pub same_tokens : List CString → List TokenId → Manager Map H → Option Bool
  same_tokens [] tids m = some true
  same_tokens (s ∷ ss) [] m = none
  same_tokens (s ∷ ss) (tid ∷ tids) m = do
    let rest = same_tokens ss tids m
    name ← manager_token_string dict tid m
    if str_eq s name then rest else some false

  -- The test of `HashLookup` for one entry.
  unfoldable pub entry_matches : Query → ℕ → QueryInfo → Manager Map H → Option Bool
  entry_matches q hash info m =
      if same_type info.type_ q.type_
        && info.dist_ == q.dist_
        && match_code info.type_ * 3 + info.dist_ == hash / 100000
        && length info.tids == length q.tokens
      then same_tokens q.tokens info.tids m
      else some false

  -- The loop of `HashLookup` over the entries with the query's hash.
  unfoldable pub first_match : Query → ℕ → List ℕ → List QueryInfo → Manager Map H → Option ℕ
  first_match q hash [] vault m = some 0
  first_match q hash (qmid ∷ l) vault m = do
    let rest = first_match q hash l vault m
    info ← info_at qmid vault
    found ← entry_matches q hash info m
    if found then some qmid else rest

  -- The loop of `AddQuery` over the tokens, from place `i` on. `tid` has a value only once
  -- `AddQueryToken` has written one, and keeps it when a later call writes none.
  unfoldable pub add_query_tokens :
      List CString
      → ℕ
      → ℕ
      → Query
      → ℕ
      → Option TokenId
      → QueryInfo
      → Manager Map H
      → Option (QueryInfo × Manager Map H)
  add_query_tokens [] i target q batch tid info m = some (info, m)
  add_query_tokens (s ∷ ss) i target q batch tid info m = do
    r ← manager_add_query_token dict s (length s) target i q.type_ q.dist_ batch m
    t ← written r.2 tid
    more ← add_token_id t info
    add_query_tokens ss (i + 1) target q batch (some t) more r.0

  -- The loop of `RemoveQuery` over the tokens of the entry.
  unfoldable pub remove_tokens :
      List TokenId → ℕ → MatchType → ℕ → Manager Map H → Option (Manager Map H)
  remove_tokens [] qmid mt dist m = some m
  remove_tokens (tid ∷ tids) qmid mt dist m = do
    r ← manager_remove_qmid dict tid qmid mt dist m
    remove_tokens tids qmid mt dist r.0

module _ {H : Type 0} (dict : DenseMap CString TokenId) (qids : DenseMap ℕ ℕ) where
  open dict use {Map}

  -- `HashLookup`.
  unfoldable pub hash_lookup : Query → QueryIndex qids.Map → Manager Map H → Option ℕ
  hash_lookup q x m =
      first_match dict q (hashvalue q) (equal_range (hashvalue q) x.qmidindex) x.vault m

  -- `AddQuery` where a cell is free.
  unfoldable pub recycle_cell :
      Query
      → ℕ
      → ℕ
      → List ℕ
      → QueryIndex qids.Map
      → Manager Map H
      → Option (Bool × ℕ × QueryIndex qids.Map × Manager Map H)
  recycle_cell q batch target cells x m = do
    old ← info_at target x.vault
    let info = record old { type_ = q.type_; dist_ = q.dist_; qids = add_qid q.qid old.qids }
    r ← add_query_tokens dict q.tokens 0 target q batch none info m
    some (
      true,
      target,
      record x {
        vault = set x.vault (target - 1) r.0;
        emptycells = cells;
        qidindex = qids.put q.qid target x.qidindex;
        qmidindex = x.qmidindex ++ (hashvalue q, target) ∷ [];
      },
      r.1,
    )

  -- `AddQuery` where a cell is appended.
  unfoldable pub append_cell :
      Query
      → ℕ
      → QueryIndex qids.Map
      → Manager Map H
      → Option (Bool × ℕ × QueryIndex qids.Map × Manager Map H)
  append_cell q batch x m = do
    let info = record new_query_info { type_ = q.type_; dist_ = q.dist_; qids = add_qid q.qid [] }
    let qmid = length x.vault + 1
    r ← add_query_tokens dict q.tokens 0 qmid q batch none info m
    some (
      true,
      qmid,
      record x {
        vault = x.vault ++ r.0 ∷ [];
        qidindex = qids.put q.qid qmid x.qidindex;
        qmidindex = x.qmidindex ++ (hashvalue q, qmid) ∷ [];
      },
      r.1,
    )

  -- `AddQuery` for a query that has an entry.
  unfoldable pub share_cell :
      Query
      → ℕ
      → QueryIndex qids.Map
      → Manager Map H
      → Option (Bool × ℕ × QueryIndex qids.Map × Manager Map H)
  share_cell q target x m = do
    old ← info_at target x.vault
    some (
      false,
      target,
      record x {
        vault = set x.vault (target - 1) (record old { qids = add_qid q.qid old.qids });
        qidindex = qids.put q.qid target x.qidindex;
      },
      m,
    )

  -- `AddQuery`: whether the query was new, and its entry.
  unfoldable pub add_query :
      Query
      → ℕ
      → QueryIndex qids.Map
      → Manager Map H
      → Option (Bool × ℕ × QueryIndex qids.Map × Manager Map H)
  add_query q batch x m = do
    target ← hash_lookup q x m
    if target == 0
        then elim x.emptycells [
          | [] ↦ append_cell q batch x m
          | cell ∷ cells ↦ recycle_cell q batch cell cells x m
        ]
        else share_cell q target x m

  -- The last part of `RemoveQuery`: an entry without queries gives its tokens back and is free.
  unfoldable pub release_if_empty :
      ℕ
      → QueryInfo
      → QueryIndex qids.Map
      → Manager Map H
      → Option (ErrorCode × QueryIndex qids.Map × Manager Map H)
  release_if_empty qmid info x m =
      if is_empty info.qids
      then (do
        m' ← remove_tokens dict info.tids qmid info.type_ info.dist_ m
        let vault = set x.vault (qmid - 1) (clean info)
        some (ec_success, record x { vault = vault; emptycells = qmid ∷ x.emptycells }, m'))
      else some (ec_success, record x { vault = set x.vault (qmid - 1) info }, m)

  -- `RemoveQuery`.
  unfoldable pub remove_query :
      ℕ
      → QueryIndex qids.Map
      → Manager Map H
      → Option (ErrorCode × QueryIndex qids.Map × Manager Map H)
  remove_query qid x m = do
    let read = read_or_insert qids qid x.qidindex
    let y = record x { qidindex = read.1 }
    if read.0 == 0 then some (ec_success, y, m) else (do
      old ← info_at read.0 y.vault
      release_if_empty read.0 (record old { qids = remove_qid qid old.qids }) y m)
