-- ===== src/Token/Frame.antt =====
-- What the query operations of a word leave alone: its string and its documents. What the
-- document operations leave alone: its string and its queries.
use sigmod_programming_conte.Base.{
  if◌then◌else◌, ◌∷◌, ℕ, ◌≡◌, refl, true, some, none, List, [], replicate, arith, get_or-replicate,
}
use sigmod_programming_conte.Base.Bits.{has_bit-zero}
use sigmod_programming_conte.Core.{
  ok, token_exists_in_batch, MatchType, exact_match, CString, ErrorCode,
}
use sigmod_programming_conte.Token.Defs.{
  same_batch, push_did, TokenInfo, new_token, insert_qmid, new_query_token, remove_qmid, insert_did,
  new_doc_token,
}
use sigmod_programming_conte.Token.Requests.{IsConsistent, same-IsConsistent}
use sigmod_programming_conte.Token.Inserting.{insert_qmid-IsConsistent}

-- `u` has the string and the documents of `t`.
pub record SameDocs (t u : TokenInfo) : Type 0 where
  pub tokenstring : u.tokenstring ≡ t.tokenstring
  pub isdoct : u.isdoct ≡ t.isdoct
  pub docpointer : u.docpointer ≡ t.docpointer

pub insert_qmid-SameDocs :
    (qmid position : ℕ) (mt : MatchType) (dist : ℕ) (t : TokenInfo)
    → SameDocs t (insert_qmid qmid position mt dist t).0
unfolding insert_qmid
insert_qmid-SameDocs qmid position exact_match dist t = ground arith
insert_qmid-SameDocs qmid position _ dist t = ground arith

pub new_query_token-SameDocs :
    (qmid position : ℕ) (mt : MatchType) (dist batch : ℕ) (t : TokenInfo)
    → SameDocs t (new_query_token qmid position mt dist batch t)
unfolding new_query_token
new_query_token-SameDocs qmid position exact_match dist batch t = ground arith
new_query_token-SameDocs qmid position _ dist batch t = ground arith

pub remove_qmid-SameDocs :
    (qmid : ℕ) (mt : MatchType) (dist : ℕ) (t : TokenInfo) {u : TokenInfo} {code : ErrorCode}
    → remove_qmid qmid mt dist t ≡ some (u, code)
    → SameDocs t u
unfolding remove_qmid
remove_qmid-SameDocs qmid mt dist t h = ground arith

-- A word with no lists at all is consistent.
cleared-IsConsistent :
    (t : TokenInfo) → t.querypointer ≡ replicate 7 none → t.requests ≡ 0 → IsConsistent t
cleared-IsConsistent t lists bits = record {
  width = rw lists refl;
  small = omega arith;
  mirrors = λ i lt. rw (lists, bits, get_or-replicate) (has_bit-zero i);
  pruned = λ i lt. rw (lists, get_or-replicate) (λ e. cc);
}

-- `NewQueryToken` makes a consistent word of any word.
pub new_query_token-IsConsistent :
    (qmid position : ℕ) (mt : MatchType) (dist batch : ℕ) (t : TokenInfo)
    → IsConsistent (new_query_token qmid position mt dist batch t)
unfolding new_query_token
new_query_token-IsConsistent qmid position mt dist batch t =
    insert_qmid-IsConsistent qmid position mt dist
      {t = record t {
        highest_request = 0;
        isqueryt = true;
        batch_inserted = batch;
        querypointer = replicate 7 none;
        requests = 0;
      }}
      (cleared-IsConsistent _ refl refl)

pub new_token-IsConsistent : (s : CString) → IsConsistent (new_token s)
unfolding new_token
new_token-IsConsistent s = cleared-IsConsistent (new_token s) refl refl

-- `u` has the string and the queries of `t`, and a document list.
pub record SameQueries (t u : TokenInfo) : Type 0 where
  pub tokenstring : u.tokenstring ≡ t.tokenstring
  pub querypointer : u.querypointer ≡ t.querypointer
  pub requests : u.requests ≡ t.requests
  pub documents : List ℕ
  pub docpointer : u.docpointer ≡ some documents

pub SameQueries-IsConsistent : {t u : TokenInfo} → SameQueries t u → IsConsistent t → IsConsistent u
SameQueries-IsConsistent {u} same c = same-IsConsistent u (same.querypointer, same.requests) c

-- `NewDocToken` does not fail; `InsertDid` does not on a word that has a document list.
pub new_doc_token-SameQueries :
    (did batch : ℕ) (t : TokenInfo)
    → (u : TokenInfo) × (new_doc_token did batch t ≡ some u) × SameQueries t u
unfolding new_doc_token insert_did push_did
new_doc_token-SameQueries did batch t = (
  record t { isdoct = true; docpointer = some (did ∷ []); lastbatch = some batch },
  refl,
  record {
    tokenstring = refl;
    querypointer = refl;
    requests = refl;
    documents = did ∷ [];
    docpointer = refl;
  },
)

pub insert_did-SameQueries :
    (did batch : ℕ) (t : TokenInfo) {docs : List ℕ}
    → t.docpointer ≡ some docs
    → (u : TokenInfo) × (code : ErrorCode) × (insert_did did batch t ≡ some (u, code))
      × SameQueries t u
unfolding insert_did
insert_did-SameQueries did batch t {docs} there = (
  record t { docpointer = some (push_did did docs); lastbatch = some batch },
  if same_batch batch t.lastbatch then token_exists_in_batch else ok,
  rw there refl,
  record {
    tokenstring = refl;
    querypointer = refl;
    requests = refl;
    documents = push_did did docs;
    docpointer = refl;
  },
)
