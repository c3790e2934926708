-- ===== src/Tests/Words.antt =====
-- The theorems on words and on the manager, at concrete inputs. The dictionary is an association
-- list, and the words are "rain", "snow" and one of 32 bytes.
use sigmod_programming_conte.Base.{
  ◌||◌, ◌>>=◌, ℕ, ◌+◌, ◌≤◌, ◌<◌, ◌≡◌, ◌≢◌, ◌↔◌, ◌⊎◌, inl, inr, refl, Bool, true, false, Option,
  some, none, List, [], ◌∷◌, ◌++◌, length, arith, if◌then◌else◌, ltb, ◌==◌, max, replicate,
}
use sigmod_programming_conte.Core.{
  CString, hamming_dist, edit_dist, ErrorCode, ok, out_of_range, token_up, token_exists_in_batch,
  TokenId,
}
use sigmod_programming_conte.Library.Assoc.{words}
use sigmod_programming_conte.Token.Defs.{
  TokenInfo, new_token, insert_qmid, remove_qmid, insert_did, same_batch,
}
use sigmod_programming_conte.Token.Requests.{IsConsistent}
use sigmod_programming_conte.Token.Frame.{new_token-IsConsistent}
use sigmod_programming_conte.Token.Inserting.{insert_qmid-IsConsistent}
use sigmod_programming_conte.Token.Removing.{Removal, remove_qmid_cases, remove_qmid-insert_qmid}
use sigmod_programming_conte.Token.Highest.{IsCovered, asked, highest_request-insert_qmid}
use sigmod_programming_conte.Token.Documents.{Ascends, holds, insert_did_lem}
use sigmod_programming_conte.Dictionary.{look_up}
use sigmod_programming_conte.Manager.Defs.{
  Manager, new_manager, manager_token_string, manager_add_doc_token, manager_add_query_token,
  manager_new_batch,
}
use sigmod_programming_conte.Manager.Index.{IsIndexed}
use sigmod_programming_conte.Manager.Words.{
  Stores, manager_add_doc_token-Stores, manager_add_query_token-Stores,
}
use sigmod_programming_conte.Manager.Steps.{manager_new_batch-IsIndexed}
use sigmod_programming_conte.Manager.Reach.{
  Reach, started, query_token, doc_token, batch_begun, Reach-look_up,
}
use sigmod_programming_conte.Manager.Ids.{
  new_manager-IsIndexed, query_then_doc, query_then_doc_share_id, doc_then_doc,
  different_words_different_ids, manager_add_doc_token_lem,
}

abbrev rain : CString
rain = 114 ∷ 97 ∷ 105 ∷ 110 ∷ []

abbrev snow : CString
snow = 115 ∷ 110 ∷ 111 ∷ 119 ∷ []

-- A word that query 3 asks for with Hamming distance 1.
abbrev asked_once : TokenInfo
asked_once = (insert_qmid 3 0 hamming_dist 1 (new_token rain)).0

asked_once-IsConsistent : IsConsistent asked_once
asked_once-IsConsistent = insert_qmid-IsConsistent 3 0 hamming_dist 1 (new_token-IsConsistent rain)

insert_qmid-IsConsistent_example : IsConsistent (insert_qmid 7 2 edit_dist 2 asked_once).0
insert_qmid-IsConsistent_example = insert_qmid-IsConsistent 7 2 edit_dist 2 asked_once-IsConsistent

remove_qmid_cases_example : Removal asked_once 1 3 (remove_qmid 3 hamming_dist 1 asked_once)
remove_qmid_cases_example =
    remove_qmid_cases 3 hamming_dist 1 asked_once refl asked_once-IsConsistent

remove_qmid-insert_qmid_example :
    (v : TokenInfo) × (remove_qmid 7 edit_dist 2 (insert_qmid 7 2 edit_dist 2 (new_token rain)).0
      ≡ some (v, ok))
    × (v.querypointer ≡ (new_token rain).querypointer)
    × (v.requests ≡ (new_token rain).requests)
unfolding new_token
remove_qmid-insert_qmid_example =
    remove_qmid-insert_qmid 7 2 edit_dist 2 (new_token rain) refl (new_token-IsConsistent rain) refl

new_token-IsCovered : IsCovered (new_token rain)
unfolding new_token sigmod_programming_conte.Base.Bits.has_bit
new_token-IsCovered = record { covers = omega arith; within = omega arith }

new_token-small : (new_token rain).requests < 128
unfolding new_token
new_token-small = omega arith

highest_request-insert_qmid_example :
    let (u, code) = insert_qmid 7 2 edit_dist 2 (new_token rain) in
    (u.highest_request ≡ max (new_token rain).highest_request (asked edit_dist 2))
    × (code ≡ (if ltb (new_token rain).highest_request (asked edit_dist 2) then token_up else ok))
    × IsCovered u
highest_request-insert_qmid_example =
    highest_request-insert_qmid 7 2 edit_dist 2 (new_token rain) new_token-small new_token-IsCovered
      (λ e. absurd (ground arith))

abbrev two_documents : TokenInfo
two_documents = record (new_token snow) {
  isdoct = true;
  docpointer = some (1 ∷ 4 ∷ []);
  lastbatch = some 0;
}

insert_did_lem_example :
    (u : TokenInfo) × (docs : List ℕ) × (insert_did 6 1 two_documents
      ≡ some (u, if same_batch 1 two_documents.lastbatch then token_exists_in_batch else ok))
    × (u.docpointer ≡ some docs)
    × (u.lastbatch ≡ some 1)
    × Ascends 0 7 docs
    × ((d : ℕ) → holds d docs ≡ (6 == d || holds d (1 ∷ 4 ∷ [])))
insert_did_lem_example = insert_did_lem 6 1 two_documents refl (omega arith)

abbrev rain_first : TokenId
rain_first = record { length_ = 4; id_ = 0 }

-- A manager with the tables left out: a table is a number here.
abbrev manager : Manager (List (CString × TokenId)) ℕ
manager = new_manager (words TokenId) 0

manager-IsIndexed : IsIndexed (words TokenId) manager
manager-IsIndexed = new_manager-IsIndexed (words TokenId) 0

-- The manager after "rain" was added by document 1.
rained :
    Stores
      (words TokenId)
      refl
      manager
      rain
      (manager_add_doc_token (words TokenId) rain 4 1 0 manager)
rained =
    manager_add_doc_token-Stores (words TokenId) refl manager rain manager-IsIndexed (omega arith)
      (omega arith) 1 0

-- The manager after query 3 asked for "snow", a batch began and document 1 added "rain".
snowed :
    Stores
      (words TokenId)
      refl
      manager
      snow
      (manager_add_query_token (words TokenId) snow 4 3 0 edit_dist 2 0 manager)
snowed =
    manager_add_query_token-Stores (words TokenId) refl manager snow manager-IsIndexed (omega arith)
      (omega arith) 3 0 edit_dist 2 0

abbrev next_day : Manager (List (CString × TokenId)) ℕ
next_day = manager_new_batch (words TokenId) snowed.after

rained_too :
    Stores
      (words TokenId)
      refl
      next_day
      rain
      (manager_add_doc_token (words TokenId) rain 4 1 1 next_day)
rained_too =
    manager_add_doc_token-Stores (words TokenId) refl next_day rain
      (manager_new_batch-IsIndexed (words TokenId) snowed.after snowed.indexed) (omega arith)
      (omega arith) 1 1

rained_too-Reach : Reach (words TokenId) 0 rained_too.after
rained_too-Reach =
    doc_token rain 1 1 (batch_begun (query_token snow 3 0 edit_dist 2 0 started snowed.returned))
      rained_too.returned

Reach-look_up_example :
    (manager_token_string (words TokenId) rain_first rained_too.after ≡ some rain)
    ↔ ((look_up (words TokenId) rain rained_too.after.exact).0 ≡ some rain_first)
Reach-look_up_example =
    Reach-look_up (words TokenId) refl rained_too-Reach rain_first (omega arith) rain

query_then_doc_share_id_example :
    (gid : TokenId) × (query_then_doc
        (words TokenId)
        refl
        rained.after
        rained.indexed
        snow
        1
        0
        edit_dist
        2
        0
        1
        0
        gid
      ≡ some (some gid, some gid, snow))
query_then_doc_share_id_example =
    query_then_doc_share_id (words TokenId) refl rained.after rained.indexed snow (omega arith)
      (omega arith) 1 0 edit_dist 2 0 1 0

different_words_different_ids_example :
    (g h : TokenId) × (doc_then_doc (words TokenId) refl rained.after rained.indexed rain snow 2 0
      ≡ some (some g, some h))
    × (g ≢ h)
different_words_different_ids_example =
    different_words_different_ids (words TokenId) refl rained.after rained.indexed rain snow
      (omega arith) (omega arith) (omega arith) (omega arith) (λ e. absurd (ground arith)) 2 0

abbrev endless : CString
endless = replicate 32 97

manager_add_doc_token_lem_example :
    let r = manager_add_doc_token (words TokenId) endless 32 2 0 rained.after in
    ((31 < 32) × (r ≡ none))
    ⊎ ((32 < 4) × (r ≡ some (rained.after, out_of_range, none)))
    ⊎ ((4 ≤ 32)
        × (32 ≤ 31)
        × (m' : Manager (List (CString × TokenId)) ℕ) × (code : ErrorCode) × (gid : TokenId) × (r
            ≡ some (m', code, some gid))
        × (manager_token_string (words TokenId) gid m' ≡ some endless)
        × IsIndexed (words TokenId) m')
manager_add_doc_token_lem_example =
    manager_add_doc_token_lem (words TokenId) refl rained.after rained.indexed endless 2 0
