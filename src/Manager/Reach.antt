-- ===== src/Manager/Reach.antt =====
-- The states that the calls of `TokenManager` lead to, but for `ClearDocIds`, which nothing calls.
use sigmod_programming_conte.Base.{
  ◌∷◌, ℕ, List, ◌≤◌, ◌<◌, ◌-◌, ◌≡◌, ◌↔◌, ◌≢◌, sym, ap, ◌∙◌, Option, some, none, [], length, arith,
  get_elem?, >>=-eq-some, some_inj, subst, dec_lt,
}
use sigmod_programming_conte.Core.{CString, MatchType, ErrorCode, TokenId, out_of_range}
use sigmod_programming_conte.Library.{DenseMap}
use sigmod_programming_conte.Dictionary.{look_up}
use sigmod_programming_conte.Token.Defs.{TokenInfo, TokenQmidInfo, erase_qmid, remove_qmid}
use sigmod_programming_conte.Token.Requests.{asks, slot}
use sigmod_programming_conte.Token.Removing.{Removal, null_list, absent, erased, remove_qmid_cases}
use sigmod_programming_conte.Space.Defs.{Space, remove_token_qmid_info}
use sigmod_programming_conte.Manager.Defs.{
  Manager, space_at, new_manager, manager_add_query_token, manager_add_doc_token,
  manager_remove_qmid, manager_new_batch, manager_restart, manager_token_string,
}
use sigmod_programming_conte.Manager.Index.{token_at, IsIndexed}
use sigmod_programming_conte.Manager.Words.{
  some_ne_none, Stores, manager_add_query_token-Stores, manager_add_doc_token-Stores,
}
use sigmod_programming_conte.Manager.Ids.{new_manager-IsIndexed, manager_token_string-look_up}
use sigmod_programming_conte.Manager.Steps.{
  manager_remove_qmid-IsIndexed, manager_new_batch-IsIndexed,
}
use sigmod_programming_conte.Manager.Restart.{manager_restart-IsIndexed}

erase_qmid-some : (qmid : ℕ) (l rest : List TokenQmidInfo) → erase_qmid qmid l ≡ some rest → l ≢ []
unfolding erase_qmid
erase_qmid-some qmid [] rest e same = absurd (ground arith)
erase_qmid-some qmid (x ∷ l) rest e same = absurd (ground arith)

-- A list that a query is removed from is no null pointer.
Removal-asks :
    {t : TokenInfo} {i qmid : ℕ} {r : Option (TokenInfo × ErrorCode)} {q : TokenInfo × ErrorCode}
    → Removal t i qmid r
    → r ≡ some q
    → asks t i ≢ []
Removal-asks (null_list h) e = absurd (ground arith)
Removal-asks (absent h gone) e = h
Removal-asks {t} {i} {qmid} (erased rest h c l) e = erase_qmid-some qmid (asks t i) rest h

module _ {H : Type 0} (dict : DenseMap CString TokenId) where
  open dict use {Map}

  -- A manager starts empty, over `none_yet`; then words are added by queries and by documents, queries are
  -- removed from words, and batches and restarts come, in any order. Only calls that return count. A removal names
  -- one of the seven lists: that of exact matches, or that of a type and a distance from 1 to 3.
  pub data Reach (none_yet : H) : Manager Map H → Type 0 where
    started : Reach none_yet (new_manager dict none_yet)
    query_token :
        {m m' : Manager Map H} {code : ErrorCode} {gid : Option TokenId} (word : CString)
        (qmid position : ℕ) (mt : MatchType) (dist batch : ℕ)
        → Reach none_yet m
        → manager_add_query_token dict word (length word) qmid position mt dist batch m
          ≡ some (m', code, gid)
        → Reach none_yet m'
    doc_token :
        {m m' : Manager Map H} {code : ErrorCode} {gid : Option TokenId} (word : CString)
        (did batchid : ℕ)
        → Reach none_yet m
        → manager_add_doc_token dict word (length word) did batchid m ≡ some (m', code, gid)
        → Reach none_yet m'
    query_removed :
        {m m' : Manager Map H} {code : ErrorCode} (gid : TokenId) (qmid : ℕ) (mt : MatchType)
        (dist : ℕ) {i : ℕ}
        → Reach none_yet m
        → slot mt dist ≡ some i
        → manager_remove_qmid dict gid qmid mt dist m ≡ some (m', code)
        → Reach none_yet m'
    batch_begun : {m : Manager Map H} → Reach none_yet m → Reach none_yet (manager_new_batch dict m)
    restarted :
        {m : Manager Map H} (cleared : H)
        → Reach none_yet m
        → Reach none_yet (manager_restart dict cleared m)

  token_in :
      (m : Manager Map H) (i j : ℕ) {s : Space H} {t : TokenInfo}
      → space_at dict m i ≡ some s
      → get_elem? s.tokens j ≡ some t
      → token_at dict m i j ≡ some t
  token_in m i j here there = rw here there

  module _ (blank : dict.empty_key ≡ []) (m : Manager Map H) (inv : IsIndexed dict m) where
    -- What the two calls that add a word have in common.
    word_added :
        (word : CString) {m' : Manager Map H} {code : ErrorCode} {gid : Option TokenId}
        {r : Option (Manager Map H × ErrorCode × Option TokenId)}
        → (31 < length word → r ≡ none)
        → (length word < 4 → r ≡ some (m, out_of_range, none))
        → (4 ≤ length word → length word ≤ 31 → Stores dict blank m word r)
        → r ≡ some (m', code, gid)
        → IsIndexed dict m'
    word_added word {m'} long short stores run = elim (dec_lt 31 (length word)) [
      | yes h ↦ absurd (some_ne_none run (long h))
      | no h ↦ elim (dec_lt (length word) 4) [
        | yes k ↦ subst (IsIndexed dict) (ap (λ q. q.0) (some_inj (sym (short k) ∙ run))) inv
        | no k ↦
            let a = stores (omega arith) (omega arith) in
            subst (IsIndexed dict) (ap (λ q. q.0) (some_inj (sym a.returned ∙ run))) a.indexed
      ]
    ]

    query_token-IsIndexed :
        (word : CString) (qmid position : ℕ) (mt : MatchType) (dist batch : ℕ) {m' : Manager Map H}
        {code : ErrorCode} {gid : Option TokenId}
        → manager_add_query_token dict word (length word) qmid position mt dist batch m
          ≡ some (m', code, gid)
        → IsIndexed dict m'
    unfolding manager_add_query_token
    query_token-IsIndexed word qmid position mt dist batch =
        word_added word (λ h. ground arith) (λ h. ground arith)
          (λ lo hi.
            manager_add_query_token-Stores dict blank m word inv lo hi qmid position mt dist batch)

    doc_token-IsIndexed :
        (word : CString) (did batchid : ℕ) {m' : Manager Map H} {code : ErrorCode}
        {gid : Option TokenId}
        → manager_add_doc_token dict word (length word) did batchid m ≡ some (m', code, gid)
        → IsIndexed dict m'
    unfolding manager_add_doc_token
    doc_token-IsIndexed word did batchid =
        word_added word (λ h. ground arith) (λ h. ground arith)
          (λ lo hi. manager_add_doc_token-Stores dict blank m word inv lo hi did batchid)

    -- A removal that returns had a word, and a query in its list.
    query_removed-IsIndexed :
        (gid : TokenId) (qmid : ℕ) (mt : MatchType) (dist i : ℕ) {m' : Manager Map H}
        {code : ErrorCode}
        → slot mt dist ≡ some i
        → manager_remove_qmid dict gid qmid mt dist m ≡ some (m', code)
        → IsIndexed dict m'
    unfolding manager_remove_qmid remove_token_qmid_info
    query_removed-IsIndexed gid qmid mt dist i e run =
        let (s, here, run1) = >>=-eq-some (space_at dict m (gid.length_ - 4)) _ run in
        let (r, step, run2) = >>=-eq-some (remove_token_qmid_info gid.id_ qmid mt dist s) _ run1 in
        let (t, there, run3) = >>=-eq-some (get_elem? s.tokens gid.id_) _ step in
        let (q, gone, run4) = >>=-eq-some (remove_qmid qmid mt dist t) _ run3 in
        let stored : token_at dict m (gid.length_ - 4) gid.id_ ≡ some t =
          token_in m (gid.length_ - 4) gid.id_ here there in
        let c = (inv.sound (gid.length_ - 4) gid.id_ t stored).consistent in
        let some_query = Removal-asks (remove_qmid_cases qmid mt dist t e c) gone in
        let (m2, code2, again, exact, kept) =
          manager_remove_qmid-IsIndexed dict m gid qmid mt dist t i inv stored e some_query in
        subst (IsIndexed dict) (ap (λ q. q.0) (some_inj (sym again ∙ run))) kept

  Reach-IsIndexed :
      (blank : dict.empty_key ≡ []) {none_yet : H} {m : Manager Map H}
      → Reach none_yet m
      → IsIndexed dict m
  Reach-IsIndexed blank {none_yet} started = new_manager-IsIndexed dict none_yet
  Reach-IsIndexed blank (query_token {m} word qmid position mt dist batch r run) =
      query_token-IsIndexed blank m (Reach-IsIndexed blank r) word qmid position mt dist batch run
  Reach-IsIndexed blank (doc_token {m} word did batchid r run) =
      doc_token-IsIndexed blank m (Reach-IsIndexed blank r) word did batchid run
  Reach-IsIndexed blank (query_removed {m} gid qmid mt dist {i} r e run) =
      query_removed-IsIndexed blank m (Reach-IsIndexed blank r) gid qmid mt dist i e run
  Reach-IsIndexed blank (batch_begun {m} r) =
      manager_new_batch-IsIndexed dict m (Reach-IsIndexed blank r)
  Reach-IsIndexed blank (restarted {m} cleared r) =
      manager_restart-IsIndexed dict cleared m (Reach-IsIndexed blank r)

  -- Over a dictionary whose empty key is the empty word: whatever calls of `AddQueryToken`, `AddDocToken`, `NewBatch`, `Restart` and,
  -- for a type and a distance that have a list, `RemoveTokenQmidInfo` returned since the constructor, in any order,
  -- `GetTokenString` and the look-up in the dictionary are inverse: for an id whose length is at least 4, `GetTokenString`
  -- gives the word exactly if the dictionary has the word under that id.
  pub Reach-look_up :
      (blank : dict.empty_key ≡ []) {none_yet : H} {m : Manager Map H}
      → Reach none_yet m
      → (gid : TokenId) → 4 ≤ gid.length_
      → (word : CString)
      → (manager_token_string dict gid m ≡ some word) ↔ ((look_up dict word m.exact).0 ≡ some gid)
  Reach-look_up blank {none_yet} {m} r =
      manager_token_string-look_up dict m (Reach-IsIndexed blank r)
