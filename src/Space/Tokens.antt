-- ===== src/Space/Tokens.antt =====
-- What the operations of `SpaceBySize` do to the vector of tokens; the queues do not touch it.
use sigmod_programming_conte.Base.{
  ◌+◌, ℕ, ◌≡◌, refl, some, [], ◌∷◌, ◌++◌, length, set, get_elem?, arith,
}
use sigmod_programming_conte.Core.{ok, fresh_token, CString, MatchType, ErrorCode}
use sigmod_programming_conte.Token.Defs.{
  TokenInfo, new_token, new_query_token, insert_qmid, remove_qmid, new_doc_token, insert_did,
}
use sigmod_programming_conte.Space.Defs.{
  Space, enqueue, push_queue, mark_first, add_query_token, add_query_token2, add_doc_token,
  add_doc_token2, queue_up, insert_new_qmid, requeue_doc, insert_new_docid, remove_token_qmid_info,
}

module _ {H : Type 0} (s : Space H) (id : ℕ) where
  tokens-enqueue : (requests : ℕ) → (enqueue id requests s).tokens ≡ s.tokens
  unfolding enqueue push_queue
  tokens-enqueue requests = ground arith

  tokens-mark_first : (mark_first id s).tokens ≡ s.tokens
  unfolding mark_first
  tokens-mark_first = ground arith

  tokens-queue_up : (code : ErrorCode) (high : ℕ) → (queue_up code high id s).tokens ≡ s.tokens
  unfolding queue_up
  tokens-queue_up code high = ground arith

module _ {H : Type 0} (s : Space H) where
  -- A new query token goes to the end, and its place is its id.
  pub tokens-add_query_token :
      (string : CString) (qmid position : ℕ) (mt : MatchType) (dist batch : ℕ)
      → let r = add_query_token string qmid position mt dist batch s in
        (r.0.tokens
          ≡ s.tokens ++ new_query_token qmid position mt dist batch (new_token string) ∷ [])
        × (r.1 ≡ length s.tokens)
  unfolding add_query_token
  tokens-add_query_token string qmid position mt dist batch =
      (simp (tokens-enqueue, tokens-mark_first), refl)

  -- `s` with one token replaced, whatever happened to its queues.
  abbrev pub Replaced : ℕ → TokenInfo → Space H → Type 0
  Replaced id token s' = s'.tokens ≡ set s.tokens id token

  module _ (id : ℕ) {t : TokenInfo} (there : get_elem? s.tokens id ≡ some t) where
    pub tokens-add_query_token2 :
        (qmid position : ℕ) (mt : MatchType) (dist batch : ℕ)
        → (s' : Space H) × (add_query_token2 id qmid position mt dist batch s
            ≡ some (s', fresh_token))
          × Replaced id (new_query_token qmid position mt dist batch t) s'
    unfolding add_query_token2
    tokens-add_query_token2 qmid position mt dist batch =
        let token = new_query_token qmid position mt dist batch t in
        (
          enqueue id token.requests
              (record s { tokens = set s.tokens id token; max_tokens = s.max_tokens + 1 }),
          rw there refl,
          simp tokens-enqueue,
        )

    pub tokens-insert_new_qmid :
        (qmid position : ℕ) (mt : MatchType) (dist : ℕ)
        → (s' : Space H) × (insert_new_qmid id qmid position mt dist s
            ≡ some (s', (insert_qmid qmid position mt dist t).1))
          × Replaced id (insert_qmid qmid position mt dist t).0 s'
    unfolding insert_new_qmid
    tokens-insert_new_qmid qmid position mt dist =
        let r = insert_qmid qmid position mt dist t in
        (
          queue_up r.1 r.0.highest_request id (record s { tokens = set s.tokens id r.0 }),
          rw there refl,
          simp tokens-queue_up,
        )

    pub tokens-add_doc_token2 :
        (did batchid : ℕ) {u : TokenInfo}
        → new_doc_token did batchid t ≡ some u
        → (s' : Space H) × (add_doc_token2 id did batchid s ≡ some (s', ok)) × Replaced id u s'
    unfolding add_doc_token2
    tokens-add_doc_token2 did batchid {u} made = (
      record s { tokens = set s.tokens id u; dbrandnew = s.dbrandnew ++ id ∷ [] },
      rw (there, made) refl,
      refl,
    )

    pub tokens-insert_new_docid :
        (did batchid : ℕ) {u : TokenInfo} {code : ErrorCode}
        → insert_did did batchid (requeue_doc id t s).1 ≡ some (u, code)
        → (s' : Space H) × (insert_new_docid id did batchid s ≡ some (s', code)) × Replaced id u s'
    unfolding insert_new_docid
    tokens-insert_new_docid did batchid {u} made = (
      record ((requeue_doc id t s).0) { tokens = set s.tokens id u },
      rw (there, made) refl,
      refl,
    )

    pub tokens-remove_token_qmid_info :
        (qmid : ℕ) (mt : MatchType) (dist : ℕ) {u : TokenInfo} {code : ErrorCode}
        → remove_qmid qmid mt dist t ≡ some (u, code)
        → (s' : Space H) × (remove_token_qmid_info id qmid mt dist s ≡ some (s', code))
          × Replaced id u s'
    unfolding remove_token_qmid_info
    tokens-remove_token_qmid_info qmid mt dist {u} done =
        (record s { tokens = set s.tokens id u }, rw (there, done) refl, refl)

  pub tokens-add_doc_token :
      (string : CString) (did batchid : ℕ) {u : TokenInfo}
      → new_doc_token did batchid (new_token string) ≡ some u
      → (s' : Space H) × (add_doc_token string did batchid s
          ≡ some (s', length s.tokens, fresh_token))
        × (s'.tokens ≡ s.tokens ++ u ∷ [])
  unfolding add_doc_token
  tokens-add_doc_token string did batchid {u} made = (
    mark_first (length s.tokens)
        (record s { tokens = s.tokens ++ u ∷ []; dbrandnew = s.dbrandnew ++ length s.tokens ∷ [] }),
    rw made refl,
    simp tokens-mark_first,
  )
