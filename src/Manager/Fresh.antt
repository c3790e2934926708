-- ===== src/Manager/Fresh.antt =====
-- `AddQueryToken` and `AddDocToken` for a word that is not stored.
use sigmod_programming_conte.Base.{
  ◌≢◌, Bool, ℕ, ◌+◌, ◌-◌, ◌≤◌, ◌≡◌, refl, ap, ◌∙◌, Option, some, none, length, set, arith,
  get_elem?-append_length, [], ◌∷◌, ◌++◌, false, true,
}
use sigmod_programming_conte.Core.{fresh_token, CString, MatchType, ErrorCode, TokenId}
use sigmod_programming_conte.Library.{DenseMap}
use sigmod_programming_conte.Dictionary.{add_pair}
use sigmod_programming_conte.Token.Defs.{TokenInfo, new_token, new_query_token}
use sigmod_programming_conte.Token.Frame.{
  new_query_token-SameDocs, new_query_token-IsConsistent, new_token-IsConsistent,
  new_doc_token-SameQueries, SameQueries-IsConsistent,
}
use sigmod_programming_conte.Space.Defs.{Space, get_token_string, add_query_token}
use sigmod_programming_conte.Space.Tokens.{tokens-add_query_token, tokens-add_doc_token}
use sigmod_programming_conte.Manager.Defs.{Manager, space_at, put_space, add_new_query, add_new_doc}
use sigmod_programming_conte.Manager.Index.{IsSound, IsIndexed, grown-IsIndexed}

new_token-named : (s : CString) → ((new_token s).tokenstring ≡ s) × ((new_token s).isdoct ≡ false)
unfolding new_token
new_token-named s = (refl, refl)

true_ne_false : {b : Bool} → b ≡ true → b ≢ false
true_ne_false e h = absurd (ground arith)

module _ {H : Type 0} (dict : DenseMap CString TokenId) (blank : dict.empty_key ≡ []) where
  open dict use {Map, find}

  -- The call did not fail; it entered `word` in the dictionary, and in the store, under a new id.
  pub record Enters (m : Manager Map H) (word : CString)
      (r : Option (Manager Map H × ErrorCode × TokenId)) : Type 0 where
    pub after : Manager Map H
    pub code : ErrorCode
    pub gid : TokenId
    pub returned : r ≡ some (after, code, gid)
    pub measured : gid.length_ ≡ length word
    pub exact : after.exact ≡ (add_pair dict word gid m.exact).0
    pub indexed : IsIndexed dict m → IsIndexed dict after

  get_token_string-append :
      (s' s : Space H) (u : TokenInfo)
      → s'.tokens ≡ s.tokens ++ u ∷ []
      → get_token_string (length s.tokens) s' ≡ some u.tokenstring
  unfolding get_token_string
  get_token_string-append s' s u new = rw (new, get_elem?-append_length) refl

  module _ (m : Manager Map H) (s : Space H) (word : CString)
      (here : space_at dict m (length word - 4) ≡ some s) (long : 4 ≤ length word)
      (short : length word ≤ 31) (fresh : find word m.exact ≡ none) where
    gid' : TokenId
    gid' = record { length_ = length word; id_ = length s.tokens }

    -- The state after a sound word `u` with the string was appended and entered.
    entered-IsIndexed :
        (m' : Manager Map H) (s' : Space H) (u : TokenInfo)
        → m'.indexes ≡ set m.indexes (length word - 4) s'
        → s'.tokens ≡ s.tokens ++ u ∷ []
        → u.tokenstring ≡ word
        → m'.exact ≡ (add_pair dict u.tokenstring gid' m.exact).0
        → IsSound u
        → IsIndexed dict m
        → IsIndexed dict m'
    unfolding gid'
    entered-IsIndexed m' s' u put new named exact fine =
        let four : length word ≡ length word - 4 + 4 = omega arith in
        grown-IsIndexed dict m m' (length word - 4) s s' (record { here = here; put = put }) u new
          blank
          (exact
            ∙ ap
                (λ n.
                  (add_pair dict u.tokenstring (record { length_ = n; id_ = length s.tokens })
                    m.exact).0)
                four)
          (rw named fresh) (ap length named ∙ four) (omega arith) fine

    pub add_new_query-Enters :
        (qmid position : ℕ) (mt : MatchType) (dist batch : ℕ)
        → Enters m word (add_new_query dict word (length word) qmid position mt dist batch m)
    unfolding add_new_query gid'
    add_new_query-Enters qmid position mt dist batch =
        let (new, placed) = tokens-add_query_token s word qmid position mt dist batch in
        let s' = (add_query_token word qmid position mt dist batch s).0 in
        let u = new_query_token qmid position mt dist batch (new_token word) in
        let same = new_query_token-SameDocs qmid position mt dist batch (new_token word) in
        let name : u.tokenstring ≡ word = same.tokenstring ∙ (new_token-named word).0 in
        let m' : Manager Map H = record (put_space dict m (length word - 4) s') {
          exact = (add_pair dict word gid' m.exact).0;
          active_tokens = m.active_tokens + 1;
        } in
        record {
          after = m';
          code = (add_query_token word qmid position mt dist batch s).2;
          gid = gid';
          returned = rw (here, placed, get_token_string-append s' s u new, name) refl;
          measured = refl;
          exact = refl;
          indexed = entered-IsIndexed m' s' u refl new name (rw name refl) (record {
            consistent = new_query_token-IsConsistent qmid position mt dist batch (new_token word);
            documented = λ e. absurd (true_ne_false e (same.isdoct ∙ (new_token-named word).1));
          });
        }

    pub add_new_doc-Enters :
        (did batchid : ℕ) → Enters m word (add_new_doc dict word (length word) did batchid m)
    unfolding add_new_doc gid'
    add_new_doc-Enters did batchid =
        let (u, made, same) = new_doc_token-SameQueries did batchid (new_token word) in
        let (s', placed, new) = tokens-add_doc_token s word did batchid made in
        let name : u.tokenstring ≡ word = same.tokenstring ∙ (new_token-named word).0 in
        let m' : Manager Map H = record (put_space dict m (length word - 4) s') {
          exact = (add_pair dict word gid' m.exact).0;
        } in
        record {
          after = m';
          code = fresh_token;
          gid = gid';
          returned = rw (here, placed, get_token_string-append s' s u new, name) refl;
          measured = refl;
          exact = refl;
          indexed = entered-IsIndexed m' s' u refl new name (rw name refl) (record {
            consistent = SameQueries-IsConsistent same (new_token-IsConsistent word);
            documented = λ e. (same.documents, same.docpointer);
          });
        }
