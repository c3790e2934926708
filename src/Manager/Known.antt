-- ===== src/Manager/Known.antt =====
-- `AddQueryToken`, `AddDocToken` and `RemoveTokenQmidInfo` for a word that is stored.
use sigmod_programming_conte.Base.{
  if_false, if_true, ℕ, ◌-◌, ◌≡◌, refl, sym, ◌∙◌, Option, some, get_elem?, set, arith, Bool-cases,
  inl, inr, if◌then◌else◌, ◌>>=◌,
}
use sigmod_programming_conte.Core.{fresh_token, CString, MatchType, ErrorCode, TokenId}
use sigmod_programming_conte.Library.{DenseMap}
use sigmod_programming_conte.Token.Defs.{TokenInfo, new_query_token, insert_qmid}
use sigmod_programming_conte.Token.Frame.{
  SameDocs, insert_qmid-SameDocs, new_query_token-SameDocs, new_query_token-IsConsistent,
  SameQueries, SameQueries-IsConsistent, new_doc_token-SameQueries, insert_did-SameQueries,
}
use sigmod_programming_conte.Token.Inserting.{insert_qmid-IsConsistent}
use sigmod_programming_conte.Token.Requests.{IsConsistent}
use sigmod_programming_conte.Space.Defs.{
  add_doc_token2, add_query_token2, insert_new_docid, insert_new_qmid, Space, requeue_doc,
}
use sigmod_programming_conte.Space.Tokens.{
  tokens-add_query_token2, tokens-insert_new_qmid, tokens-add_doc_token2, tokens-insert_new_docid,
}
use sigmod_programming_conte.Manager.Defs.{
  Manager, space_at, put_space, count_active, add_known_query, add_known_doc,
}
use sigmod_programming_conte.Manager.Index.{IsSound, IsIndexed, replaced-IsIndexed}

pub SameDocs-IsSound : {t u : TokenInfo} → SameDocs t u → IsConsistent u → IsSound t → IsSound u
SameDocs-IsSound same c fine = record {
  consistent = c;
  documented = λ e.
      let (docs, there) = fine.documented (sym same.isdoct ∙ e) in (docs, same.docpointer ∙ there);
}

SameQueries-IsSound : {t u : TokenInfo} → SameQueries t u → IsSound t → IsSound u
SameQueries-IsSound same fine = record {
  consistent = SameQueries-IsConsistent same fine.consistent;
  documented = λ e. (same.documents, same.docpointer);
}

module _ {H : Type 0} (dict : DenseMap CString TokenId) where
  open dict use {Map}

  -- `m'` differs from `m` in one token, by a call that did not fail.
  pub record Updates (m : Manager Map H) (r : Option (Manager Map H × ErrorCode)) : Type 0 where
    pub after : Manager Map H
    pub code : ErrorCode
    pub returned : r ≡ some (after, code)
    pub exact : after.exact ≡ m.exact
    pub indexed : IsIndexed dict m → IsIndexed dict after

  count_active-same :
      (code : ErrorCode) (m : Manager Map H)
      → ((count_active dict code m).exact ≡ m.exact)
        × ((count_active dict code m).indexes ≡ m.indexes)
  unfolding count_active
  count_active-same code m = ground arith

  module _ (m : Manager Map H) (length_ id : ℕ) (s : Space H) (t : TokenInfo)
      (here : space_at dict m (length_ - 4) ≡ some s) (there : get_elem? s.tokens id ≡ some t)
      (fine : IsSound t) where
    -- What a call did to the space: one sound word for another with the same string.
    record Changes (r : Option (Space H × ErrorCode)) : Type 0 where
      space : Space H
      code : ErrorCode
      word : TokenInfo
      run : r ≡ some (space, code)
      tokens : space.tokens ≡ set s.tokens id word
      named : word.tokenstring ≡ t.tokenstring
      sound : IsSound word

    -- A manager that took such a space, whatever its counters are.
    put-IsIndexed :
        {r : Option (Space H × ErrorCode)} (c : Changes r) (m' : Manager Map H)
        → m'.exact ≡ m.exact
        → m'.indexes ≡ set m.indexes (length_ - 4) c.space
        → IsIndexed dict m
        → IsIndexed dict m'
    put-IsIndexed c m' exact put =
        replaced-IsIndexed dict m m' (length_ - 4) s c.space (record { here = here; put = put }) id
          t c.word there c.tokens exact c.named c.sound

    query-Changes :
        (qmid position : ℕ) (mt : MatchType) (dist batch : ℕ)
        → Changes (
            if t.isqueryt
            then insert_new_qmid id qmid position mt dist s
            else add_query_token2 id qmid position mt dist batch s)
    query-Changes qmid position mt dist batch = elim (Bool-cases t.isqueryt) [
      | inl e ↦
          let (s', run, new) = tokens-insert_new_qmid s id there qmid position mt dist in
          let same = insert_qmid-SameDocs qmid position mt dist t in
          record {
            space = s';
            code = (insert_qmid qmid position mt dist t).1;
            word = (insert_qmid qmid position mt dist t).0;
            run = if_true _ e ∙ run;
            tokens = new;
            named = same.tokenstring;
            sound =
                SameDocs-IsSound same
                  (insert_qmid-IsConsistent qmid position mt dist fine.consistent) fine;
          }
      | inr e ↦
          let (s', run, new) = tokens-add_query_token2 s id there qmid position mt dist batch in
          let same = new_query_token-SameDocs qmid position mt dist batch t in
          record {
            space = s';
            code = fresh_token;
            word = new_query_token qmid position mt dist batch t;
            run = if_false _ e ∙ run;
            tokens = new;
            named = same.tokenstring;
            sound =
                SameDocs-IsSound same (new_query_token-IsConsistent qmid position mt dist batch t)
                  fine;
          }
    ]

    pub add_known_query-Updates :
        (qmid position : ℕ) (mt : MatchType) (dist batch : ℕ)
        → Updates m (add_known_query dict id length_ qmid position mt dist batch m)
    unfolding add_known_query
    add_known_query-Updates qmid position mt dist batch =
        let c = query-Changes qmid position mt dist batch in
        let put = put_space dict m (length_ - 4) c.space in
        let (exact, indexes) = count_active-same c.code put in
        record {
          after = count_active dict c.code put;
          code = c.code;
          returned = rw (here, there, c.run) refl;
          exact = exact;
          indexed = put-IsIndexed c (count_active dict c.code put) exact indexes;
        }

    -- The document side. The mark of a restart goes before the document is recorded.
    requeue_doc-same :
        let (_, q) = requeue_doc id t s in
        (q.tokenstring ≡ t.tokenstring)
        × (q.querypointer ≡ t.querypointer)
        × (q.requests ≡ t.requests)
        × (q.docpointer ≡ t.docpointer)
    unfolding requeue_doc
    requeue_doc-same = ground arith

    doc-Changes :
        (did batchid : ℕ)
        → Changes (
            if t.isdoct
            then insert_new_docid id did batchid s
            else do q ← add_doc_token2 id did batchid s; some (q.0, fresh_token))
    doc-Changes did batchid = elim (Bool-cases t.isdoct) [
      | inl e ↦
          let (docs, listed) = fine.documented e in
          let (name, lists, bits, kept) = requeue_doc-same in
          let (u, code, made, same) =
            insert_did-SameQueries did batchid (requeue_doc id t s).1 (kept ∙ listed) in
          let (s', run, new) = tokens-insert_new_docid s id there did batchid made in
          let whole : SameQueries t u = record {
            tokenstring = same.tokenstring ∙ name;
            querypointer = same.querypointer ∙ lists;
            requests = same.requests ∙ bits;
            documents = same.documents;
            docpointer = same.docpointer;
          } in
          record {
            space = s';
            code = code;
            word = u;
            run = if_true _ e ∙ run;
            tokens = new;
            named = whole.tokenstring;
            sound = SameQueries-IsSound whole fine;
          }
      | inr e ↦
          let (u, made, same) = new_doc_token-SameQueries did batchid t in
          let (s', run, new) = tokens-add_doc_token2 s id there did batchid made in
          record {
            space = s';
            code = fresh_token;
            word = u;
            run = if_false _ e ∙ rw run refl;
            tokens = new;
            named = same.tokenstring;
            sound = SameQueries-IsSound same fine;
          }
    ]

    pub add_known_doc-Updates :
        (did batchid : ℕ) → Updates m (add_known_doc dict id length_ did batchid m)
    unfolding add_known_doc
    add_known_doc-Updates did batchid =
        let c = doc-Changes did batchid in
        let put = put_space dict m (length_ - 4) c.space in
        record {
          after = put;
          code = c.code;
          returned = rw (here, there, c.run) refl;
          exact = refl;
          indexed = put-IsIndexed c put refl refl;
        }
