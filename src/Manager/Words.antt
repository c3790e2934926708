-- ===== src/Manager/Words.antt =====
-- What `AddQueryToken` and `AddDocToken` of `TokenManager` do with a word.
use sigmod_programming_conte.Base.{
  ltb, leb, get_elem?, get_elem?_of_lt, ℕ, ◌-◌, ◌≤◌, ◌≡◌, ◌≢◌, refl, sym, ap, ◌∙◌, true, false,
  Option, some, none, [], length, arith, Option-cases, inl, inr, ◌>>=◌, >>=-eq-some, >>=-eq-some,
  take-length,
}
use sigmod_programming_conte.Core.{CString, CString-discrete, MatchType, ErrorCode, TokenId}
use sigmod_programming_conte.Library.{DenseMap}
use sigmod_programming_conte.Dictionary.{look_up, find-add_pair_self, find-add_pair_ne}
use sigmod_programming_conte.Token.Defs.{TokenInfo}
use sigmod_programming_conte.Space.Defs.{Space}
use sigmod_programming_conte.Manager.Defs.{
  Manager, space_at, manager_add_query_token, manager_add_doc_token,
}
use sigmod_programming_conte.Manager.Index.{IsIndexed}
use sigmod_programming_conte.Manager.Known.{Updates, add_known_query-Updates, add_known_doc-Updates}
use sigmod_programming_conte.Manager.Fresh.{Enters, add_new_query-Enters, add_new_doc-Enters}

pub some_ne_none {ℓ} : {A : Type ℓ} {o : Option A} {a : A} → o ≡ some a → o ≢ none
some_ne_none e h = absurd (ground arith)

module _ {H : Type 0} (dict : DenseMap CString TokenId) (blank : dict.empty_key ≡ []) where
  open dict use {Map, find}

  -- The call returned an id for `word`, under which the dictionary now has it; the dictionary kept
  -- all that it had, and got nothing else.
  pub record Stores (m : Manager Map H) (word : CString)
      (r : Option (Manager Map H × ErrorCode × Option TokenId)) : Type 0 where
    pub after : Manager Map H
    pub code : ErrorCode
    pub gid : TokenId
    pub returned : r ≡ some (after, code, some gid)
    pub indexed : IsIndexed dict after
    pub entered : find word after.exact ≡ some gid
    pub kept :
        (s : CString) (tid : TokenId) → find s m.exact ≡ some tid → find s after.exact ≡ some tid
    pub others : (s : CString) → s ≢ word → find s after.exact ≡ find s m.exact

  -- The space that a word's length names.
  space_of :
      (m : Manager Map H)
      → IsIndexed dict m
      → (k : ℕ) → 4 ≤ k
      → k ≤ 31
      → (s : Space H) × (space_at dict m (k - 4) ≡ some s)
  space_of m inv k long short = get_elem?_of_lt m.indexes (k - 4) (omega (arith, inv.spaces))

  module _ (m : Manager Map H) (word : CString) (inv : IsIndexed dict m) (long : 4 ≤ length word)
      (short : length word ≤ 31) where
    word_ne : word ≢ dict.empty_key
    word_ne e = absurd (omega (arith, ap length (e ∙ blank)))

    -- What the dictionary says of the word is so.
    place_of :
        (tid : TokenId)
        → find word m.exact ≡ some tid
        → (s : Space H) × (t : TokenInfo) × (space_at dict m (length word - 4) ≡ some s)
          × (get_elem? s.tokens tid.id_ ≡ some t)
          × (tid.length_ ≡ length word)
          × (t.tokenstring ≡ word)
    place_of tid h =
        let l = inv.found word tid h in
        let (s, here, there) =
          >>=-eq-some (space_at dict m (length word - 4)) (λ s. get_elem? s.tokens tid.id_)
            l.stored in
        (s, l.token, here, there, l.measured, l.named)

    known-Stores :
        (tid : TokenId)
        → find word m.exact ≡ some tid
        → {r : Option (Manager Map H × ErrorCode)} → Updates dict m r
        → Stores m word
            (do q ← r; some (q.0, q.1, some (record { length_ = length word; id_ = tid.id_ })))
    known-Stores tid h u =
        let same : record { length_ = length word; id_ = tid.id_ } ≡ tid =
          ap (λ n. record { length_ = n; id_ = tid.id_ }) (sym (inv.found word tid h).measured) in
        record {
          after = u.after;
          code = u.code;
          gid = tid;
          returned = rw u.returned (ap (λ g. some (u.after, u.code, some g)) same);
          indexed = u.indexed inv;
          entered = rw u.exact h;
          kept = λ s t e. rw u.exact e;
          others = λ s e. rw u.exact refl;
        }

    fresh-Stores :
        find word m.exact ≡ none
        → {r : Option (Manager Map H × ErrorCode × TokenId)} → Enters dict blank m word r
        → Stores m word (do q ← r; some (q.0, q.1, some q.2))
    fresh-Stores h e =
        let others : (s : CString) → s ≢ word → find s e.after.exact ≡ find s m.exact =
          λ s ne. rw e.exact (find-add_pair_ne dict s word e.gid m.exact word_ne ne) in
        record {
          after = e.after;
          code = e.code;
          gid = e.gid;
          returned = rw e.returned refl;
          indexed = e.indexed inv;
          entered = rw e.exact (find-add_pair_self dict word e.gid m.exact word_ne h);
          kept = λ s t q. elim (CString-discrete s word) [
            | yes same ↦ absurd (some_ne_none (rw same at q) h)
            | no ne ↦ others s ne ∙ q
          ];
          others = others;
        }

    -- With the invariant, a word of 4 to 31 bytes is stored: `AddQueryToken` returns an id for it, under which
    -- the dictionary then finds it, whether the word was known or new; the dictionary is unchanged
    -- elsewhere, and the invariant holds again.
    pub manager_add_query_token-Stores :
        (qmid position : ℕ) (mt : MatchType) (dist batch : ℕ)
        → Stores m word
            (manager_add_query_token dict word (length word) qmid position mt dist batch m)
    unfolding manager_add_query_token look_up
    manager_add_query_token-Stores qmid position mt dist batch =
        let (s, here) = space_of m inv (length word) long short in
        let fits : leb (length word) 31 ≡ true = ground arith in
        let enough : ltb (length word) 4 ≡ false = ground arith in
        elim (Option-cases (find word m.exact)) [
          | inl e ↦
              rw (fits, enough, take-length, e, take-length)
                (fresh-Stores e (
                  add_new_query-Enters dict blank m s word here long short e qmid position mt dist
                    batch))
          | inr (tid, e) ↦
              let (s, t, here, there, size, name) = place_of tid e in
              rw (fits, enough, take-length, e)
                (known-Stores tid e (
                  add_known_query-Updates dict m (length word) tid.id_ s t here there
                    (inv.sound (length word - 4) tid.id_ t (rw here there)) qmid position mt dist
                    batch))
        ]

    -- `AddDocToken` likewise.
    pub manager_add_doc_token-Stores :
        (did batchid : ℕ)
        → Stores m word (manager_add_doc_token dict word (length word) did batchid m)
    unfolding manager_add_doc_token look_up
    manager_add_doc_token-Stores did batchid =
        let (s, here) = space_of m inv (length word) long short in
        let fits : leb (length word) 31 ≡ true = ground arith in
        let enough : ltb (length word) 4 ≡ false = ground arith in
        elim (Option-cases (find word m.exact)) [
          | inl e ↦
              rw (fits, enough, take-length, e, take-length)
                (fresh-Stores e
                  (add_new_doc-Enters dict blank m s word here long short e did batchid))
          | inr (tid, e) ↦
              let (s, t, here, there, size, name) = place_of tid e in
              rw (fits, enough, take-length, e)
                (known-Stores tid e (
                  add_known_doc-Updates dict m (length word) tid.id_ s t here there
                    (inv.sound (length word - 4) tid.id_ t (rw here there)) did batchid))
        ]
