-- ===== src/Manager/Steps.antt =====
-- `RemoveTokenQmidInfo` and `NewBatch` of `TokenManager`.
use sigmod_programming_conte.Base.{
  ℕ, ◌-◌, ◌≡◌, ◌≢◌, refl, sym, ap, ◌∙◌, Option, some, List, [], ◌∷◌, get_elem?, length, arith, map,
  zero, suc, ◌>>=◌, >>=-eq-some,
}
use sigmod_programming_conte.Core.{CString, MatchType, ErrorCode, TokenId}
use sigmod_programming_conte.Library.{DenseMap}
use sigmod_programming_conte.Token.Defs.{TokenInfo}
use sigmod_programming_conte.Token.Requests.{IsConsistent, asks, slot}
use sigmod_programming_conte.Token.Removing.{Removal, null_list, absent, erased, remove_qmid_cases}
use sigmod_programming_conte.Token.Frame.{remove_qmid-SameDocs}
use sigmod_programming_conte.Space.Defs.{Space, new_batch}
use sigmod_programming_conte.Space.Tokens.{tokens-remove_token_qmid_info}
use sigmod_programming_conte.Manager.Defs.{
  Manager, space_at, put_space, count_inactive, manager_remove_qmid, manager_new_batch,
}
use sigmod_programming_conte.Manager.Index.{token_at, IsIndexed, replaced-IsIndexed}
use sigmod_programming_conte.Manager.Known.{SameDocs-IsSound}

-- A removal from a list that has queries returns a consistent word.
removed :
    {t : TokenInfo} {i qmid : ℕ} {r : Option (TokenInfo × ErrorCode)}
    → asks t i ≢ []
    → IsConsistent t
    → Removal t i qmid r
    → (u : TokenInfo) × (code : ErrorCode) × (r ≡ some (u, code)) × IsConsistent u
removed some_query c (null_list h) = absurd (some_query h)
removed {t} some_query c (absent h e) = (t, _, refl, c)
removed some_query c (erased {u} rest e c' l) = (u, _, refl, c')

module _ {H : Type 0} (dict : DenseMap CString TokenId) where
  open dict use {Map}

  count_inactive-same :
      (code : ErrorCode) (m : Manager Map H)
      → ((count_inactive dict code m).exact ≡ m.exact)
        × ((count_inactive dict code m).indexes ≡ m.indexes)
  unfolding count_inactive
  count_inactive-same code m = ground arith

  -- With the invariant, `RemoveTokenQmidInfo` for a word that is stored returns if a query is in the word's list for
  -- the type and the distance, and keeps the dictionary and the invariant.
  pub manager_remove_qmid-IsIndexed :
      (m : Manager Map H) (gid : TokenId) (qmid : ℕ) (mt : MatchType) (dist : ℕ) (t : TokenInfo)
      (i : ℕ)
      → IsIndexed dict m
      → token_at dict m (gid.length_ - 4) gid.id_ ≡ some t
      → slot mt dist ≡ some i
      → asks t i ≢ []
      → (m' : Manager Map H) × (code : ErrorCode) × (manager_remove_qmid dict gid qmid mt dist m
          ≡ some (m', code))
        × (m'.exact ≡ m.exact)
        × IsIndexed dict m'
  unfolding manager_remove_qmid
  manager_remove_qmid-IsIndexed m gid qmid mt dist t i inv stored e some_query =
      let (s, here, there) =
        >>=-eq-some (space_at dict m (gid.length_ - 4)) (λ s. get_elem? s.tokens gid.id_) stored in
      let fine = inv.sound (gid.length_ - 4) gid.id_ t stored in
      let (u, code, run, c) =
        removed some_query fine.consistent (remove_qmid_cases qmid mt dist t e fine.consistent) in
      let same = remove_qmid-SameDocs qmid mt dist t run in
      let (s', step, new) = tokens-remove_token_qmid_info s gid.id_ there qmid mt dist run in
      let put = put_space dict m (gid.length_ - 4) s' in
      let (exact, indexes) = count_inactive-same code put in
      (
        count_inactive dict code put,
        code,
        rw (here, step) refl,
        exact,
        replaced-IsIndexed dict m (count_inactive dict code put) (gid.length_ - 4) s s'
            (record { here = here; put = indexes }) gid.id_ t u there new exact same.tokenstring
            (SameDocs-IsSound same c fine) inv,
      )

  map-space :
      (f : Space H → Space H) (ss : List (Space H)) (i j : ℕ)
      → ((s : Space H) → (f s).tokens ≡ s.tokens)
      → (get_elem? (map f ss) i >>= λ s. get_elem? s.tokens j)
        ≡ (get_elem? ss i >>= λ s. get_elem? s.tokens j)
  map-space f [] i j same = refl
  map-space f (s ∷ ss) zero j same = ap (λ ts. get_elem? ts j) (same s)
  map-space f (s ∷ ss) (suc i) j same = map-space f ss i j same

  length-map_spaces : (f : Space H → Space H) (ss : List (Space H)) → length (map f ss) ≡ length ss
  length-map_spaces f [] = refl
  length-map_spaces f (s ∷ ss) = ap suc (length-map_spaces f ss)

  new_batch-tokens : (s : Space H) → (new_batch s).tokens ≡ s.tokens
  unfolding new_batch
  new_batch-tokens s = refl

  pub new_batch-token_at :
      (m : Manager Map H) (i j : ℕ)
      → token_at dict (manager_new_batch dict m) i j ≡ token_at dict m i j
  unfolding manager_new_batch
  new_batch-token_at m i j = map-space new_batch m.indexes i j new_batch-tokens

  new_batch-rest :
      (m : Manager Map H)
      → ((manager_new_batch dict m).exact ≡ m.exact)
        × (length (manager_new_batch dict m).indexes ≡ length m.indexes)
  unfolding manager_new_batch
  new_batch-rest m = (refl, length-map_spaces new_batch m.indexes)

  -- `NewBatch` keeps the invariant: it forgets which words are fresh, and no word.
  pub manager_new_batch-IsIndexed :
      (m : Manager Map H) → IsIndexed dict m → IsIndexed dict (manager_new_batch dict m)
  manager_new_batch-IsIndexed m inv =
      let (exact, size) = new_batch-rest m in
      record {
        spaces = size ∙ inv.spaces;
        found = λ word tid h.
            let l = inv.found word tid (rw exact at h) in
            record {
              measured = l.measured;
              long = l.long;
              short = l.short;
              token = l.token;
              stored = new_batch-token_at m (length word - 4) tid.id_ ∙ l.stored;
              named = l.named;
            };
        sound = λ i j t h. inv.sound i j t (sym (new_batch-token_at m i j) ∙ h);
        known = λ i j t h. rw exact (inv.known i j t (sym (new_batch-token_at m i j) ∙ h));
      }
