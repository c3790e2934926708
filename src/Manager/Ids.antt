-- ===== src/Manager/Ids.antt =====
-- The ids that `TokenManager` gives out: `GetTokenString` and the dictionary are inverse, and each
-- word keeps its id.
use sigmod_programming_conte.Base.{
  some_inj, dec_lt, ◌⊎◌, ◌↔◌, suc, zero, ℕ, ◌+◌, ◌-◌, ◌≤◌, ◌<◌, ◌≡◌, ◌≢◌, refl, sym, ap, ◌∙◌,
  Option, some, none, [], length, arith, inl, inr, ◌>>=◌, >>=-eq-some, get_elem?,
}
use sigmod_programming_conte.Core.{CString, MatchType, ErrorCode, out_of_range, TokenId}
use sigmod_programming_conte.Library.{DenseMap}
use sigmod_programming_conte.Dictionary.{look_up}
use sigmod_programming_conte.Token.Defs.{TokenInfo}
use sigmod_programming_conte.Space.Defs.{Space, get_token_string, init_space}
use sigmod_programming_conte.Manager.Defs.{
  Manager, space_at, manager_add_query_token, manager_add_doc_token, manager_token_string,
  new_manager, init_from,
}
use sigmod_programming_conte.Manager.Index.{token_at, IsIndexed}
use sigmod_programming_conte.Manager.Words.{
  manager_add_query_token-Stores, manager_add_doc_token-Stores,
}

look_up-find :
    (dict : DenseMap CString TokenId) (word : CString) (m : dict.Map) (gid : TokenId)
    → (look_up dict word m).0 ≡ some gid
    → dict.find word m ≡ some gid
unfolding look_up
look_up-find dict word m gid h = ground arith

find-look_up :
    (dict : DenseMap CString TokenId) (word : CString) (m : dict.Map) (gid : TokenId)
    → dict.find word m ≡ some gid
    → (look_up dict word m).0 ≡ some gid
unfolding look_up
find-look_up dict word m gid h = ground arith

module _ {H : Type 0} (dict : DenseMap CString TokenId) where
  open dict use {Map, find}

  string_of :
      (m : Manager Map H) (gid : TokenId) (word : CString)
      → manager_token_string dict gid m ≡ some word
      → (t : TokenInfo) × (token_at dict m (gid.length_ - 4) gid.id_ ≡ some t)
        × (t.tokenstring ≡ word)
  unfolding manager_token_string get_token_string
  string_of m gid word h =
      let (s, here, rest) = >>=-eq-some (space_at dict m (gid.length_ - 4)) _ h in
      let (t, there, same) = >>=-eq-some (get_elem? s.tokens gid.id_) _ rest in
      (t, rw here there, some_inj same)

  string_at :
      (m : Manager Map H) (gid : TokenId) (t : TokenInfo)
      → token_at dict m (gid.length_ - 4) gid.id_ ≡ some t
      → manager_token_string dict gid m ≡ some t.tokenstring
  unfolding manager_token_string get_token_string
  string_at m gid t h =
      let (s, here, there) = >>=-eq-some (space_at dict m (gid.length_ - 4)) _ h in
      rw (here, there) refl

  -- With the invariant, `GetTokenString` and the look-up in the dictionary are inverse: for an id whose length
  -- is at least 4, `GetTokenString` gives the word exactly if the dictionary has the word under that id.
  pub manager_token_string-look_up :
      (m : Manager Map H)
      → IsIndexed dict m
      → (gid : TokenId) → 4 ≤ gid.length_
      → (word : CString)
      → (manager_token_string dict gid m ≡ some word) ↔ ((look_up dict word m.exact).0 ≡ some gid)
  manager_token_string-look_up m inv gid long word = (
    λ h.
        let (t, stored, name) = string_of m gid word h in
        let (size, there) = inv.known (gid.length_ - 4) gid.id_ t stored in
        let same : gid.length_ - 4 + 4 ≡ gid.length_ = omega arith in
        find-look_up dict word m.exact gid (rw (name, same) at there),
    λ h.
        let l = inv.found word gid (look_up-find dict word m.exact gid h) in
        string_at m gid l.token (rw l.measured l.stored) ∙ ap some l.named,
  )

  init_from-tokens :
      (none_yet : H) (n i k : ℕ) (s : Space H)
      → get_elem? (init_from dict none_yet n i) k ≡ some s
      → s.tokens ≡ []
  unfolding init_from init_space
  init_from-tokens none_yet zero i k s h = ground arith
  init_from-tokens none_yet (suc n) i zero s h = cc (ap (λ (x : Space H). x.tokens) (some_inj h))
  init_from-tokens none_yet (suc n) i (suc k) s h = init_from-tokens none_yet n (i + 1) k s h

  nothing_stored :
      (none_yet : H) (i j : ℕ) {t : TokenInfo}
      → token_at dict (new_manager dict none_yet) i j ≢ some t
  unfolding new_manager
  nothing_stored none_yet i j {t} h =
      let (s, here, there) = >>=-eq-some (space_at dict (new_manager dict none_yet) i) _ h in
      let bare : s.tokens ≡ [] = init_from-tokens none_yet 28 0 i s here in
      absurd (ground (arith, rw bare at there))

  spaces_of : (none_yet : H) → length (new_manager dict none_yet).indexes ≡ 28
  unfolding new_manager init_from
  spaces_of none_yet = refl

  none_of :
      (none_yet : H) (s : CString) (tid : TokenId)
      → find s (new_manager dict none_yet).exact ≢ some tid
  unfolding new_manager
  none_of none_yet s tid h = ground (arith, dict.find-empty s)

  -- Two words under one id are one word.
  token_unique :
      (m : Manager Map H)
      → IsIndexed dict m
      → (v w : CString) (g h : TokenId) → g ≡ h
      → find v m.exact ≡ some g
      → find w m.exact ≡ some h
      → v ≡ w
  token_unique m inv v w g h e a b =
      let x = inv.found v g a in
      let y = inv.found w h b in
      some_inj (
        sym (string_at m g x.token (rw x.measured x.stored) ∙ ap some x.named)
        ∙ ap (λ t. manager_token_string dict t m) e
        ∙ string_at m h y.token (rw y.measured y.stored)
        ∙ ap some y.named)

  -- The constructor establishes the invariant of the manager.
  pub new_manager-IsIndexed : (none_yet : H) → IsIndexed dict (new_manager dict none_yet)
  new_manager-IsIndexed none_yet = record {
    spaces = spaces_of none_yet;
    found = λ s tid h. absurd (none_of none_yet s tid h);
    sound = λ i j t h. absurd (nothing_stored none_yet i j h);
    known = λ i j t h. absurd (nothing_stored none_yet i j h);
  }

module _ {H : Type 0} (dict : DenseMap CString TokenId) (blank : dict.empty_key ≡ [])
    (m : Manager dict.Map H) (inv : IsIndexed dict m) where
  -- A word added by a query and then by a document, and the word that `gid` stands for then.
  abbrev pub query_then_doc :
      CString
      → ℕ
      → ℕ
      → MatchType
      → ℕ
      → ℕ
      → ℕ
      → ℕ
      → TokenId
      → Option (Option TokenId × Option TokenId × CString)
  query_then_doc word qmid position mt dist batch did batchid gid = do
    a ← manager_add_query_token dict word (length word) qmid position mt dist batch m
    b ← manager_add_doc_token dict word (length word) did batchid a.0
    name ← manager_token_string dict gid b.0
    some (a.2, b.2, name)

  -- Two words added by a document.
  abbrev pub doc_then_doc : CString → CString → ℕ → ℕ → Option (Option TokenId × Option TokenId)
  doc_then_doc v w did batchid = do
    a ← manager_add_doc_token dict v (length v) did batchid m
    b ← manager_add_doc_token dict w (length w) did batchid a.0
    some (a.2, b.2)

  -- With the invariant, a query and then a document that add the same word, of 4 to 31 bytes, are given the
  -- same id, and `GetTokenString` then gives the word for it.
  pub query_then_doc_share_id :
      (word : CString)
      → 4 ≤ length word
      → length word ≤ 31
      → (qmid position : ℕ) (mt : MatchType) (dist batch did batchid : ℕ)
      → (gid : TokenId) × (query_then_doc word qmid position mt dist batch did batchid gid
          ≡ some (some gid, some gid, word))
  query_then_doc_share_id word long short qmid position mt dist batch did batchid =
      let a =
        manager_add_query_token-Stores dict blank m word inv long short qmid position mt dist
          batch in
      let b =
        manager_add_doc_token-Stores dict blank a.after word a.indexed long short did batchid in
      let same : b.gid ≡ a.gid = some_inj (sym b.entered ∙ b.kept word a.gid a.entered) in
      let size : b.gid.length_ ≡ length word = (b.indexed.found word b.gid b.entered).measured in
      let name =
        (manager_token_string-look_up dict b.after b.indexed b.gid (omega arith) word).1
          (find-look_up dict word b.after.exact b.gid b.entered) in
      (b.gid, rw (a.returned, b.returned, name, same) refl)

  -- With the invariant, two different words of 4 to 31 bytes, added one after the other, are given different ids.
  pub different_words_different_ids :
      (v w : CString)
      → 4 ≤ length v
      → length v ≤ 31
      → 4 ≤ length w
      → length w ≤ 31
      → v ≢ w
      → (did batchid : ℕ)
      → (g h : TokenId) × (doc_then_doc v w did batchid ≡ some (some g, some h)) × (g ≢ h)
  different_words_different_ids v w lv sv lw sw ne did batchid =
      let a = manager_add_doc_token-Stores dict blank m v inv lv sv did batchid in
      let b = manager_add_doc_token-Stores dict blank a.after w a.indexed lw sw did batchid in
      let x = b.indexed.found v a.gid (b.kept v a.gid a.entered) in
      let y = b.indexed.found w b.gid b.entered in
      (
        a.gid,
        b.gid,
        rw (a.returned, b.returned) refl,
        λ e. ne (
            token_unique dict b.after b.indexed v w a.gid b.gid e (b.kept v a.gid a.entered)
              b.entered),
      )

  -- With the invariant, `AddDocToken` faults exactly on words of more than 31 bytes, refuses exactly
  -- those of less than 4 with the state unchanged, and gives all others an id, for which
  -- `GetTokenString` then gives the word back, and keeps the invariant.
  pub manager_add_doc_token_lem :
      (word : CString) (did batchid : ℕ)
      → let r = manager_add_doc_token dict word (length word) did batchid m in
        ((31 < length word) × (r ≡ none))
        ⊎ ((length word < 4) × (r ≡ some (m, out_of_range, none)))
        ⊎ ((4 ≤ length word)
            × (length word ≤ 31)
            × (m' : Manager dict.Map H) × (code : ErrorCode) × (gid : TokenId) × (r
                ≡ some (m', code, some gid))
            × (manager_token_string dict gid m' ≡ some word)
            × IsIndexed dict m')
  unfolding manager_add_doc_token
  manager_add_doc_token_lem word did batchid = elim (dec_lt 31 (length word)) [
    | yes long ↦ inl (long, ground arith)
    | no short ↦ elim (dec_lt (length word) 4) [
      | yes few ↦ inr (inl (few, ground arith))
      | no enough ↦
          let lo : 4 ≤ length word = omega arith in
          let hi : length word ≤ 31 = omega arith in
          let a = manager_add_doc_token-Stores dict blank m word inv lo hi did batchid in
          let long : 4 ≤ a.gid.length_ =
            omega (arith, (a.indexed.found word a.gid a.entered).measured) in
          let name =
            (manager_token_string-look_up dict a.after a.indexed a.gid long word).1
              (find-look_up dict word a.after.exact a.gid a.entered) in
          inr (inr (lo, hi, a.after, a.code, a.gid, a.returned, name, a.indexed))
    ]
  ]
