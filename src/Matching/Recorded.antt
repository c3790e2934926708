-- ===== src/Matching/Recorded.antt =====
-- `SetDimis` records every word that the comparison finds.
use mathlib.Core.Option.{get_or}
use sigmod_programming_conte.Base.{
  some_inj, ℕ, ◌≡◌, ◌≢◌, refl, sym, ◌∙◌, Bool, true, false, ◌||◌, ◌&&◌, not, Option, some, List, [],
  ◌∷◌, ◌++◌, ◌==◌, arith, Bool-cases, inl, inr, eq→==, ==→eq,
}
use sigmod_programming_conte.Core.{CString, TokenId, key}
use sigmod_programming_conte.Library.{DenseMap}
use sigmod_programming_conte.Token.Defs.{TokenInfo}
use sigmod_programming_conte.Token.Documents.{holds}
use sigmod_programming_conte.Manager.Defs.{Manager, manager_token_info}
use sigmod_programming_conte.Distance.Same.{stavroshtein}
use sigmod_programming_conte.Matching.Relations.{
  WordSat, relations_add, relations_add_lem, get_tids,
}
use sigmod_programming_conte.Matching.Compare.{Found, record_match, set_dimis}

-- Whether a vector has an entry for a word.
abbrev pub mentions_tid : TokenId → List WordSat → Bool
mentions_tid tid [] = false
mentions_tid tid (w ∷ ws) =
    (w.tid.length_ == tid.length_ && w.tid.id_ == tid.id_) || mentions_tid tid ws

mentions_tid-append_left :
    (tid : TokenId) (ws vs : List WordSat)
    → mentions_tid tid ws ≡ true
    → mentions_tid tid (ws ++ vs) ≡ true
mentions_tid-append_left tid [] vs h = ground arith
mentions_tid-append_left tid (w ∷ ws) vs h = ground (arith, mentions_tid-append_left tid ws vs)

mentions_tid-append_self :
    (tid : TokenId) (n : ℕ) (ws : List WordSat)
    → mentions_tid tid (ws ++ record { tid = tid; matchtype = n } ∷ []) ≡ true
mentions_tid-append_self tid n [] = ground arith
mentions_tid-append_self tid n (w ∷ ws) = ground (arith, mentions_tid-append_self tid n ws)

module _ (rels : DenseMap ℕ (List WordSat)) (tid : TokenId) where
  -- The relations list `tid` for the word with the key `k`.
  abbrev pub lists_match : ℕ → rels.Map → Bool
  lists_match k rel = mentions_tid tid (get_or (get_tids rels k rel) [])

  relations_add-keeps :
      (wid : TokenId) (n k : ℕ) (rel : rels.Map)
      → key wid ≢ rels.empty_key
      → lists_match k rel ≡ true
      → lists_match k (relations_add rels wid tid n rel) ≡ true
  relations_add-keeps wid n k rel ok h = rw (relations_add_lem rels wid tid n k rel ok) (
      ground (
        arith,
        mentions_tid-append_left tid (get_or (get_tids rels k rel) [])
            (record { tid = tid; matchtype = n } ∷ []),
      ))

  relations_add-new :
      (wid : TokenId) (n : ℕ) (rel : rels.Map)
      → key wid ≢ rels.empty_key
      → lists_match (key wid) (relations_add rels wid tid n rel) ≡ true
  relations_add-new wid n rel ok =
      rw (relations_add_lem rels wid tid n (key wid) rel ok, eq→== (key wid) (key wid) refl)
        (mentions_tid-append_self tid n (get_or (get_tids rels (key wid) rel) []))

  -- What is remembered is recorded.
  abbrev pub IsRecorded : Found rels.Map → Type 0
  IsRecorded f = (k : ℕ) → holds k f.memory ≡ true → lists_match k f.rel ≡ true

  record_match-IsRecorded :
      (wid : TokenId) (result : ℕ) (f : Found rels.Map)
      → key wid ≢ rels.empty_key
      → IsRecorded f
      → IsRecorded (record_match rels (key wid) wid tid result f)
  unfolding record_match
  record_match-IsRecorded wid result f ok h k = elim (Bool-cases (result == 0)) [
    | inl e ↦ rw e (h k)
    | inr e ↦ rw e (λ q. elim (Bool-cases (key wid == k)) [
      | inl same ↦ rw (← ==→eq (key wid) k same) (relations_add-new wid result f.rel ok)
      | inr other ↦ relations_add-keeps wid result k f.rel ok (h k (ground arith))
    ])
  ]

  record_match-memory :
      (wid : TokenId) (result k : ℕ) (f : Found rels.Map)
      → holds k (record_match rels (key wid) wid tid result f).memory
        ≡ ((not (result == 0) && key wid == k) || holds k f.memory)
  unfolding record_match
  record_match-memory wid result k f = ground arith

  hit : (n k : ℕ) (b : Bool) → n ≢ 0 → ((not (n == 0) && k == k) || b) ≡ true
  hit n k b ne = ground arith

  module _ {H : Type 0} (dict : DenseMap CString TokenId) (m : Manager dict.Map H)
      (string : CString) (docspace queryspace : ℕ)
      (storable : (id : ℕ) → key (record { length_ = docspace; id_ = id }) ≢ rels.empty_key) where
    abbrev pub doc : ℕ → TokenId
    doc id = record { length_ = docspace; id_ = id }

    -- How a document word compares with the query word.
    abbrev pub answer : TokenInfo → ℕ
    answer t = stavroshtein t.tokenstring string docspace queryspace

    -- What a run of `SetDimis` from `f` came to: it returned, and what it remembers is recorded.
    pub record Runs (ids : List ℕ) (f : Found rels.Map) (r : Option (Found rels.Map)) : Type 0 where
      pub after : Found rels.Map
      pub returned : r ≡ some after
      pub recorded : IsRecorded after
      pub grown : (k : ℕ) → holds k f.memory ≡ true → holds k after.memory ≡ true
      pub met :
          (id : ℕ) (t : TokenInfo)
          → holds id ids ≡ true
          → manager_token_info dict (doc id) m ≡ some t
          → answer t ≢ 0
          → holds (key (doc id)) after.memory ≡ true

    pub set_dimis-Runs :
        (ids : List ℕ) (f : Found rels.Map)
        → ((id : ℕ)
            → holds id ids ≡ true
            → (t : TokenInfo) × (manager_token_info dict (doc id) m ≡ some t))
        → IsRecorded f
        → Runs ids f (set_dimis dict rels ids tid string docspace queryspace m f)
    unfolding set_dimis
    set_dimis-Runs [] f there h = record {
      after = f;
      returned = refl;
      recorded = h;
      grown = λ k q. q;
      met = λ id t q e ne. absurd (ground arith);
    }
    set_dimis-Runs (x ∷ ids) f there h = elim (Bool-cases (holds (key (doc x)) f.memory)) [
      | inl known ↦
          let r = set_dimis-Runs ids f (λ id q. there id (ground arith)) h in
          rw known (record {
            after = r.after;
            returned = r.returned;
            recorded = r.recorded;
            grown = r.grown;
            met = λ id t q e ne. elim (Bool-cases (x == id)) [
              | inl same ↦ r.grown (key (doc id)) (rw (← ==→eq x id same) known)
              | inr other ↦ r.met id t (ground arith) e ne
            ];
          })
      | inr fresh ↦
          let (t, e) = there x (ground arith) in
          let g = record_match rels (key (doc x)) (doc x) tid (answer t) f in
          let r =
            set_dimis-Runs ids g (λ id q. there id (ground arith))
              (record_match-IsRecorded (doc x) (answer t) f (storable x) h) in
          rw (fresh, e)
            (record {
              after = r.after;
              returned = r.returned;
              recorded = r.recorded;
              grown = λ k q. r.grown k (record_match-memory (doc x) (answer t) k f ∙ ground arith);
              met = λ id u q e' ne. elim (Bool-cases (x == id)) [
                | inl same ↦
                    let here : x ≡ id = ==→eq x id same in
                    let word : t ≡ u = some_inj (sym e ∙ rw here e') in
                    r.grown (key (doc id)) (
                      rw (← here) (
                        record_match-memory (doc x) (answer t) (key (doc x)) f
                        ∙ hit (answer t) (key (doc x)) _ (rw word ne)))
                | inr other ↦ r.met id u (ground arith) e' ne
              ];
            })
    ]

    -- If each id of the list is that of a word, `SetDimis` returns, and each word of the list whose comparison with
    -- the query word is not 0 then has an entry for the query word; starting from what the thread had recorded before,
    -- with nothing remembered.
    pub set_dimis-lists :
        (ids : List ℕ) (rel : rels.Map)
        → ((id : ℕ)
            → holds id ids ≡ true
            → (t : TokenInfo) × (manager_token_info dict (doc id) m ≡ some t))
        → (id : ℕ) (t : TokenInfo) → holds id ids ≡ true
        → manager_token_info dict (doc id) m ≡ some t
        → answer t ≢ 0
        → (g : Found rels.Map) × (set_dimis dict rels ids tid string docspace queryspace m
              (record { memory = []; rel = rel })
            ≡ some g)
          × (lists_match (key (doc id)) g.rel ≡ true)
    set_dimis-lists ids rel there id t q e ne =
        let r =
          set_dimis-Runs ids (record { memory = []; rel = rel }) there
            (λ k h. absurd (ground arith)) in
        (r.after, r.returned, r.recorded (key (doc id)) (r.met id t q e ne))
