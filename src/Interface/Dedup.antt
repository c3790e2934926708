-- ===== src/Interface/Dedup.antt =====
-- JobScheduler/JobDedup.cpp: the job that gives the words of a document to the token manager. The mutex and the pool of
-- buffers that the document is copied into are left out.
use sigmod_programming_conte.Base.{
  ℕ, ◌+◌, ◌-◌, ◌≤◌, ◌≡◌, refl, ap, ◌∙◌, Bool, true, false, Option, some, List, [], ◌∷◌, ◌++◌,
  length, length-set, get_elem?, get_elem?_of_lt, set, if◌then◌else◌, ◌>>=◌, arith, All, Bool-cases,
  inl, inr,
}
use sigmod_programming_conte.Core.{CString, ErrorCode, token_exists_in_batch, TokenId, key}
use sigmod_programming_conte.Library.{DenseMap}
use sigmod_programming_conte.Manager.Defs.{Manager, manager_add_doc_token}
use sigmod_programming_conte.Manager.Index.{IsIndexed}
use sigmod_programming_conte.Manager.Words.{manager_add_doc_token-Stores}
use sigmod_programming_conte.Interface.Reading.{document_words}
use sigmod_programming_conte.Interface.Splitting.{IsWord, join, document_words-join}

-- `ecode != TOKENEXISTSINBATCH` fails.
unfoldable pub in_batch : ErrorCode → Bool
in_batch token_exists_in_batch = true
in_batch _ = false

-- What the job shares with the others: the manager, the new words of the batch by length, and the documents read.
pub record Batch (M : Type 0) : Type 0 where
  pub manager : M
  pub wordbatchv : List (List ℕ)
  pub globaldocs : List ℕ

module _ {H : Type 0} (dict : DenseMap CString TokenId) where
  open dict use {Map, find}

  -- The end of a round: `AddDocToken`, and the key of the word in `wordbatchv` unless the batch has it.
  unfoldable pub batch_word :
      ℕ → ℕ → CString → Batch (Manager Map H) → Option (Batch (Manager Map H))
  batch_word did batchno word st = do
    r ← manager_add_doc_token dict word (length word) did batchno st.manager
    if in_batch r.1 then some (record st { manager = r.0 }) else do
      gid ← r.2
      keys ← get_elem? st.wordbatchv (length word - 4)
      some (record st {
        manager = r.0;
        wordbatchv = set st.wordbatchv (length word - 4) (keys ++ key gid ∷ []);
      })

  -- The rounds, one for each word.
  unfoldable pub batch_words :
      ℕ → ℕ → List CString → Batch (Manager Map H) → Option (Batch (Manager Map H))
  batch_words did batchno [] st = some st
  batch_words did batchno (w ∷ ws) st = do
    st' ← batch_word did batchno w st
    batch_words did batchno ws st'

  -- `JobDedup::Run`, with `fuel` rounds.
  unfoldable pub run_dedup :
      ℕ → ℕ → ℕ → CString → Batch (Manager Map H) → Option (Batch (Manager Map H))
  run_dedup fuel dn batchno cur_doc_str st = do
    ws ← document_words fuel cur_doc_str
    st' ← batch_words (dn + 1) batchno ws st
    some (record st' { globaldocs = st'.globaldocs ++ (dn + 1) ∷ [] })

-- A word of 4 to 31 bytes.
abbrev pub IsDocWord : CString → Type 0
IsDocWord w = IsWord w × (4 ≤ length w) × (length w ≤ 31)

module _ {H : Type 0} (dict : DenseMap CString TokenId) (blank : dict.empty_key ≡ [])
    (did batchno : ℕ) where
  open dict use {Map, find}

  -- The words were added, and the dictionary kept what it had.
  pub record Batched (st : Batch (Manager Map H)) (ws : List CString)
      (r : Option (Batch (Manager Map H))) : Type 0 where
    pub after : Batch (Manager Map H)
    pub ran : r ≡ some after
    pub indexed : IsIndexed dict after.manager
    pub sized : length after.wordbatchv ≡ 28
    pub entered : All (λ w. (gid : TokenId) × (find w after.manager.exact ≡ some gid)) ws
    pub kept :
        (s : CString) (tid : TokenId)
        → find s st.manager.exact ≡ some tid
        → find s after.manager.exact ≡ some tid
    pub documents : after.globaldocs ≡ st.globaldocs

  module _ (st : Batch (Manager Map H)) (inv : IsIndexed dict st.manager)
      (size : length st.wordbatchv ≡ 28) where
    batch_word-Batched :
        (w : CString)
        → 4 ≤ length w
        → length w ≤ 31
        → Batched st (w ∷ []) (batch_word dict did batchno w st)
    unfolding batch_word
    batch_word-Batched w long short =
        let a = manager_add_doc_token-Stores dict blank st.manager w inv long short did batchno in
        let (keys, e) = get_elem?_of_lt st.wordbatchv (length w - 4) (omega arith) in
        elim (Bool-cases (in_batch a.code)) [
          | inl known ↦ record {
            after = record st { manager = a.after };
            ran = rw (a.returned, known) refl;
            indexed = a.indexed;
            sized = size;
            entered = ((a.gid, a.entered), tt);
            kept = a.kept;
            documents = refl;
          }
          | inr fresh ↦ record {
            after = record st {
              manager = a.after;
              wordbatchv = set st.wordbatchv (length w - 4) (keys ++ key a.gid ∷ []);
            };
            ran = rw (a.returned, fresh, e) refl;
            indexed = a.indexed;
            sized = rw length-set size;
            entered = ((a.gid, a.entered), tt);
            kept = a.kept;
            documents = refl;
          }
        ]

  batch_words-Batched :
      (ws : List CString) (st : Batch (Manager Map H))
      → IsIndexed dict st.manager
      → length st.wordbatchv ≡ 28
      → All IsDocWord ws
      → Batched st ws (batch_words dict did batchno ws st)
  unfolding batch_words
  batch_words-Batched [] st inv size h = record {
    after = st;
    ran = refl;
    indexed = inv;
    sized = size;
    entered = tt;
    kept = λ s tid e. e;
    documents = refl;
  }
  batch_words-Batched (w ∷ ws) st inv size h =
      let a = batch_word-Batched st inv size w h.0.1 h.0.2 in
      let b = batch_words-Batched ws a.after a.indexed a.sized h.1 in
      record {
        after = b.after;
        ran = rw (a.ran, b.ran) refl;
        indexed = b.indexed;
        sized = b.sized;
        entered = ((a.entered.0.0, b.kept w a.entered.0.0 a.entered.0.1), b.entered);
        kept = λ s tid e. b.kept s tid (a.kept s tid e);
        documents = b.documents ∙ a.documents;
      }

All-IsWord : (ws : List CString) → All IsDocWord ws → All IsWord ws
All-IsWord [] h = tt
All-IsWord (w ∷ ws) h = (h.0.0, All-IsWord ws h.1)

module _ {H : Type 0} (dict : DenseMap CString TokenId) (blank : dict.empty_key ≡ []) where
  open dict use {Map, find}

  -- With the invariant of the manager and 28 lists of new words, the job for a document of words of 4 to 31
  -- bytes with one space between them ends. The manager keeps the invariant, its dictionary then has every word of the
  -- document, and the number of the document is the last of the documents read.
  pub run_dedup_lem :
      (dn batchno : ℕ) (w : CString) (ws : List CString) (st : Batch (Manager Map H))
      → IsIndexed dict st.manager
      → length st.wordbatchv ≡ 28
      → All IsDocWord (w ∷ ws)
      → (st' : Batch (Manager Map H)) × (run_dedup dict (length ws + 1) dn batchno (join w ws) st
          ≡ some st')
        × IsIndexed dict st'.manager
        × All (λ v. (gid : TokenId) × (find v st'.manager.exact ≡ some gid)) (w ∷ ws)
        × (st'.globaldocs ≡ st.globaldocs ++ (dn + 1) ∷ [])
  unfolding run_dedup
  run_dedup_lem dn batchno w ws st inv size h =
      let words = document_words-join w ws h.0.0 (All-IsWord ws h.1) in
      let b = batch_words-Batched dict blank (dn + 1) batchno (w ∷ ws) st inv size h in
      (
        record (b.after) { globaldocs = (b.after).globaldocs ++ (dn + 1) ∷ [] },
        rw (words, b.ran) refl,
        b.indexed,
        b.entered,
        ap (λ l. l ++ (dn + 1) ∷ []) b.documents,
      )
