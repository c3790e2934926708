-- ===== src/Interface/RunEnd.antt =====
-- `RunEnd` leaves the token manager ready for the next batch.
use sigmod_programming_conte.Base.{
  ℕ, ◌+◌, ◌-◌, ◌≡◌, refl, ap, ◌∙◌, Bool, true, false, ◌&&◌, Option, some, none, List, [], ◌∷◌, map,
  some_inj, get_elem?, set, if◌then◌else◌, ◌==◌, ◌>>=◌, >>=-eq-some, arith, All, Bool-cases, inl,
  inr,
}
use sigmod_programming_conte.Core.{CString, TokenId}
use sigmod_programming_conte.Library.{DenseMap}
use sigmod_programming_conte.Token.Defs.{TokenInfo, clear_ids}
use sigmod_programming_conte.Space.Defs.{Space}
use sigmod_programming_conte.Manager.Defs.{
  Manager, space_at, put_space, manager_new_batch, manager_restart,
}
use sigmod_programming_conte.Manager.Index.{
  IsSound, token_at, IsIndexed, Writes, replaced-IsIndexed, token_at_replaced,
}
use sigmod_programming_conte.Manager.Steps.{manager_new_batch-IsIndexed, new_batch-token_at}
use sigmod_programming_conte.Manager.Restart.{manager_restart-IsIndexed, docs-manager_restart}
use sigmod_programming_conte.Matching.Relations.{WordSat}
use sigmod_programming_conte.Results.Generate.{wid_of}
use sigmod_programming_conte.Interface.Server.{State, clear_word, clear_words, clear_lists, run_end}

cleared-IsSound : (t : TokenInfo) → IsSound t → IsSound (record t { docpointer = some [] })
cleared-IsSound t h = record {
  consistent = record {
    width = h.consistent.width;
    small = h.consistent.small;
    mirrors = h.consistent.mirrors;
    pruned = h.consistent.pruned;
  };
  documented = λ e. ([], refl);
}

All-weaken : {P Q : ℕ → Type 0} (its : List ℕ) → All P its → ((x : ℕ) → P x → Q x) → All Q its
All-weaken [] h k = tt
All-weaken (it ∷ its) h k = (k it h.0, All-weaken its h.1 k)

All-kept :
    {P Q : ℕ → Type 0} (lists : List (List ℕ))
    → All (All P) lists
    → ((x : ℕ) → P x → Q x)
    → All (All Q) lists
All-kept [] h k = tt
All-kept (its ∷ lists) h k = (All-weaken its h.0 k, All-kept lists h.1 k)

bind_if :
    (b : Bool) (u : TokenInfo) (o : Option TokenInfo)
    → ((if b then some u else o) >>= λ t. some t.docpointer)
      ≡ (if b then some u.docpointer else (o >>= λ t. some t.docpointer))
bind_if true u o = refl
bind_if false u o = refl

module _ (H : Type 0) (dict : DenseMap CString TokenId) (qids : DenseMap ℕ ℕ)
    (tables : DenseMap ℕ (List WordSat)) where
  -- The documents of the word with this key, if it is stored.
  abbrev pub docs_of : Manager dict.Map H → ℕ → Option (Option (List ℕ))
  docs_of m it = do t ← token_at dict m ((wid_of it).length_ - 4) (wid_of it).id_; some t.docpointer

  -- The word with this key is stored, and has a list of documents.
  abbrev pub HasDocs : Manager dict.Map H → ℕ → Type 0
  HasDocs m it = (docs : List ℕ) × (docs_of m it ≡ some (some docs))

  -- `m'` keeps the invariant; the lists of documents are those of `m`, but empty for some words.
  record Clears (m m' : Manager dict.Map H) : Type 0 where
    indexed : IsIndexed dict m'
    kept : (it : ℕ) → HasDocs m it → HasDocs m' it
    empty : (it : ℕ) → docs_of m it ≡ some (some []) → docs_of m' it ≡ some (some [])

  clear_word_runs :
      (m : Manager dict.Map H) (it : ℕ) (s : Space H) (t : TokenInfo) (docs : List ℕ)
      → space_at dict m ((wid_of it).length_ - 4) ≡ some s
      → get_elem? s.tokens (wid_of it).id_ ≡ some t
      → t.docpointer ≡ some docs
      → clear_word H dict qids tables it m
        ≡ some (
            put_space dict m ((wid_of it).length_ - 4) (record s {
              tokens = set s.tokens (wid_of it).id_ (record t { docpointer = some [] });
            }))
  unfolding clear_word clear_ids
  clear_word_runs m it s t docs here there listed = rw (here, there, listed) refl

  clear_word-Clears :
      (m : Manager dict.Map H) (it : ℕ)
      → IsIndexed dict m
      → HasDocs m it
      → (m' : Manager dict.Map H) × (clear_word H dict qids tables it m ≡ some m')
        × Clears m m'
        × (docs_of m' it ≡ some (some []))
  clear_word-Clears m it inv (docs, has) =
      let i = (wid_of it).length_ - 4 in
      let j = (wid_of it).id_ in
      let (t, stored, listed) = >>=-eq-some (token_at dict m i j) (λ t. some t.docpointer) has in
      let (s, here, there) = >>=-eq-some (space_at dict m i) (λ s. get_elem? s.tokens j) stored in
      let u = record t { docpointer = some [] } in
      let s' = record s { tokens = set s.tokens j u } in
      let m' = put_space dict m i s' in
      let w : Writes dict m m' i s s' = record { here = here; put = refl } in
      let at = token_at_replaced dict m m' i s s' w j t u there refl in
      let over : (x : ℕ)
          → docs_of m' x ≡ (
              if i == (wid_of x).length_ - 4 && j == (wid_of x).id_
              then some (some [])
              else docs_of m x) =
        λ x.
          ap (λ o. o >>= λ t. some t.docpointer) (at ((wid_of x).length_ - 4) (wid_of x).id_)
          ∙ bind_if (i == (wid_of x).length_ - 4 && j == (wid_of x).id_) u
              (token_at dict m ((wid_of x).length_ - 4) (wid_of x).id_) in
      (
        m',
        clear_word_runs m it s t docs here there (some_inj listed),
        record {
          indexed =
              replaced-IsIndexed dict m m' i s s' w j t u there refl refl refl
                (cleared-IsSound t (inv.sound i j t stored)) inv;
          kept = λ x h. elim (Bool-cases (i == (wid_of x).length_ - 4 && j == (wid_of x).id_)) [
            | inl e ↦ ([], over x ∙ rw e refl)
            | inr e ↦ (h.0, over x ∙ rw e h.1)
          ];
          empty = λ x h. elim (Bool-cases (i == (wid_of x).length_ - 4 && j == (wid_of x).id_)) [
            | inl e ↦ over x ∙ rw e refl
            | inr e ↦ over x ∙ rw e h
          ];
        },
        over it ∙ itself i j (docs_of m it),
      )
    where
      itself :
          (i j : ℕ) (o : Option (Option (List ℕ)))
          → (if i == i && j == j then some (some []) else o) ≡ some (some [])
      itself i j o = ground arith

  clear_words-Clears :
      (its : List ℕ) (m : Manager dict.Map H)
      → IsIndexed dict m
      → All (HasDocs m) its
      → (m' : Manager dict.Map H) × (clear_words H dict qids tables its m ≡ some m')
        × Clears m m'
        × All (λ it. docs_of m' it ≡ some (some [])) its
  unfolding clear_words
  clear_words-Clears [] m inv h =
      (m, refl, record { indexed = inv; kept = λ x k. k; empty = λ x k. k }, tt)
  clear_words-Clears (it ∷ its) m inv h =
      let (m1, ran1, c1, now) = clear_word-Clears m it inv h.0 in
      let (m2, ran2, c2, all) = clear_words-Clears its m1 c1.indexed (All-weaken its h.1 c1.kept) in
      (
        m2,
        rw ran1 ran2,
        record {
          indexed = c2.indexed;
          kept = λ x k. c2.kept x (c1.kept x k);
          empty = λ x k. c2.empty x (c1.empty x k);
        },
        (c2.empty it now, all),
      )

  clear_lists-Clears :
      (lists : List (List ℕ)) (m : Manager dict.Map H)
      → IsIndexed dict m
      → All (All (HasDocs m)) lists
      → (m' : Manager dict.Map H) × (clear_lists H dict qids tables lists m ≡ some m')
        × Clears m m'
        × All (All (λ it. docs_of m' it ≡ some (some []))) lists
  unfolding clear_lists
  clear_lists-Clears [] m inv h =
      (m, refl, record { indexed = inv; kept = λ x k. k; empty = λ x k. k }, tt)
  clear_lists-Clears (its ∷ lists) m inv h =
      let (m1, ran1, c1, now) = clear_words-Clears its m inv h.0 in
      let (m2, ran2, c2, all) =
        clear_lists-Clears lists m1 c1.indexed (All-kept lists h.1 (λ x. c1.kept x)) in
      (
        m2,
        rw ran1 ran2,
        record {
          indexed = c2.indexed;
          kept = λ x k. c2.kept x (c1.kept x k);
          empty = λ x k. c2.empty x (c1.empty x k);
        },
        (All-weaken its now (λ x. c2.empty x), all),
      )

  docs_of-new_batch :
      (m : Manager dict.Map H) (it : ℕ) → docs_of (manager_new_batch dict m) it ≡ docs_of m it
  docs_of-new_batch m it =
      ap (λ o. o >>= λ t. some t.docpointer)
        (new_batch-token_at dict m ((wid_of it).length_ - 4) (wid_of it).id_)

  docs_of-restart :
      (cleared : H) (m : Manager dict.Map H) (it : ℕ)
      → docs_of (manager_restart dict cleared m) it ≡ docs_of m it
  docs_of-restart cleared m it =
      docs-manager_restart dict cleared m ((wid_of it).length_ - 4) (wid_of it).id_

  -- `RunEnd` returns, if the words of the batch are stored and have lists of documents. Whether it restarts the
  -- manager or not, the manager keeps the invariant, the words of the batch then have no documents, and the lists of the
  -- batch are empty.
  pub run_end-IsIndexed :
      (much_memory : Bool) (cleared : H) (s : State H dict qids tables)
      → IsIndexed dict s.globalmanager
      → All (All (HasDocs s.globalmanager)) s.wordbatchv
      → (s' : State H dict qids tables) × (run_end H dict qids tables much_memory cleared s
          ≡ some s')
        × IsIndexed dict s'.globalmanager
        × All (All (λ it. docs_of s'.globalmanager it ≡ some (some []))) s.wordbatchv
        × All (λ (l : List ℕ). l ≡ []) s'.wordbatchv
        × (s'.globaldocs ≡ [])
        × (s'.docids.size ≡ 0)
        × (s'.batchno ≡ s.batchno + 1)
  unfolding run_end
  run_end-IsIndexed much_memory cleared s inv has =
      let m1 = manager_new_batch dict s.globalmanager in
      let (m2, ran, c, all) =
        clear_lists-Clears s.wordbatchv m1 (manager_new_batch-IsIndexed dict s.globalmanager inv)
          (All-kept s.wordbatchv has (λ x h. (h.0, docs_of-new_batch s.globalmanager x ∙ h.1))) in
      let (indexed, empties) = restarted much_memory m2 c.indexed all in
      (
        record s {
          globalmanager = if much_memory then manager_restart dict cleared m2 else m2;
          rel = if much_memory then map (λ r. tables.empty) s.rel else s.rel;
          globaldocs = [];
          docids = record { storage = (s.docids).storage; size = 0 };
          batchno = s.batchno + 1;
          wordbatchv = map (λ l. []) s.wordbatchv;
          bits = none;
        },
        rw ran refl,
        indexed,
        empties,
        all_empty s.wordbatchv,
        refl,
        refl,
        refl,
      )
    where
      restarted :
          (b : Bool) (m : Manager dict.Map H)
          → IsIndexed dict m
          → All (All (λ it. docs_of m it ≡ some (some []))) s.wordbatchv
          → IsIndexed dict (if b then manager_restart dict cleared m else m)
            × All
                (All (λ it.
                  docs_of (if b then manager_restart dict cleared m else m) it ≡ some (some [])))
                s.wordbatchv
      restarted true m h all = (
        manager_restart-IsIndexed dict cleared m h,
        All-kept s.wordbatchv all (λ x e. docs_of-restart cleared m x ∙ e),
      )
      restarted false m h all = (h, all)

      all_empty :
          (lists : List (List ℕ)) → All (λ (l : List ℕ). l ≡ []) (map (λ (l : List ℕ). []) lists)
      all_empty [] = tt
      all_empty (l ∷ lists) = (refl, all_empty lists)
