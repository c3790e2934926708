-- ===== src/Results/Generated.antt =====
-- The flags that `GenerateRes` sets.
use sigmod_programming_conte.Base.{
  ℕ, zero, suc, ◌+◌, ◌-◌, ◌≤◌, ◌≡◌, refl, ap, ◌∙◌, Bool, false, ◌&&◌, Option, none, some, List, [],
  ◌∷◌, length, get_elem?, take, drop, get_elem?_of_lt, arith, All,
}
use sigmod_programming_conte.Core.{CString, TokenId}
use sigmod_programming_conte.Library.{DenseMap}
use sigmod_programming_conte.Token.Defs.{TokenInfo}
use sigmod_programming_conte.Manager.Defs.{Manager, manager_token_info}
use sigmod_programming_conte.Matching.Relations.{WordSat, get_tids}
use sigmod_programming_conte.Results.Bitarea.{Bitarea, set_stauros}
use sigmod_programming_conte.Results.Marks.{
  Marks, IsSized, AreDocs, InRange, has_doc, is_asked, then_Marks, no_Marks, Marks-IsSized,
  set_stauros-Marks,
}
use sigmod_programming_conte.Results.Any.{any, or_none, slice}
use sigmod_programming_conte.Results.Generate.{
  wid_of, generate_tids, generate_vector, generate_rels, generate_words, generate_res,
}

-- Whether a document has a word with these documents.
abbrev pub in_doc : Option (List ℕ) → ℕ → Bool
in_doc none d = false
in_doc (some docs) d = has_doc docs d

-- Whether a match of a document word `dt` with a query word `qt` counts for word `k` of entry `j` in document `i`.
abbrev pub counts_for : Option TokenInfo → Option TokenInfo → ℕ → ℕ → ℕ → ℕ → Bool
counts_for none qt result i j k = false
counts_for (some dt) none result i j k = false
counts_for (some dt) (some qt) result i j k =
    in_doc dt.docpointer (i + 1) && is_asked qt.querypointer result 0 (j + 1) k

-- The documents of a word are those of the batch.
abbrev pub AreDocsOf : ℕ → ℕ → Option (List ℕ) → Type 0
AreDocsOf docs queries none = Unit {0}
AreDocsOf docs queries (some l) = AreDocs docs queries l

module _ {H : Type 0} (dict : DenseMap CString TokenId) (tables : DenseMap ℕ (List WordSat))
    (docs queries : ℕ) (m : Manager dict.Map H) where
  -- The words of a match are stored; the document word is in documents of the batch, and the requests for the query
  -- word name entries that there are.
  pub record Fits (ittt : ℕ) (x : WordSat) : Type 0 where
    pub dt : TokenInfo
    pub qt : TokenInfo
    pub word : manager_token_info dict (wid_of ittt) m ≡ some dt
    pub query : manager_token_info dict x.tid m ≡ some qt
    pub are_docs : AreDocsOf docs queries dt.docpointer
    pub in_range : All (InRange docs queries) qt.querypointer
    pub seven : length qt.querypointer ≡ 7

  -- Whether a match counts.
  abbrev pub match_counts : ℕ → ℕ → ℕ → ℕ → WordSat → Bool
  match_counts ittt i j k x =
      counts_for (manager_token_info dict (wid_of ittt) m) (manager_token_info dict x.tid m)
        x.matchtype i j k

  -- Whether one of the matches of a word that the threads recorded counts.
  abbrev pub word_counts : List tables.Map → ℕ → ℕ → ℕ → ℕ → Bool
  word_counts rels i j k ittt =
      any (λ rel. any (match_counts ittt i j k) (or_none (get_tids tables ittt rel))) rels

  set_stauros_fits :
      (docpointer : Option (List ℕ)) (qt : TokenInfo) (result : ℕ) (b : Bitarea)
      → IsSized docs queries b
      → AreDocsOf docs queries docpointer
      → All (InRange docs queries) qt.querypointer
      → length qt.querypointer ≡ 7
      → Marks b
          (set_stauros docpointer qt.querypointer result b)
          (λ i j k. in_doc docpointer (i + 1) && is_asked qt.querypointer result 0 (j + 1) k)
  unfolding set_stauros
  set_stauros_fits none qt result b sized are_docs in_range seven =
      no_Marks docs queries (λ i j k. refl)
  set_stauros_fits (some doclist) qt result b sized are_docs in_range seven =
      set_stauros-Marks docs queries doclist qt.querypointer result b sized are_docs in_range seven

  generate_tids-Marks :
      (ittt : ℕ) (xs : List WordSat) (b : Bitarea)
      → IsSized docs queries b
      → All (Fits ittt) xs
      → Marks b (generate_tids dict tables m ittt xs b) (λ i j k. any (match_counts ittt i j k) xs)
  unfolding generate_tids
  generate_tids-Marks ittt [] b sized h = no_Marks docs queries (λ i j k. refl)
  generate_tids-Marks ittt (x ∷ xs) b sized h =
      let f = h.0 in
      let one =
        set_stauros_fits (f.dt).docpointer f.qt x.matchtype b sized f.are_docs f.in_range f.seven in
      let rest = generate_tids-Marks ittt xs one.after (Marks-IsSized docs queries sized one) h.1 in
      rw (f.query, f.word)
        (then_Marks docs queries (generate_tids dict tables m ittt xs) one rest (λ i j k. refl))

  generate_rels-Marks :
      (ittt : ℕ) (rels : List tables.Map) (b : Bitarea)
      → IsSized docs queries b
      → All (λ rel. All (Fits ittt) (or_none (get_tids tables ittt rel))) rels
      → Marks b (generate_rels dict tables m ittt rels b) (λ i j k. word_counts rels i j k ittt)
  unfolding generate_rels generate_vector
  generate_rels-Marks ittt [] b sized h = no_Marks docs queries (λ i j k. refl)
  generate_rels-Marks ittt (rel ∷ rels) b sized h =
      let one = of_vector (get_tids tables ittt rel) h.0 in
      let rest =
        generate_rels-Marks ittt rels one.after (Marks-IsSized docs queries sized one) h.1 in
      then_Marks docs queries (generate_rels dict tables m ittt rels) one rest (λ i j k. refl)
    where
      of_vector :
          (v : Option (List WordSat))
          → All (Fits ittt) (or_none v)
          → Marks b
              (generate_vector dict tables m ittt v b)
              (λ i j k. any (match_counts ittt i j k) (or_none v))
      of_vector none h = no_Marks docs queries (λ i j k. refl)
      of_vector (some xs) h = generate_tids-Marks ittt xs b sized h

  -- The keys of a range, one by one.
  next_key :
      (keys : List ℕ) (n i : ℕ) {ittt : ℕ}
      → get_elem? keys i ≡ some ittt
      → take (suc n) (drop i keys) ≡ ittt ∷ take n (drop (suc i) keys)
  next_key [] n i h = absurd (cc h)
  next_key (x ∷ keys) n zero h = cc
  next_key (x ∷ keys) n (suc i) h = next_key keys n i h

  -- Every match that the threads recorded for the words fits.
  abbrev pub AllFit : List tables.Map → List ℕ → Type 0
  AllFit rels = All (λ ittt. All (λ rel. All (Fits ittt) (or_none (get_tids tables ittt rel))) rels)

  generate_words-Marks :
      (rels : List tables.Map) (keys : List ℕ) (n i : ℕ) (b : Bitarea)
      → IsSized docs queries b
      → i + n ≤ length keys
      → AllFit rels (take n (drop i keys))
      → Marks b
          (generate_words dict tables m rels keys n i b)
          (λ x j k. any (word_counts rels x j k) (take n (drop i keys)))
  unfolding generate_words
  generate_words-Marks rels keys zero i b sized le h = no_Marks docs queries (λ i j k. refl)
  generate_words-Marks rels keys (suc n) i b sized le h =
      let (ittt, here) = get_elem?_of_lt keys i (omega arith) in
      let split = next_key keys n i here in
      let step : suc i ≡ i + 1 = omega arith in
      let fit : AllFit rels (ittt ∷ take n (drop (i + 1) keys)) = rw (split, step) at h in
      let one = generate_rels-Marks ittt rels b sized fit.0 in
      let rest =
        generate_words-Marks rels keys n (i + 1) one.after (Marks-IsSized docs queries sized one)
          (omega arith) fit.1 in
      rw here (
        then_Marks docs queries (generate_words dict tables m rels keys n (i + 1)) one rest
          (λ x j k.
            ap (any (word_counts rels x j k)) (split ∙ ap (λ t. ittt ∷ take n (drop t keys)) step)))

  pub generate_res-Marks :
      (rels : List tables.Map) (wordbatchv : List (List ℕ)) (start finish length_ : ℕ)
      (keys : List ℕ) (b : Bitarea)
      → get_elem? wordbatchv length_ ≡ some keys
      → start ≤ finish
      → finish ≤ length keys
      → IsSized docs queries b
      → AllFit rels (slice keys start finish)
      → Marks b
          (generate_res dict tables m rels wordbatchv start finish length_ b)
          (λ i j k. any (word_counts rels i j k) (slice keys start finish))
  unfolding generate_res
  generate_res-Marks rels wordbatchv start finish length_ keys b here le within sized fit =
      rw here (generate_words-Marks rels keys (finish - start) start b sized (omega arith) fit)
