-- ===== src/Results/Marks.antt =====
-- The flags that `SetStauros` sets.
use sigmod_programming_conte.Base.{
  ℕ, zero, suc, ◌+◌, ◌-◌, ◌≤◌, ◌<◌, ◌≡◌, refl, ◌∙◌, Bool, true, false, ◌&&◌, ◌||◌, Option, none,
  some, List, [], ◌∷◌, length, get_elem?, set, ltb, ◌==◌, if◌then◌else◌, ◌>>=◌, arith, All,
  Bool-cases, inl, inr, get_elem?-set, get_elem?-length, >>=-eq-some, ==→eq,
}
use sigmod_programming_conte.Base.Bits.{has_bit}
use sigmod_programming_conte.Token.Defs.{TokenQmidInfo}
use sigmod_programming_conte.Results.Bitarea.{
  Bitarea, mark, set_docs, set_requests, set_list, set_lists, set_stauros,
}

-- The flag of word `k` of query entry `j` in document `i`, which count from 0.
abbrev pub flag : Bitarea → ℕ → ℕ → ℕ → Option ℕ
flag b i j k = do row ← get_elem? b.vault_ i; cell ← get_elem? row j; get_elem? cell.token k

-- How many words query entry `j` has in document `i`.
abbrev pub words_of : Bitarea → ℕ → ℕ → Option ℕ
words_of b i j = do row ← get_elem? b.vault_ i; cell ← get_elem? row j; some cell.count

-- The call returned, and set the flags of `hit` and no others.
pub record Marks (b : Bitarea) (r : Option Bitarea) (hit : ℕ → ℕ → ℕ → Bool) : Type 0 where
  pub after : Bitarea
  pub ran : r ≡ some after
  pub flags : (i j k : ℕ) → flag after i j k ≡ (if hit i j k then some 1 else flag b i j k)
  pub kept : (i j : ℕ) → words_of after i j ≡ words_of b i j
  pub size : after.size_ ≡ b.size_

-- There are flags for `docs` documents, `queries` entries and five words.
abbrev pub IsSized : ℕ → ℕ → Bitarea → Type 0
IsSized docs queries b =
    (i j k : ℕ) → i < docs → j < queries → k < 5 → (v : ℕ) × (flag b i j k ≡ some v)

-- What is read through a list with a new element at `a`, which sets what is read if `h`.
set_through :
    {A : Type 0} (xs : List A) (a i : ℕ) {x : A} (x' : A) (f : A → Option ℕ) (h : Bool)
    → get_elem? xs a ≡ some x
    → f x' ≡ (if h then some 1 else f x)
    → (get_elem? (set xs a x') i >>= f) ≡ (if a == i && h then some 1 else (get_elem? xs i >>= f))
set_through xs a i x' f h at e =
    rw (get_elem?-set xs a i x' (get_elem?-length xs a at)) (elim (Bool-cases (a == i)) [
      | inl same ↦ rw (same, e, ← ==→eq a i same, at) refl
      | inr other ↦ rw other refl
    ])

-- What is read through a list with a new element at `a` in which the same is read.
set_same_through :
    {A : Type 0} (xs : List A) (a i : ℕ) {x : A} (x' : A) (f : A → Option ℕ)
    → get_elem? xs a ≡ some x
    → f x' ≡ f x
    → (get_elem? (set xs a x') i >>= f) ≡ (get_elem? xs i >>= f)
set_same_through xs a i x' f at e =
    rw (get_elem?-set xs a i x' (get_elem?-length xs a at)) (elim (Bool-cases (a == i)) [
      | inl same ↦ rw (same, e, ← ==→eq a i same, at) refl
      | inr other ↦ rw other refl
    ])

module _ (docs queries : ℕ) where
  pub Marks-IsSized :
      {b : Bitarea} {r : Option Bitarea} {hit : ℕ → ℕ → ℕ → Bool}
      → IsSized docs queries b
      → (m : Marks b r hit) → IsSized docs queries m.after
  Marks-IsSized {hit = hit} sized m i j k hi hj hk =
      let (v, e) = sized i j k hi hj hk in
      elim (Bool-cases (hit i j k)) [
        | inl hits ↦ (1, m.flags i j k ∙ rw hits refl)
        | inr misses ↦ (v, m.flags i j k ∙ rw misses e)
      ]

  mark-Marks :
      (b : Bitarea) (qmid pos did : ℕ)
      → IsSized docs queries b
      → 1 ≤ did
      → did ≤ docs
      → 1 ≤ qmid
      → qmid ≤ queries
      → pos < 5
      → Marks b (mark qmid pos did b) (λ i j k. did == i + 1 && (qmid == j + 1 && pos == k))
  unfolding mark
  mark-Marks b qmid pos did sized hd hd' hq hq' hp =
      let (v, e) = sized (did - 1) (qmid - 1) pos (omega arith) (omega arith) hp in
      let (row, at_row, e') =
        >>=-eq-some (get_elem? b.vault_ (did - 1))
          (λ row. get_elem? row (qmid - 1) >>= λ cell. get_elem? cell.token pos) e in
      let (cell, at_cell, at_flag) =
        >>=-eq-some (get_elem? row (qmid - 1)) (λ cell. get_elem? cell.token pos) e' in
      let lt : pos < length cell.token = get_elem?-length cell.token pos at_flag in
      let doc : ltb 0 did ≡ true = ground arith in
      let query : ltb 0 qmid ≡ true = ground arith in
      let word : ltb pos (length cell.token) ≡ true = ground arith in
      let cell' = record cell { token = set cell.token pos 1 } in
      let row' = set row (qmid - 1) cell' in
      record {
        after = record b { vault_ = set b.vault_ (did - 1) row' };
        ran = rw (doc, at_row, query, at_cell, word) refl;
        flags = λ i j k.
            let of_doc : (did - 1 == i) ≡ (did == i + 1) = ground arith in
            let of_query : (qmid - 1 == j) ≡ (qmid == j + 1) = ground arith in
            rw (← of_doc, ← of_query)
              (set_through b.vault_ (did - 1) i row'
                (λ row. get_elem? row j >>= λ c. get_elem? c.token k) (qmid - 1 == j && pos == k)
                at_row
                (set_through row (qmid - 1) j cell' (λ c. get_elem? c.token k) (pos == k) at_cell
                  (get_elem?-set cell.token pos k 1 lt)));
        kept = λ i j.
            set_same_through b.vault_ (did - 1) i row'
              (λ row. get_elem? row j >>= λ c. some c.count) at_row
              (set_same_through row (qmid - 1) j cell' (λ c. some c.count) at_cell refl);
        size = refl;
      }

  pub then_Marks :
      {b : Bitarea} {r : Option Bitarea} {hit hit' hit'' : ℕ → ℕ → ℕ → Bool}
      (f : Bitarea → Option Bitarea)
      → (m : Marks b r hit) → Marks m.after (f m.after) hit'
      → ((i j k : ℕ) → hit'' i j k ≡ (hit i j k || hit' i j k))
      → Marks b (r >>= f) hit''
  then_Marks {b} {hit = hit} {hit' = hit'} {hit'' = hit''} f m n both = record {
    after = n.after;
    ran = rw m.ran n.ran;
    flags = λ i j k.
        n.flags i j k
        ∙ rw (m.flags i j k, both i j k)
            (elim (Bool-cases (hit i j k)) [
              | inl hits ↦ rw hits (same_either (hit' i j k) (some 1))
              | inr misses ↦ rw misses refl
            ]);
    kept = λ i j. n.kept i j ∙ m.kept i j;
    size = n.size ∙ m.size;
  }
    where
      same_either : (h : Bool) (o : Option ℕ) → (if h then o else o) ≡ o
      same_either true o = refl
      same_either false o = refl

  pub no_Marks :
      {b : Bitarea} {hit : ℕ → ℕ → ℕ → Bool}
      → ((i j k : ℕ) → hit i j k ≡ false)
      → Marks b (some b) hit
  no_Marks {b} never = record {
    after = b;
    ran = refl;
    flags = λ i j k. rw (never i j k) refl;
    kept = λ i j. refl;
    size = refl;
  }

-- Whether a document is in a list.
abbrev pub has_doc : List ℕ → ℕ → Bool
has_doc [] d = false
has_doc (did ∷ doclist) d = did == d || has_doc doclist d

-- Whether word `k` of entry `q` is in a list of requests.
abbrev pub has_request : List TokenQmidInfo → ℕ → ℕ → Bool
has_request [] q k = false
has_request (r ∷ qlist) q k = (r.qmid_ == q && r.position_ == k) || has_request qlist q k

-- Whether it is in one of the lists, from number `n` on, whose bit is in `result`.
abbrev pub is_asked : List (Option (List TokenQmidInfo)) → ℕ → ℕ → ℕ → ℕ → Bool
is_asked [] result n q k = false
is_asked (none ∷ pointer) result n q k = is_asked pointer result (n + 1) q k
is_asked (some qlist ∷ pointer) result n q k =
    (has_bit result n && has_request qlist q k) || is_asked pointer result (n + 1) q k

module _ (docs queries : ℕ) where
  -- The requests name entries that there are.
  abbrev pub InRange : Option (List TokenQmidInfo) → Type 0
  InRange none = Unit {0}
  InRange (some qlist) = All (λ r. (1 ≤ r.qmid_) × (r.qmid_ ≤ queries) × (r.position_ < 5)) qlist

  -- The documents are those of the batch.
  abbrev pub AreDocs : List ℕ → Type 0
  AreDocs = All (λ did. (1 ≤ did) × (did ≤ docs))

  set_docs-Marks :
      (doclist : List ℕ) (qmid pos : ℕ) (b : Bitarea)
      → IsSized docs queries b
      → AreDocs doclist
      → 1 ≤ qmid
      → qmid ≤ queries
      → pos < 5
      → Marks b
          (set_docs doclist qmid pos b)
          (λ i j k. has_doc doclist (i + 1) && (qmid == j + 1 && pos == k))
  unfolding set_docs
  set_docs-Marks [] qmid pos b sized h hq hq' hp = no_Marks docs queries (λ i j k. refl)
  set_docs-Marks (did ∷ doclist) qmid pos b sized h hq hq' hp =
      let m = mark-Marks docs queries b qmid pos did sized h.0.0 h.0.1 hq hq' hp in
      then_Marks docs queries (set_docs doclist qmid pos) m
        (set_docs-Marks doclist qmid pos m.after (Marks-IsSized docs queries sized m) h.1 hq hq' hp)
        (λ i j k. ground arith)

  module _ (doclist : List ℕ) (are_docs : AreDocs doclist) where
    set_requests-Marks :
        (qlist : List TokenQmidInfo) (b : Bitarea)
        → IsSized docs queries b
        → InRange (some qlist)
        → Marks b
            (set_requests doclist qlist b)
            (λ i j k. has_doc doclist (i + 1) && has_request qlist (j + 1) k)
    unfolding set_requests
    set_requests-Marks [] b sized h = no_Marks docs queries (λ i j k. ground arith)
    set_requests-Marks (r ∷ qlist) b sized h =
        let m = set_docs-Marks doclist r.qmid_ r.position_ b sized are_docs h.0.0 h.0.1 h.0.2 in
        then_Marks docs queries (set_requests doclist qlist) m
          (set_requests-Marks qlist m.after (Marks-IsSized docs queries sized m) h.1)
          (λ i j k. ground arith)

    set_list_runs :
        (qlist : List TokenQmidInfo) (pos : ℕ) (b : Bitarea)
        → pos < 7
        → set_list doclist (some qlist) pos b ≡ set_requests doclist qlist b
    unfolding set_list
    set_list_runs qlist zero b h = refl
    set_list_runs qlist (suc zero) b h = refl
    set_list_runs qlist (suc (suc zero)) b h = refl
    set_list_runs qlist (suc (suc (suc zero))) b h = refl
    set_list_runs qlist (suc (suc (suc (suc zero)))) b h = refl
    set_list_runs qlist (suc (suc (suc (suc (suc zero))))) b h = refl
    set_list_runs qlist (suc (suc (suc (suc (suc (suc zero)))))) b h = refl
    set_list_runs qlist (suc (suc (suc (suc (suc (suc (suc n))))))) b h = absurd (omega arith)

    set_lists-Marks :
        (pointer : List (Option (List TokenQmidInfo))) (result n : ℕ) (b : Bitarea)
        → IsSized docs queries b
        → All InRange pointer
        → length pointer + n ≤ 7
        → Marks b
            (set_lists doclist pointer result n b)
            (λ i j k. has_doc doclist (i + 1) && is_asked pointer result n (j + 1) k)
    unfolding set_lists set_list
    set_lists-Marks [] result n b sized h le = no_Marks docs queries (λ i j k. ground arith)
    set_lists-Marks (none ∷ pointer) result n b sized h le =
        let rest = set_lists-Marks pointer result (n + 1) b sized h.1 (omega arith) in
        elim (Bool-cases (has_bit result n)) [ inl e ↦ rw e rest | inr e ↦ rw e rest ]
    set_lists-Marks (some qlist ∷ pointer) result n b sized h le =
        elim (Bool-cases (has_bit result n)) [
          | inl e ↦
              let m = set_requests-Marks qlist b sized h.0 in
              rw (e, set_list_runs qlist n b (omega arith))
                (then_Marks docs queries (set_lists doclist pointer result (n + 1)) m
                  (set_lists-Marks pointer result (n + 1) m.after
                    (Marks-IsSized docs queries sized m) h.1 (omega arith))
                  (λ i j k. ground arith))
          | inr e ↦ rw e (set_lists-Marks pointer result (n + 1) b sized h.1 (omega arith))
        ]

-- `SetStauros` with seven lists of requests returns, if the documents are those of the batch and the requests
-- name entries that there are. It sets the flag of a word of a query in a document if the document is in
-- the list and one of the lists whose bit is in the result has the word, and it leaves every other flag.
pub set_stauros-Marks :
    (docs queries : ℕ) (doclist : List ℕ) (pointer : List (Option (List TokenQmidInfo)))
    (result : ℕ) (b : Bitarea)
    → IsSized docs queries b
    → AreDocs docs queries doclist
    → All (InRange docs queries) pointer
    → length pointer ≡ 7
    → Marks b
        (set_stauros (some doclist) pointer result b)
        (λ i j k. has_doc doclist (i + 1) && is_asked pointer result 0 (j + 1) k)
unfolding set_stauros
set_stauros-Marks docs queries doclist pointer result b sized are_docs in_range seven =
    set_lists-Marks docs queries doclist are_docs pointer result 0 b sized in_range (omega arith)
