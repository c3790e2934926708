-- ===== src/Matching/Missing.antt =====
-- `OnTheFly` for a query word that is a document word with three bytes left out.
use sigmod_programming_conte.Base.{
  ◌&&◌, ◌==◌, ==→eq, Bool-cases, sym, ap₂, subst, suc, ◌∷◌, ltb, ◌∙◌, ℕ, ◌+◌, ◌-◌, ◌<◌, ◌≡◌, ◌≢◌,
  refl, true, some, List, [], length, arith, inl, inr,
}
use sigmod_programming_conte.Core.{CString, TokenId, key}
use sigmod_programming_conte.Library.{DenseMap, Hash}
use sigmod_programming_conte.Token.Defs.{TokenInfo}
use sigmod_programming_conte.Manager.Defs.{Manager, manager_token_info}
use sigmod_programming_conte.Jobs.Cuts.{cut3, push_cuts3}
use sigmod_programming_conte.Jobs.Reach.{lists}
use sigmod_programming_conte.Matching.Relations.{WordSat}
use sigmod_programming_conte.Matching.Compare.{Found, set_dimis, each_cut, probe, on_the_fly}
use sigmod_programming_conte.Matching.Recorded.{lists_match}
use sigmod_programming_conte.Matching.Stored.{push_cuts3-Only}
use sigmod_programming_conte.Jobs.Cuts.{cut, cut2}
use sigmod_programming_conte.Jobs.Reach.{push_cuts3-lists}
use sigmod_programming_conte.Distance.Same.{stavroshtein, by_difference}
use sigmod_programming_conte.Distance.Part.{is_part, is_part-longer}
use sigmod_programming_conte.Distance.Gaps.{edit_hammingdiff3_lem}
use sigmod_programming_conte.Matching.Shared.{cut-suc, cut2-zero, cut2-suc, cut3-zero, cut3-suc}
use sigmod_programming_conte.Matching.Fly.{AreStored, Has, probe_hit}

whole : (s t : CString) → length t ≡ length s → is_part s t ≡ true → s ≡ t
whole [] [] e h = refl
whole [] (b ∷ t) e h = absurd (omega (arith, e))
whole (a ∷ s) [] e h = absurd (omega (arith, e))
whole (a ∷ s) (b ∷ t) e h =
    let short = is_part-longer (a ∷ s) t (omega (arith, e)) in
    ap₂ (λ x l. x ∷ l) (==→eq a b (ground (arith, short)))
      (whole s t (omega (arith, e)) (ground (arith, short)))

without1 :
    (s t : CString)
    → length t ≡ length s + 1
    → is_part s t ≡ true
    → (k : ℕ) × (k < length t) × (cut k t ≡ s)
unfolding cut
without1 s [] e h = absurd (omega (arith, e))
without1 [] (b ∷ t) e h = (0, omega arith, sym (whole [] t (omega (arith, e)) refl))
without1 (a ∷ s) (b ∷ t) e h = elim (Bool-cases (a == b && is_part s t)) [
  | inl here ↦
      let (k, lt, same) = without1 s t (omega (arith, e)) (ground arith) in
      (suc k, omega arith, cut-suc k b t ∙ ap₂ (λ x l. x ∷ l) (sym (==→eq a b (ground arith))) same)
  | inr later ↦ (0, omega arith, sym (whole (a ∷ s) t (omega (arith, e)) (ground arith)))
]

without2 :
    (s t : CString)
    → length t ≡ length s + 2
    → is_part s t ≡ true
    → (j k : ℕ) × (j < k) × (k < length t) × (cut2 j k t ≡ s)
without2 s [] e h = absurd (omega (arith, e))
without2 [] (b ∷ t) e h =
    let (k, lt, same) = without1 [] t (omega (arith, e)) refl in
    (0, suc k, omega arith, omega arith, cut2-zero k b t ∙ same)
without2 (a ∷ s) (b ∷ t) e h = elim (Bool-cases (a == b && is_part s t)) [
  | inl here ↦
      let (j, k, order, lt, same) = without2 s t (omega (arith, e)) (ground arith) in
      (
        suc j,
        suc k,
        omega arith,
        omega arith,
        cut2-suc j k b t ∙ ap₂ (λ x l. x ∷ l) (sym (==→eq a b (ground arith))) same,
      )
  | inr later ↦
      let (k, lt, same) = without1 (a ∷ s) t (omega (arith, e)) (ground arith) in
      (0, suc k, omega arith, omega arith, cut2-zero k b t ∙ same)
]

without3 :
    (s t : CString)
    → length t ≡ length s + 3
    → is_part s t ≡ true
    → (i j k : ℕ) × (i < j) × (j < k) × (k < length t) × (cut3 i j k t ≡ s)
without3 s [] e h = absurd (omega (arith, e))
without3 [] (b ∷ t) e h =
    let (j, k, order, lt, same) = without2 [] t (omega (arith, e)) refl in
    (0, suc j, suc k, omega arith, omega arith, omega arith, cut3-zero j k b t ∙ same)
without3 (a ∷ s) (b ∷ t) e h = elim (Bool-cases (a == b && is_part s t)) [
  | inl here ↦
      let (i, j, k, order, order', lt, same) = without3 s t (omega (arith, e)) (ground arith) in
      (
        suc i,
        suc j,
        suc k,
        omega arith,
        omega arith,
        omega arith,
        cut3-suc i j k b t ∙ ap₂ (λ x l. x ∷ l) (sym (==→eq a b (ground arith))) same,
      )
  | inr later ↦
      let (j, k, order, lt, same) = without2 (a ∷ s) t (omega (arith, e)) (ground arith) in
      (0, suc j, suc k, omega arith, omega arith, omega arith, cut3-zero j k b t ∙ same)
]

stavroshtein-part :
    (s t : CString) (n m : ℕ)
    → length t ≡ length s + 3
    → m ≡ length s
    → n ≡ length s + 3
    → is_part s t ≡ true
    → stavroshtein t s n m ≢ 0
unfolding stavroshtein by_difference
stavroshtein-part s t n m e em en h =
    let shorter : ltb m n ≡ true = ground (arith, em, en) in
    let three : n - m ≡ 3 = omega (arith, em, en) in
    rw (shorter, three, em, edit_hammingdiff3_lem s t e, h) (λ z. absurd (omega arith))

module _ (hash : Hash) (tables : DenseMap ℕ (List ℕ)) (unused : tables.empty_key ≡ 0)
    (dict : DenseMap CString TokenId) (rels : DenseMap ℕ (List WordSat))
    (m : Manager dict.Map tables.Map) (tid : TokenId) (query : CString) (docspace : ℕ)
    (storable : (id : ℕ) → key (record { length_ = docspace; id_ = id }) ≢ rels.empty_key) where
  -- A query word and a stored document word that is three bytes longer, of which the query word is what is left
  -- when three bytes are left out: once the loops of JobGenHashes have run for the document word, `OnTheFly` for the query word
  -- itself returns, and the document word has an entry for it. This holds if every id in the table was that of a
  -- document word.
  pub on_the_fly-is_part :
      (id : ℕ) (t : TokenInfo) (before : tables.Map) (rel : rels.Map)
      → docspace ≡ length query + 3
      → length t.tokenstring ≡ docspace
      → is_part query t.tokenstring ≡ true
      → AreStored hash tables unused dict rels m tid query docspace (length query) storable before
      → manager_token_info dict (record { length_ = docspace; id_ = id }) m ≡ some t
      → (g : Found rels.Map) × (on_the_fly hash tables dict rels query 0
            (push_cuts3 hash tables id t.tokenstring docspace before)
            tid
            docspace
            (length query)
            m
            (record { memory = []; rel = rel })
          ≡ some g)
        × (lists_match rels tid (key (record { length_ = docspace; id_ = id })) g.rel ≡ true)
  unfolding on_the_fly each_cut
  on_the_fly-is_part id t before rel longer size part stored word =
      let table = push_cuts3 hash tables id t.tokenstring docspace before in
      let f : Found rels.Map = record { memory = []; rel = rel } in
      let (i, j, k, lo, mid, hi, same) = without3 query t.tokenstring (size ∙ longer) part in
      let listed : lists hash tables unused id query table ≡ true =
        subst (λ s. lists hash tables unused id s table ≡ true) same
          (push_cuts3-lists hash tables unused id t.tokenstring docspace i j k before lo mid
            (omega (arith, size))) in
      let found : Has hash tables unused dict rels m tid query docspace (length query) storable
          table (key (record { length_ = docspace; id_ = id }))
          (probe hash tables table
            (λ ids g. set_dimis dict rels ids tid query docspace (length query) m g) query
            (some f)) =
        probe_hit hash tables unused dict rels m tid query docspace (length query) storable table
          (λ h ids x e q.
            push_cuts3-Only hash tables unused
              (λ x.
                (t : TokenInfo) × (manager_token_info dict (record { length_ = docspace; id_ = x })
                    m
                  ≡ some t))
              id (t, word) t.tokenstring docspace before stored h ids x e q)
          id t query (some f) word
          (stavroshtein-part query t.tokenstring docspace (length query) (size ∙ longer) refl longer
            part)
          listed (record { now = f; runs = refl; recorded = λ y h. absurd (ground arith) }) in
      (
        found.going.now,
        found.going.runs,
        found.going.recorded (key (record { length_ = docspace; id_ = id })) found.there,
      )
