-- ===== src/Matching/Fly.antt =====
-- `OnTheFly` finds the words that share a shortened word.
use sigmod_programming_conte.Base.{
  ℕ, ◌+◌, ◌-◌, ◌≤◌, ◌<◌, ◌≡◌, ◌≢◌, refl, true, Option, none, some, List, [], length, arith,
}
use mathlib.Core.Option.{get_or}
use sigmod_programming_conte.Core.{CString, TokenId, key}
use sigmod_programming_conte.Library.{DenseMap, Hash}
use sigmod_programming_conte.Token.Defs.{TokenInfo}
use sigmod_programming_conte.Token.Documents.{holds}
use sigmod_programming_conte.Manager.Defs.{Manager, manager_token_info}
use sigmod_programming_conte.Distance.Defs.{hamming_distance}
use sigmod_programming_conte.Distance.Same.{mismatches_from}
use sigmod_programming_conte.Distance.Hamming.{hamming_distance_lem}
use sigmod_programming_conte.Distance.Near.{stavroshtein-near}
use sigmod_programming_conte.Jobs.Cuts.{cut3, for_range, push_cuts3}
use sigmod_programming_conte.Jobs.Reach.{for_range-keeps, for_range-reaches, lists}
use sigmod_programming_conte.Matching.Relations.{WordSat}
use sigmod_programming_conte.Matching.Compare.{Found, set_dimis, each_cut, probe, on_the_fly}
use sigmod_programming_conte.Matching.Recorded.{
  lists_match, IsRecorded, answer, Runs, set_dimis-Runs,
}
use sigmod_programming_conte.Matching.Stored.{push_cuts3-Only}
use sigmod_programming_conte.Matching.Shared.{push_cuts3-hamming_distance}

module _ (hash : Hash) (tables : DenseMap ℕ (List ℕ)) (unused : tables.empty_key ≡ 0)
    (dict : DenseMap CString TokenId) (rels : DenseMap ℕ (List WordSat))
    (m : Manager dict.Map tables.Map) (tid : TokenId) (string : CString) (docspace queryspace : ℕ)
    (storable : (id : ℕ) → key (record { length_ = docspace; id_ = id }) ≢ rels.empty_key)
    (table : tables.Map) where
  -- Every id in the table is that of a document word.
  abbrev pub AreStored : Type 0
  AreStored =
      (h : ℕ) (ids : List ℕ) (id : ℕ)
      → tables.find h table ≡ some ids
      → holds id ids ≡ true
      → (t : TokenInfo) × (manager_token_info dict (record { length_ = docspace; id_ = id }) m
          ≡ some t)

  abbrev pub Acc : Type 0
  Acc = Option (Found rels.Map)

  -- The loop runs, and what it remembers is recorded.
  pub record Going (acc : Acc) : Type 0 where
    pub now : Found rels.Map
    pub runs : acc ≡ some now
    pub recorded : IsRecorded rels tid now

  pub record Has (k : ℕ) (acc : Acc) : Type 0 where
    pub going : Going acc
    pub there : holds k going.now.memory ≡ true

  abbrev visit : List ℕ → Found rels.Map → Acc
  visit ids g = set_dimis dict rels ids tid string docspace queryspace m g

  abbrev body : CString → Acc → Acc
  body = probe hash tables table visit

  module _ (are_stored : AreStored) where
    visit-Runs :
        (h : ℕ) (ids : List ℕ) (g : Found rels.Map)
        → tables.find h table ≡ some ids
        → IsRecorded rels tid g
        → Runs rels tid dict m string docspace queryspace storable ids g (visit ids g)
    visit-Runs h ids g found ok =
        set_dimis-Runs rels tid dict m string docspace queryspace storable ids g
          (λ id q. are_stored h ids id found q) ok

    probe-Going : (s : CString) (acc : Acc) → Going acc → Going (body s acc)
    unfolding probe
    probe-Going s acc g = of_find (tables.find (hash.mur s) table) refl
      where
        of_find : (o : Option (List ℕ)) → tables.find (hash.mur s) table ≡ o → Going (body s acc)
        of_find none e = rw (g.runs, e) (record { now = g.now; runs = refl; recorded = g.recorded })
        of_find (some ids) e =
            let r = visit-Runs (hash.mur s) ids g.now e g.recorded in
            rw (g.runs, e) (record { now = r.after; runs = r.returned; recorded = r.recorded })

    probe-Has : (k : ℕ) (s : CString) (acc : Acc) → Has k acc → Has k (body s acc)
    unfolding probe
    probe-Has k s acc h = of_find (tables.find (hash.mur s) table) refl
      where
        of_find : (o : Option (List ℕ)) → tables.find (hash.mur s) table ≡ o → Has k (body s acc)
        of_find none e =
            rw (h.going.runs, e)
              (record {
                going = record { now = h.going.now; runs = refl; recorded = h.going.recorded };
                there = h.there;
              })
        of_find (some ids) e =
            let r = visit-Runs (hash.mur s) ids h.going.now e h.going.recorded in
            rw (h.going.runs, e)
              (record {
                going = record { now = r.after; runs = r.returned; recorded = r.recorded };
                there = r.grown k h.there;
              })

    -- A word that the table lists under this hash is met.
    pub probe_hit :
        (id : ℕ) (t : TokenInfo) (s : CString) (acc : Acc)
        → manager_token_info dict (record { length_ = docspace; id_ = id }) m ≡ some t
        → answer rels tid dict m string docspace queryspace storable t ≢ 0
        → lists hash tables unused id s table ≡ true
        → Going acc
        → Has (key (record { length_ = docspace; id_ = id })) (body s acc)
    unfolding probe
    probe_hit id t s acc word matches listed g =
        of_find (tables.find (hash.mur s) table) refl listed
      where
        of_find :
            (o : Option (List ℕ))
            → tables.find (hash.mur s) table ≡ o
            → holds id (get_or o []) ≡ true
            → Has (key (record { length_ = docspace; id_ = id })) (body s acc)
        of_find none e q = absurd (ground arith)
        of_find (some ids) e q =
            let r = visit-Runs (hash.mur s) ids g.now e g.recorded in
            rw (g.runs, e)
              (record {
                going = record { now = r.after; runs = r.returned; recorded = r.recorded };
                there = r.met id t q word matches;
              })

    abbrev inner : ℕ → ℕ → Acc → Acc
    inner i j = for_range (j + 1) (queryspace - (j + 1)) (λ k. body (cut3 i j k string))

    abbrev middle : ℕ → Acc → Acc
    middle i = for_range (i + 1) (queryspace - 1 - (i + 1)) (λ j. inner i j)

    inner-Going : (i j : ℕ) (acc : Acc) → Going acc → Going (inner i j acc)
    inner-Going i j acc g =
        for_range-keeps Going (λ k. body (cut3 i j k string))
          (λ k a h. probe-Going (cut3 i j k string) a h) (j + 1) (queryspace - (j + 1)) acc g

    middle-Going : (i : ℕ) (acc : Acc) → Going acc → Going (middle i acc)
    middle-Going i acc g =
        for_range-keeps Going (λ j. inner i j) (λ j a h. inner-Going i j a h) (i + 1)
          (queryspace - 1 - (i + 1)) acc g

    inner-Has : (x i j : ℕ) (acc : Acc) → Has x acc → Has x (inner i j acc)
    inner-Has x i j acc g =
        for_range-keeps (Has x) (λ k. body (cut3 i j k string))
          (λ k a h. probe-Has x (cut3 i j k string) a h) (j + 1) (queryspace - (j + 1)) acc g

    middle-Has : (x i : ℕ) (acc : Acc) → Has x acc → Has x (middle i acc)
    middle-Has x i acc g =
        for_range-keeps (Has x) (λ j. inner i j) (λ j a h. inner-Has x i j a h) (i + 1)
          (queryspace - 1 - (i + 1)) acc g

    -- With three bytes left out: the words that the table lists under a shortened query word get an entry.
    on_the_fly-lists :
        (id : ℕ) (t : TokenInfo) (rel : rels.Map) (i j k : ℕ)
        → i < j
        → j < k
        → k < queryspace
        → manager_token_info dict (record { length_ = docspace; id_ = id }) m ≡ some t
        → answer rels tid dict m string docspace queryspace storable t ≢ 0
        → lists hash tables unused id (cut3 i j k string) table ≡ true
        → (g : Found rels.Map) × (on_the_fly hash tables dict rels string 3 table tid docspace
              queryspace m
              (record { memory = []; rel = rel })
            ≡ some g)
          × (lists_match rels tid (key (record { length_ = docspace; id_ = id })) g.rel ≡ true)
    unfolding on_the_fly each_cut
    on_the_fly-lists id t rel i j k lo mid hi word matches listed =
        let x = key (record { length_ = docspace; id_ = id }) in
        let start : Going (some (record { memory = []; rel = rel })) = record {
          now = record { memory = []; rel = rel };
          runs = refl;
          recorded = λ y h. absurd (ground arith);
        } in
        let found : Has x (
            for_range 0 (queryspace - 2) (λ i. middle i)
              (some (record { memory = []; rel = rel }))) =
          for_range-reaches Going (Has x) (λ i. middle i) (λ i a h. middle-Going i a h)
            (λ i a h. middle-Has x i a h) i
            (λ a g.
              for_range-reaches Going (Has x) (λ j. inner i j) (λ j a h. inner-Going i j a h)
                (λ j a h. inner-Has x i j a h) j
                (λ a g.
                  for_range-reaches Going (Has x) (λ k. body (cut3 i j k string))
                    (λ k a h. probe-Going (cut3 i j k string) a h)
                    (λ k a h. probe-Has x (cut3 i j k string) a h) k
                    (λ a g. probe_hit id t (cut3 i j k string) a word matches listed g) (j + 1)
                    (queryspace - (j + 1)) a (omega arith) (omega arith) g)
                (i + 1) (queryspace - 1 - (i + 1)) a (omega arith) (omega arith) g)
            0 (queryspace - 2) (some (record { memory = []; rel = rel })) (omega arith)
            (omega arith) start in
        (found.going.now, found.going.runs, found.going.recorded x found.there)

module _ (hash : Hash) (tables : DenseMap ℕ (List ℕ)) (unused : tables.empty_key ≡ 0)
    (dict : DenseMap CString TokenId) (rels : DenseMap ℕ (List WordSat))
    (m : Manager dict.Map tables.Map) (tid : TokenId) (query : CString)
    (storable : (id : ℕ) → key (record { length_ = length query; id_ = id }) ≢ rels.empty_key) where
  -- A query word and a stored document word of one length, at least three bytes, between which `HammingDistance` finds
  -- at most three mismatches: once the loops of JobGenHashes have run for the document word, `OnTheFly` with three bytes
  -- left out returns, and the document word has an entry for the query word. This holds if every id in the table was that
  -- of a document word.
  pub on_the_fly-hamming_distance :
      (id : ℕ) (t : TokenInfo) (before : tables.Map) (rel : rels.Map)
      → length t.tokenstring ≡ length query
      → 3 ≤ length query
      → hamming_distance t.tokenstring (length t.tokenstring) query 3 ≤ 3
      → AreStored hash tables unused dict rels m tid query
          (length query)
          (length query)
          storable
          before
      → manager_token_info dict (record { length_ = length query; id_ = id }) m ≡ some t
      → (g : Found rels.Map) × (on_the_fly hash tables dict rels query 3
            (push_cuts3 hash tables id t.tokenstring (length t.tokenstring) before)
            tid
            (length query)
            (length query)
            m
            (record { memory = []; rel = rel })
          ≡ some g)
        × (lists_match rels tid (key (record { length_ = length query; id_ = id })) g.rel ≡ true)
  on_the_fly-hamming_distance id t before rel size long near stored word =
      let table = push_cuts3 hash tables id t.tokenstring (length t.tokenstring) before in
      let distance = hamming_distance_lem t.tokenstring query (length t.tokenstring) 3 in
      let few' : mismatches_from t.tokenstring query 0 (length t.tokenstring) ≤ 3 =
        ground (arith, distance, near) in
      let few : mismatches_from t.tokenstring query 0 (length query) ≤ 3 = rw size at few' in
      let (i, j, k, lo, mid, hi, listed) =
        push_cuts3-hamming_distance hash tables unused id t.tokenstring query before size
          (omega (arith, size)) near in
      on_the_fly-lists hash tables unused dict rels m tid query (length query) (length query)
        storable table
        (λ h ids x e q.
          push_cuts3-Only hash tables unused
            (λ x.
              (t : TokenInfo) × (manager_token_info dict
                  (record { length_ = length query; id_ = x }) m
                ≡ some t))
            id (t, word) t.tokenstring (length t.tokenstring) before stored h ids x e q)
        id t rel i j k lo mid hi word (stavroshtein-near t.tokenstring query (length query) few)
        listed
