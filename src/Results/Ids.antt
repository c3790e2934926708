-- ===== src/Results/Ids.antt =====
-- `results` of a document returns the ids of the queries that it matches, in order.
use sigmod_programming_conte.Base.{
  ℕ, zero, suc, ◌+◌, ◌-◌, ◌*◌, ◌%◌, ◌≤◌, ◌≡◌, refl, sym, ap, ap₂, subst, ◌∙◌, Bool, true, false,
  not, ◌&&◌, Option, none, some, List, [], ◌∷◌, ◌++◌, length, length-append, append_assoc,
  append-nil, get_elem?, get_elem?_of_lt, ltb, ◌==◌, if◌then◌else◌, arith, All, count, count-append,
  Bool-cases, inl, inr,
}
use sigmod_programming_conte.Queries.Vault.{is_empty}
use sigmod_programming_conte.Queries.Order.{IsSorted}
use sigmod_programming_conte.Queries.Index.{QueryInfo, info_at}
use sigmod_programming_conte.Results.Bitarea.{Bitarea, check_qmid}
use sigmod_programming_conte.Results.Sort.{add_run, collect_entry, collect, results}
use sigmod_programming_conte.Results.Blocks.{flatten, Blocks}
use sigmod_programming_conte.Results.Passes.{merge_passes_lem}

abbrev pub ids_if : Option Bool → Option QueryInfo → List ℕ
ids_if (some true) (some info) = info.qids
ids_if (some true) none = []
ids_if (some false) info = []
ids_if none info = []

abbrev add_some : List ℕ → List (List ℕ) → List (List ℕ)
add_some [] rs = rs
add_some (x ∷ v) rs = (x ∷ v) ∷ rs

-- Where the runs start, the first at `at`.
abbrev starts : ℕ → List (List ℕ) → List ℕ
starts at [] = []
starts at (r ∷ rs) = at ∷ starts (at + length r) rs

abbrev IsRun : List ℕ → Type 0
IsRun r = (1 ≤ length r) × IsSorted r

starts-Blocks :
    (rs : List (List ℕ)) (before : List ℕ) (at : ℕ)
    → All IsRun rs
    → Blocks (before ++ starts at rs) 1 (length before) at rs
starts-Blocks [] before at h = omega (arith, ap length (append-nil before))
starts-Blocks (r ∷ rs) before at h =
    let later = starts (at + length r) rs in
    let size : length (before ++ at ∷ []) ≡ length before + 1 =
      omega (arith, length-append before (at ∷ [])) in
    let split : (before ++ at ∷ []) ++ later ≡ before ++ at ∷ later =
      append_assoc before (at ∷ []) later in
    (
      read_middle before at later,
      h.0.0,
      subst (λ n. Blocks (before ++ at ∷ later) 1 n (at + length r) rs) size
          (subst (λ p. Blocks p 1 (length (before ++ at ∷ [])) (at + length r) rs) split
            (starts-Blocks rs (before ++ at ∷ []) (at + length r) h.1)),
    )
  where
    read_middle :
        (before : List ℕ) (at : ℕ) (later : List ℕ)
        → get_elem? (before ++ at ∷ later) (length before) ≡ some at
    read_middle [] at later = refl
    read_middle (x ∷ before) at later = read_middle before at later

All-IsSorted : (rs : List (List ℕ)) → All IsRun rs → All IsSorted rs
All-IsSorted [] h = tt
All-IsSorted (r ∷ rs) h = (h.0.1, All-IsSorted rs h.1)

length-starts :
    (at : ℕ) (rs : List (List ℕ))
    → All IsRun rs
    → 1 ≤ length (flatten rs)
    → 1 ≤ length (starts at rs)
length-starts at [] h some_id = some_id
length-starts at (r ∷ rs) h some_id = omega arith

nothing : (a : ℕ) (l : List ℕ) → length l ≡ 0 → count a [] ≡ count a l
nothing a [] h = refl
nothing a (x ∷ l) h = absurd (omega arith)

add_run_nothing : (found : List ℕ × List ℕ) → add_run [] found ≡ found
unfolding add_run is_empty
add_run_nothing (res, pos) = refl

add_run_some :
    (x : ℕ) (v res pos : List ℕ)
    → add_run (x ∷ v) (res, pos) ≡ (res ++ x ∷ v, pos ++ length res ∷ [])
unfolding add_run is_empty
add_run_some x v res pos = let full : (length (x ∷ v) == 0) ≡ false = ground arith in rw full refl

module _ (qi : List QueryInfo) (b : Bitarea) (did : ℕ) where
  -- The ids of an entry, if the document matches it.
  abbrev pub entry_ids : ℕ → List ℕ
  entry_ids qmid = ids_if (check_qmid (did - 1) qmid b) (info_at qmid qi)

  -- How often an id is in the `n` entries from `qmid` on that the document matches.
  abbrev pub occurrences : ℕ → ℕ → ℕ → ℕ
  occurrences a zero qmid = 0
  occurrences a (suc n) qmid = count a (entry_ids qmid) + occurrences a n (qmid + 1)

  abbrev runs : ℕ → ℕ → List (List ℕ)
  runs zero qmid = []
  runs (suc n) qmid = add_some (entry_ids qmid) (runs n (qmid + 1))

  -- The flags of the document can be read for every entry.
  abbrev pub AreChecked : Type 0
  AreChecked =
      (qmid : ℕ)
      → 1 ≤ qmid
      → qmid ≤ b.size_
      → (matches : Bool) × (check_qmid (did - 1) qmid b ≡ some matches)

  -- The ids of every entry ascend.
  abbrev pub AreSorted : Type 0
  AreSorted = (qmid : ℕ) (info : QueryInfo) → info_at qmid qi ≡ some info → IsSorted info.qids

  count-runs : (a n qmid : ℕ) → count a (flatten (runs n qmid)) ≡ occurrences a n qmid
  count-runs a zero qmid = refl
  count-runs a (suc n) qmid =
      of_run (entry_ids qmid) (runs n (qmid + 1))
      ∙ ap (λ t. count a (entry_ids qmid) + t) (count-runs a n (qmid + 1))
    where
      of_run :
          (v : List ℕ) (rs : List (List ℕ))
          → count a (flatten (add_some v rs)) ≡ count a v + count a (flatten rs)
      of_run [] rs = omega arith
      of_run (x ∷ v) rs = count-append a (x ∷ v) (flatten rs)

  module _ (first : 1 ≤ did) (are_checked : AreChecked) (enough : b.size_ ≤ length qi) where
    collect_entry_lem :
        (qmid : ℕ) (found : List ℕ × List ℕ)
        → 1 ≤ qmid
        → qmid ≤ b.size_
        → collect_entry did qmid qi b found ≡ some (add_run (entry_ids qmid) found)
    unfolding collect_entry add_run is_empty info_at
    collect_entry_lem qmid (res, pos) low high =
        let (matches, check) = are_checked qmid low high in
        let (info, there) = entry_there qi qmid low (omega arith) in
        let second : ltb 0 did ≡ true = ground arith in
        elim (Bool-cases matches) [
          | inl e ↦ rw (second, check, e, there) refl
          | inr e ↦ rw (second, check, e) refl
        ]
      where
        entry_there :
            (qi : List QueryInfo) (qmid : ℕ)
            → 1 ≤ qmid
            → qmid ≤ length qi
            → (info : QueryInfo) × (info_at qmid qi ≡ some info)
        entry_there qi zero low high = absurd (omega arith)
        entry_there qi (suc i) low high = get_elem?_of_lt qi i high

    collect_lem :
        (n qmid : ℕ) (res pos : List ℕ)
        → 1 ≤ qmid
        → qmid + n ≤ b.size_ + 1
        → collect n did qmid qi b (res, pos)
          ≡ some (res ++ flatten (runs n qmid), pos ++ starts (length res) (runs n qmid))
    unfolding collect
    collect_lem zero qmid res pos low high =
        ap₂ (λ r p. some (r, p)) (sym (append-nil res)) (sym (append-nil pos))
    collect_lem (suc n) qmid res pos low high =
        rw (collect_entry_lem qmid (res, pos) low (omega arith)) (
          of_run (entry_ids qmid)
            (λ res pos. collect_lem n (qmid + 1) res pos (omega arith) (omega arith)))
      where
        of_run :
            (v : List ℕ)
            → ((res pos : List ℕ)
                → collect n did (qmid + 1) qi b (res, pos)
                  ≡ some (
                    res ++ flatten (runs n (qmid + 1)),
                    pos ++ starts (length res) (runs n (qmid + 1)),
                  ))
            → collect n did (qmid + 1) qi b (add_run v (res, pos))
              ≡ some (
                res ++ flatten (add_some v (runs n (qmid + 1))),
                pos ++ starts (length res) (add_some v (runs n (qmid + 1))),
              )
        of_run [] rest = rw (add_run_nothing (res, pos)) (rest res pos)
        of_run (x ∷ v) rest =
            let later = runs n (qmid + 1) in
            ap (collect n did (qmid + 1) qi b) (add_run_some x v res pos)
            ∙ rest (res ++ x ∷ v) (pos ++ length res ∷ [])
            ∙ ap₂ (λ r p. some (r, p)) (append_assoc res (x ∷ v) (flatten later))
                (append_assoc pos (length res ∷ []) (starts (length (res ++ x ∷ v)) later)
                  ∙ ap (λ t. pos ++ length res ∷ starts t later) (length-append res (x ∷ v)))

    module _ (are_sorted : AreSorted) where
      entry_ids-IsSorted : (qmid : ℕ) → IsSorted (entry_ids qmid)
      entry_ids-IsSorted qmid =
          of_entry (check_qmid (did - 1) qmid b) (info_at qmid qi) (are_sorted qmid)
        where
          of_entry :
              (m : Option Bool) (o : Option QueryInfo)
              → ((info : QueryInfo) → o ≡ some info → IsSorted info.qids)
              → IsSorted (ids_if m o)
          of_entry (some true) (some info) h = h info refl
          of_entry (some true) none h = tt
          of_entry (some false) o h = tt
          of_entry none o h = tt

      runs-IsRun : (n qmid : ℕ) → All IsRun (runs n qmid)
      runs-IsRun zero qmid = tt
      runs-IsRun (suc n) qmid =
          of_run (entry_ids qmid) (runs n (qmid + 1)) (entry_ids-IsSorted qmid)
            (runs-IsRun n (qmid + 1))
        where
          of_run :
              (v : List ℕ) (rs : List (List ℕ))
              → IsSorted v
              → All IsRun rs
              → All IsRun (add_some v rs)
          of_run [] rs h hs = hs
          of_run (x ∷ v) rs h hs = ((omega arith, h), hs)

      -- `results` returns, for a document of the batch, the ids of the queries of all entries that the document
      -- matches: each as often as the entries have it, in ascending order. Its loops end, and its reads and copies stay in
      -- range.
      pub results-IsSorted :
          (out : List ℕ) × (results qi b did ≡ some out)
          × IsSorted out
          × ((a : ℕ) → count a out ≡ occurrences a b.size_ 1)
      unfolding results
      results-IsSorted =
          let all_runs = runs b.size_ 1 in
          let pos = starts 0 all_runs in
          let found = collect_lem b.size_ 1 [] [] (omega arith) (omega arith) in
          let are_runs = runs-IsRun b.size_ 1 in
          let odd = length pos % 2 == 1 in
          let xx = (if odd && not (length pos == 1) then length pos + 1 else length pos) * 2 in
          elim (Bool-cases (length (flatten all_runs) == 0)) [
            | inl e ↦ (
              [],
              rw (found, e) refl,
              tt,
              λ a. nothing a (flatten all_runs) (ground arith) ∙ count-runs a b.size_ 1,
            )
            | inr e ↦
                let (out, ran, ascending, same) =
                  merge_passes_lem (xx + 1) xx 2 1 odd pos all_runs (omega arith) (omega arith)
                    (length-starts 0 all_runs are_runs (ground arith))
                    (wide (odd && not (length pos == 1)) (length pos)) (omega arith)
                    (starts-Blocks all_runs [] 0 are_runs) (All-IsSorted all_runs are_runs) in
                (out, rw (found, e) ran, ascending, λ a. same a ∙ count-runs a b.size_ 1)
          ]
        where
          wide : (t : Bool) (x : ℕ) → x + x ≤ (if t then x + 1 else x) * 2
          wide true x = omega arith
          wide false x = omega arith
