-- ===== src/Matching/Compare.antt =====
-- JobScheduler/JobMatchPrune.cpp: `SetDimis`, `SetDimisAnapodi` and `OnTheFly`. The argument `forceset` is set
-- to false before it is read, so it is left out here, and so is the branch for it.
use sigmod_programming_conte.Base.{
  ℕ, ◌+◌, ◌-◌, not, Option, none, some, List, [], ◌∷◌, ◌==◌, if◌then◌else◌, ◌>>=◌,
}
use sigmod_programming_conte.Core.{CString, TokenId, key}
use sigmod_programming_conte.Library.{DenseMap, Hash}
use sigmod_programming_conte.Token.Documents.{holds}
use sigmod_programming_conte.Manager.Defs.{Manager, manager_token_info}
use sigmod_programming_conte.Distance.Same.{stavroshtein}
use sigmod_programming_conte.Jobs.Cuts.{cut, cut2, cut3, for_range}
use sigmod_programming_conte.Matching.Relations.{WordSat, relations_add}

-- The set `memory` and the relations of the thread.
pub record Found (R : Type 0) : Type 0 where
  pub memory : List ℕ
  pub rel : R

module _ (rels : DenseMap ℕ (List WordSat)) where
  -- What both functions do with a comparison: a match is recorded and remembered.
  unfoldable pub record_match : ℕ → TokenId → TokenId → ℕ → Found rels.Map → Found rels.Map
  record_match seen wid tid result f =
      if not (result == 0)
      then record { memory = seen ∷ f.memory; rel = relations_add rels wid tid result f.rel }
      else f

module _ {H : Type 0} (dict : DenseMap CString TokenId) (rels : DenseMap ℕ (List WordSat)) where
  -- `SetDimis`: a query word against the document words `ids`.
  unfoldable pub set_dimis :
      List ℕ
      → TokenId
      → CString
      → ℕ
      → ℕ
      → Manager dict.Map H
      → Found rels.Map
      → Option (Found rels.Map)
  set_dimis [] tid string docspace queryspace m f = some f
  set_dimis (id ∷ ids) tid string docspace queryspace m f = do
    let docid : TokenId = record { length_ = docspace; id_ = id }
    let skip = set_dimis ids tid string docspace queryspace m f
    if holds (key docid) f.memory then skip else (do
      t ← manager_token_info dict docid m
      let result = stavroshtein t.tokenstring string docspace queryspace
      set_dimis ids tid string docspace queryspace m
          (record_match rels (key docid) docid tid result f))

  -- `SetDimisAnapodi`: a document word against the query words `ids`.
  unfoldable pub set_dimis_anapodi :
      List ℕ
      → TokenId
      → CString
      → ℕ
      → ℕ
      → Manager dict.Map H
      → Found rels.Map
      → Option (Found rels.Map)
  set_dimis_anapodi [] wid string docspace queryspace m f = some f
  set_dimis_anapodi (id ∷ ids) wid string docspace queryspace m f = do
    let qtid : TokenId = record { length_ = queryspace; id_ = id }
    let skip = set_dimis_anapodi ids wid string docspace queryspace m f
    if holds (key qtid) f.memory then skip else (do
      t ← manager_token_info dict qtid m
      let result = stavroshtein string t.tokenstring docspace queryspace
      set_dimis_anapodi ids wid string docspace queryspace m
          (record_match rels (key qtid) wid qtid result f))

-- The loops over the words with `ana` bytes left out; for `ana` 0 the word itself.
unfoldable pub each_cut {ℓ} : {A : Type ℓ} → ℕ → CString → ℕ → (CString → A → A) → A → A
each_cut ana s size body =
    if ana == 3
    then for_range 0 (size - 2) (λ i.
      for_range (i + 1) (size - 1 - (i + 1))
        (λ j. for_range (j + 1) (size - (j + 1)) (λ k. body (cut3 i j k s))))
    else if ana == 2
    then for_range 0 (size - 1) (λ j. for_range (j + 1) (size - (j + 1)) (λ k. body (cut2 j k s)))
    else if ana == 1
    then for_range 0 size (λ k. body (cut k s))
    else body s

module _ (hash : Hash) (tables : DenseMap ℕ (List ℕ)) where
  -- `hash->find(mur()(s))`, and the visit to what it finds.
  unfoldable pub probe {ℓ} :
      {A : Type ℓ} → tables.Map → (List ℕ → A → Option A) → CString → Option A → Option A
  probe table visit s acc = do
    a ← acc
    elim (tables.find (hash.mur s) table) [ none ↦ some a | some ids ↦ visit ids a ]

  module _ (dict : DenseMap CString TokenId) (rels : DenseMap ℕ (List WordSat)) where
    -- `OnTheFly`.
    unfoldable pub on_the_fly :
        CString
        → ℕ
        → tables.Map
        → TokenId
        → ℕ
        → ℕ
        → Manager dict.Map tables.Map
        → Found rels.Map
        → Option (Found rels.Map)
    on_the_fly string ana table tid docspace queryspace m f =
        each_cut ana string queryspace
          (probe table (λ ids g. set_dimis dict rels ids tid string docspace queryspace m g))
          (some f)
