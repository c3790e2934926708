-- ===== src/Matching/Relations.antt =====
-- MatchStuff/Relations.{h,cpp} and MatchStuff/TidToWid.{h,cpp}: for each document word, the query words
-- that match it and how.
use mathlib.Core.Option.{get_or}
use sigmod_programming_conte.Base.{
  sym, ◌∙◌, if_true, eq→==, if◌then◌else◌, ◌==◌, ◌==◌, if◌then◌else◌, ℕ, ◌≡◌, ◌≢◌, refl, Option,
  none, some, List, [], ◌∷◌, ◌++◌, arith, ℕ_discrete, Option-cases, inl, inr,
}
use sigmod_programming_conte.Core.{TokenId, key}
use sigmod_programming_conte.Library.{DenseMap}

-- `wordsat`.
pub record WordSat : Type 0 where
  pub tid : TokenId
  pub matchtype : ℕ

module _ (tables : DenseMap ℕ (List WordSat)) where
  open tables use {Map, empty_key, find, put, find-put_self, find-put_ne}

  -- `WidToTid::Add` on the vector of a word.
  unfoldable pub wid_to_tid_add : TokenId → ℕ → List WordSat → List WordSat
  wid_to_tid_add tid matchtype vault = vault ++ record { tid = tid; matchtype = matchtype } ∷ []

  -- `if (Tids.find(temp) == Tids.end()) Tids[temp] = new WidToTid`.
  unfoldable pub vector_for : Option (List WordSat) → ℕ → Map → Map
  vector_for none temp rel = put temp [] rel
  vector_for (some v) temp rel = rel

  -- `Relations::Add`: a word without a vector gets an empty one first.
  unfoldable pub relations_add : TokenId → TokenId → ℕ → Map → Map
  relations_add wid tid type_ rel =
      let temp = key wid in
      let made = vector_for (find temp rel) temp rel in
      put temp (wid_to_tid_add tid type_ (get_or (find temp made) [])) made

  -- `Relations::GetTids`.
  unfoldable pub get_tids : ℕ → Map → Option (List WordSat)
  get_tids k rel = find k rel

  find_put :
      (j k : ℕ) (v : List WordSat) (m : Map)
      → k ≢ empty_key
      → find j (put k v m) ≡ (if k == j then some v else find j m)
  find_put j k v m ok = elim (ℕ_discrete j k) [
    | yes e ↦ rw e (find-put_self k v m ok ∙ sym (if_true _ (eq→== k k refl)))
    | no ne ↦ find-put_ne j k v m ok ne ∙ ground arith
  ]

  -- `Add` appends the match to the vector of the word and leaves the other words alone, as long as the key of
  -- the word is not the one that the table does not store.
  pub relations_add_lem :
      (wid tid : TokenId) (type_ k : ℕ) (rel : Map)
      → key wid ≢ empty_key
      → get_tids k (relations_add wid tid type_ rel) ≡ (
          if key wid == k
          then some (get_or (get_tids k rel) [] ++ record { tid = tid; matchtype = type_ } ∷ [])
          else get_tids k rel)
  unfolding relations_add get_tids wid_to_tid_add vector_for
  relations_add_lem wid tid type_ k rel ok =
      let new = record { tid = tid; matchtype = type_ } ∷ [] in
      let start : get_tids k (relations_add wid tid type_ rel)
          ≡ find k (
              put (key wid)
                (get_or (find (key wid) (vector_for (find (key wid) rel) (key wid) rel)) [] ++ new)
                (vector_for (find (key wid) rel) (key wid) rel)) =
        refl in
      start ∙ elim (Option-cases (find (key wid) rel)) [
        | inl e ↦
            rw (e, find-put_self (key wid) [] rel ok)
              (find_put k (key wid) new (put (key wid) [] rel) ok
                ∙ ground (arith, find_put k (key wid) [] rel ok))
        | inr (v, e) ↦ rw (e, e) (find_put k (key wid) (v ++ new) rel ok ∙ ground arith)
      ]
