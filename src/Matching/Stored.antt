-- ===== src/Matching/Stored.antt =====
-- Every id in the tables of JobGenHashes is that of a word that was hashed.
use sigmod_programming_conte.Base.{
  ℕ, ◌+◌, ◌-◌, ◌≡◌, ◌≢◌, refl, sym, ap, ◌∙◌, true, Option, none, some, List, [], ◌∷◌, ◌==◌, arith,
  Bool-cases, inl, inr, subst, some_inj, ==→eq, ℕ_discrete, ◌||◌, ◌++◌,
}
use mathlib.Core.Option.{get_or}
use sigmod_programming_conte.Core.{CString}
use sigmod_programming_conte.Library.{DenseMap, Hash}
use sigmod_programming_conte.Token.Documents.{holds}
use sigmod_programming_conte.Jobs.Cuts.{cut3, push_cuts3, push_hash}
use sigmod_programming_conte.Jobs.Reach.{for_range-keeps}

-- What holds of every id in a table holds of every id after the loops for three bytes.
module _ (hash : Hash) (tables : DenseMap ℕ (List ℕ)) (unused : tables.empty_key ≡ 0)
    (P : ℕ → Type 0) (id : ℕ) (ok : P id) where
  abbrev pub Only : tables.Map → Type 0
  Only table =
      (h : ℕ) (ids : List ℕ) (x : ℕ) → tables.find h table ≡ some ids → holds x ids ≡ true → P x

  holds_last :
      (x : ℕ) (ids : List ℕ) → holds x (ids ++ id ∷ []) ≡ true → (holds x ids || id == x) ≡ true
  holds_last x [] h = ground arith
  holds_last x (y ∷ ids) h = ground (arith, holds_last x ids)

  old_or_new :
      (table : tables.Map) (h x : ℕ)
      → Only table
      → holds x (get_or (tables.find h table) [] ++ id ∷ []) ≡ true
      → P x
  old_or_new table h x only q = of_find (tables.find h table) refl q
    where
      of_find :
          (o : Option (List ℕ))
          → tables.find h table ≡ o
          → holds x (get_or o [] ++ id ∷ []) ≡ true
          → P x
      of_find none e q = subst P (==→eq id x (ground arith)) ok
      of_find (some ids) e q = elim (Bool-cases (holds x ids)) [
        | inl old ↦ only h ids x e old
        | inr new ↦ subst P (==→eq id x (ground (arith, holds_last x ids q))) ok
      ]

  push_hash-Only :
      (s : CString) (table : tables.Map) → Only table → Only (push_hash hash tables id s table)
  unfolding push_hash
  push_hash-Only s table only h ids x e q =
      let nonempty : hash.mur s ≢ tables.empty_key = λ z. hash.mur-ne-zero s (z ∙ unused) in
      let list = get_or (tables.find (hash.mur s) table) [] ++ id ∷ [] in
      elim (ℕ_discrete h (hash.mur s)) [
        | yes same ↦
            let now : some list ≡ some ids =
              sym (tables.find-put_self (hash.mur s) list table nonempty)
              ∙ ap (λ k. tables.find k (tables.put (hash.mur s) list table)) (sym same)
              ∙ e in
            old_or_new table (hash.mur s) x only (ap (holds x) (some_inj now) ∙ q)
        | no other ↦
            only h ids x (sym (tables.find-put_ne h (hash.mur s) list table nonempty other) ∙ e) q
      ]

  pub push_cuts3-Only :
      (s : CString) (size : ℕ) (table : tables.Map)
      → Only table
      → Only (push_cuts3 hash tables id s size table)
  unfolding push_cuts3
  push_cuts3-Only s size table only =
      for_range-keeps Only _
        (λ i a h.
          for_range-keeps Only _
            (λ j a h.
              for_range-keeps Only _ (λ k a h. push_hash-Only (cut3 i j k s) a h) (j + 1)
                (size - (j + 1)) a h)
            (i + 1) (size - 1 - (i + 1)) a h)
        0 (size - 2) table only
