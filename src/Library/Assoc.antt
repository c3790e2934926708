-- ===== src/Library/Assoc.antt =====
-- Association lists as a table, and a hash that is never 0: the assumptions can be met.
use mathlib.Core.Logic.{ite, if_pos, if_neg}
use sigmod_programming_conte.Base.{
  ℕ, suc, ◌+◌, ◌*◌, ◌≡◌, ◌≢◌, refl, Option, none, some, List, [], ◌∷◌, arith, ℕ_discrete,
}
use sigmod_programming_conte.Core.{CString, CString-discrete}
use sigmod_programming_conte.Library.{DenseMap, Hash}

module _ {K V : Type 0} (eq : Discrete K) where
  -- The last pair that was put for a key comes first.
  abbrev pub find_assoc : K → List (K × V) → Option V
  find_assoc k [] = none
  find_assoc k ((j, v) ∷ m) = ite (eq k j) (some v) (find_assoc k m)

  pub find_assoc_self : (k : K) (v : V) (m : List (K × V)) → find_assoc k ((k, v) ∷ m) ≡ some v
  find_assoc_self k v m = if_pos (eq k k) refl _ _

  pub find_assoc_ne :
      (j k : K) (v : V) (m : List (K × V)) → j ≢ k → find_assoc j ((k, v) ∷ m) ≡ find_assoc j m
  find_assoc_ne j k v m h = if_neg (eq j k) h _ _

  abbrev pub assoc : K → DenseMap K V
  assoc unused = record {
    Map = List (K × V);
    empty_key = unused;
    empty = [];
    find = find_assoc;
    put = λ k v m. (k, v) ∷ m;
    find-empty = λ k. refl;
    find-put_self = λ k v m h. find_assoc_self k v m;
    find-put_ne = λ j k v m h ne. find_assoc_ne j k v m ne;
  }

-- The dictionary of words: the empty string is the key that must not be stored.
abbrev pub words : (V : Type 0) → DenseMap CString V
words V = assoc CString-discrete []

-- A table from hashes.
abbrev pub table : (V : Type 0) → DenseMap ℕ V
table V = assoc ℕ_discrete 0

unfoldable pub sum_from : ℕ → CString → ℕ
sum_from acc [] = acc
sum_from acc (c ∷ s) = sum_from (acc * 31 + c) s

abbrev pub weak : Hash
weak = record { mur = λ s. suc (sum_from 7 s); mur-ne-zero = λ s. omega arith }

look_twice : (words ℕ).find (1 ∷ 2 ∷ []) ((1 ∷ 2 ∷ [], 5) ∷ []) ≡ some 5
unfolding CString-discrete
look_twice = refl
