-- ===== src/Library.antt =====
-- What the program takes from other projects: `google::dense_hash_map` and MurmurHash3. They are
-- parameters of the model; `Library/Assoc.antt` has a table that meets the assumptions.
pub mod Assoc
use sigmod_programming_conte.Base.{ℕ, ◌≡◌, ◌≢◌, Option, none, some}
use sigmod_programming_conte.Core.{CString}

-- `google::dense_hash_map<K, V>`: `find`, and `operator[]` on the left of an assignment. The key
-- given to `set_empty_key` must not be stored.
pub record DenseMap (K V : Type 0) : Type 1 where
  pub Map : Type 0
  pub empty_key : K
  pub empty : Map
  pub find : K → Map → Option V
  pub put : K → V → Map → Map
  pub find-empty : (k : K) → find k empty ≡ none
  pub find-put_self : (k : K) (v : V) (m : Map) → k ≢ empty_key → find k (put k v m) ≡ some v
  pub find-put_ne :
      (j k : K) (v : V) (m : Map) → k ≢ empty_key → j ≢ k → find j (put k v m) ≡ find j m

-- `mur()(s)`: the hash of a string. The tables of the program are keyed by it, with 0 for the
-- empty key, so the program relies on no string having hash 0.
pub record Hash : Type 0 where
  pub mur : CString → ℕ
  pub mur-ne-zero : (s : CString) → mur s ≢ 0
