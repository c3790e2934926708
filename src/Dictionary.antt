-- ===== src/Dictionary.antt =====
-- TokenIndex/TokenDuplicateIndex.{h,cc}: the dictionary from words to their ids.
use mathlib.Core.Logic.{ite}
use mathlib.Core.Option.{get_or}
use sigmod_programming_conte.Base.{
  arith, ◌≡◌, ◌≢◌, Bool, true, false, Option, none, some, inl, inr, Option-cases, refl,
  if◌then◌else◌,
}
use sigmod_programming_conte.Core.{
  CString-discrete, CString, TokenId, ErrorCode, error, ok, not_found,
}
use sigmod_programming_conte.Library.{DenseMap}

module _ (dict : DenseMap CString TokenId) where
  open dict use {Map, empty_key, find, put, find-put_self, find-put_ne}

  -- `Exists`.
  unfoldable pub exists : CString → Map → Bool
  exists s m = elim (find s m) [ none ↦ false | some _ ↦ true ]

  -- `AddPair`.
  unfoldable pub add_pair : CString → TokenId → Map → Map × ErrorCode
  unfolding exists
  add_pair s tid m = if exists s m then (m, error) else (put s tid m, ok)

  -- `LookUpTokenExactManager`: the id is written only if the word is there.
  unfoldable pub look_up : CString → Map → Option TokenId × ErrorCode
  look_up s m = elim (find s m) [ none ↦ (none, not_found) | some tid ↦ (some tid, ok) ]

  add_pair_new :
      (s : CString) (tid : TokenId) (m : Map)
      → find s m ≡ none
      → add_pair s tid m ≡ (put s tid m, ok)
  unfolding add_pair
  add_pair_new s tid m e = ground arith

  pub add_pair_known :
      (s : CString) (tid : TokenId) (m : Map) {t : TokenId}
      → find s m ≡ some t
      → add_pair s tid m ≡ (m, error)
  unfolding add_pair
  add_pair_known s tid m e = ground arith

  pub find-add_pair_self :
      (s : CString) (tid : TokenId) (m : Map)
      → s ≢ empty_key
      → find s m ≡ none
      → find s (add_pair s tid m).0 ≡ some tid
  find-add_pair_self s tid m h e = rw (add_pair_new s tid m e) (find-put_self s tid m h)

  pub find-add_pair_ne :
      (j s : CString) (tid : TokenId) (m : Map)
      → s ≢ empty_key
      → j ≢ s
      → find j (add_pair s tid m).0 ≡ find j m
  find-add_pair_ne j s tid m h ne = elim (Option-cases (find s m)) [
    | inl e ↦ rw (add_pair_new s tid m e) (find-put_ne j s tid m h ne)
    | inr (t, e) ↦ rw (add_pair_known s tid m e) refl
  ]

  look_up-add_pair_self :
      (s : CString) (tid : TokenId) (m : Map)
      → s ≢ empty_key
      → (look_up s (add_pair s tid m).0).0 ≡ some (get_or (look_up s m).0 tid)
  unfolding look_up
  look_up-add_pair_self s tid m h = elim (Option-cases (find s m)) [
    | inl e ↦ ground (arith, find-add_pair_self s tid m h e)
    | inr (t, e) ↦ ground (arith, add_pair_known s tid m e)
  ]

  look_up-add_pair_ne :
      (j s : CString) (tid : TokenId) (m : Map)
      → s ≢ empty_key
      → j ≢ s
      → (look_up j (add_pair s tid m).0).0 ≡ (look_up j m).0
  unfolding look_up
  look_up-add_pair_ne j s tid m h ne = ground (arith, find-add_pair_ne j s tid m h ne)

  -- After `AddPair` of a word that is not the empty key, the word is found, under its old id if it had one and
  -- under the new id if not; every other word is found, or not, as before.
  pub look_up-add_pair :
      (j s : CString) (tid : TokenId) (m : Map)
      → s ≢ empty_key
      → (look_up j (add_pair s tid m).0).0
        ≡ ite (CString-discrete j s) (some (get_or (look_up s m).0 tid)) (look_up j m).0
  look_up-add_pair j s tid m h =
      elim (CString-discrete j s)
        as (λ d.
          (look_up j (add_pair s tid m).0).0
          ≡ ite d (some (get_or (look_up s m).0 tid)) (look_up j m).0) [
            | yes e ↦ rw e (look_up-add_pair_self s tid m h)
            | no ne ↦ look_up-add_pair_ne j s tid m h ne
          ]
