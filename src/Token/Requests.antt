-- ===== src/Token/Requests.antt =====
-- `requests_` mirrors `querypointer_`: what `InsertQmid` and `RemoveQmid` keep and change.
use sigmod_programming_conte.Base.{
  ℕ, zero, suc, ◌<◌, ◌≡◌, ◌≢◌, refl, Bool, true, false, Option, none, some, List, [], ◌∷◌, ◌++◌,
  ◌==◌, if◌then◌else◌, length, set, get_or, arith, get_or-set, length-set, get_elem?-get_or,
}
use sigmod_programming_conte.Base.Bits.{has_bit, has_bit-bit_or, bit_or-lt}
use sigmod_programming_conte.Core.{MatchType, exact_match, hamming_dist, edit_dist, mt_none}
use sigmod_programming_conte.Token.Defs.{
  TokenQmidInfo, TokenInfo, raise_highest, push_info, insert_bucket, reset_highest,
}

-- The list behind a pointer, read as empty at null.
abbrev pub entries : Option (List TokenQmidInfo) → List TokenQmidInfo
entries none = []
entries (some l) = l

-- The queries that ask for the word in list `i`.
abbrev pub asks : TokenInfo → ℕ → List TokenQmidInfo
asks t i = entries (get_or t.querypointer i none)

abbrev pub filled : Option (List TokenQmidInfo) → Bool
filled none = false
filled (some []) = false
filled (some (x ∷ xs)) = true

-- Seven lists, none of them made and empty, and a bit in `requests` for each that is there.
pub record IsConsistent (t : TokenInfo) : Type 0 where
  pub width : length t.querypointer ≡ 7
  pub small : t.requests < 128
  pub mirrors : (i : ℕ) → i < 7 → has_bit t.requests i ≡ filled (get_or t.querypointer i none)
  pub pruned : (i : ℕ) → i < 7 → get_or t.querypointer i none ≢ some []

-- The list that a query with this type and distance is kept in, if there is one.
abbrev pub slot : MatchType → ℕ → Option ℕ
slot exact_match dist = some 0
slot hamming_dist zero = none
slot hamming_dist (suc zero) = some 1
slot hamming_dist (suc (suc zero)) = some 2
slot hamming_dist (suc (suc (suc zero))) = some 3
slot hamming_dist (suc (suc (suc (suc d)))) = none
slot edit_dist zero = none
slot edit_dist (suc zero) = some 4
slot edit_dist (suc (suc zero)) = some 5
slot edit_dist (suc (suc (suc zero))) = some 6
slot edit_dist (suc (suc (suc (suc d)))) = none
slot mt_none dist = none

filled-push_info :
    (p : Option (List TokenQmidInfo)) (x : TokenQmidInfo) → filled (push_info p x) ≡ true
filled-push_info none x = refl
filled-push_info (some []) x = refl
filled-push_info (some (y ∷ l)) x = refl

push_info-ne : (p : Option (List TokenQmidInfo)) (x : TokenQmidInfo) → push_info p x ≢ some []
push_info-ne none x = ground arith
push_info-ne (some []) x = ground arith
push_info-ne (some (y ∷ l)) x = ground arith

pub entries-push_info :
    (p : Option (List TokenQmidInfo)) (x : TokenQmidInfo)
    → entries (push_info p x) ≡ entries p ++ x ∷ []
entries-push_info none x = refl
entries-push_info (some l) x = refl

-- `insert_bucket` writes one list.
pub querypointer-insert_bucket :
    (i : ℕ) (x : TokenQmidInfo) (t : TokenInfo)
    → i < length t.querypointer
    → (insert_bucket i x t).querypointer
      ≡ set t.querypointer i (push_info (get_or t.querypointer i none) x)
unfolding insert_bucket
querypointer-insert_bucket i x t h =
    rw (get_elem?-get_or t.querypointer i none h, insert_bucket) refl

-- A write of list `i` that updates bit `i` to match keeps the invariant.
pub write-IsConsistent :
    {t : TokenInfo} (u : TokenInfo) (i : ℕ) (p : Option (List TokenQmidInfo))
    → i < 7
    → IsConsistent t
    → u.querypointer ≡ set t.querypointer i p
    → u.requests < 128
    → p ≢ some []
    → ((j : ℕ) → j < 7 → has_bit u.requests j ≡ (if i == j then filled p else has_bit t.requests j))
    → IsConsistent u
write-IsConsistent {t} u i p h c wrote small kept bits = record {
  width = rw (wrote, length-set) c.width;
  small = small;
  mirrors = λ j hj.
      rw (wrote, get_or-set t.querypointer i j p none (omega (arith, c.width)))
        (ground (arith, bits j hj, c.mirrors j hj));
  pruned = λ j hj.
      rw (wrote, get_or-set t.querypointer i j p none (omega (arith, c.width)))
        (ground (arith, kept, c.pruned j hj));
}

pub insert_bucket-IsConsistent :
    (i : ℕ) (x : TokenQmidInfo) {t : TokenInfo}
    → i < 7
    → IsConsistent t
    → IsConsistent (insert_bucket i x t)
unfolding insert_bucket
insert_bucket-IsConsistent i x {t} h c =
    let p = push_info (get_or t.querypointer i none) x in
    write-IsConsistent (insert_bucket i x t) i p h c
      (querypointer-insert_bucket i x t (omega (arith, c.width))) (bit_or-lt t.requests i c.small h)
      (push_info-ne _ x)
      (λ j hj. ground (
        arith,
        has_bit-bit_or t.requests i j c.small h hj,
        filled-push_info (get_or t.querypointer i none) x,
      ))

-- The two helpers at the end of the operations touch neither the lists nor the bits.
pub raise_highest-same :
    (t : TokenInfo)
    → ((raise_highest t).0.querypointer ≡ t.querypointer)
      × ((raise_highest t).0.requests ≡ t.requests)
unfolding raise_highest
raise_highest-same t = ground arith

pub reset_highest-same :
    (t : TokenInfo)
    → ((reset_highest t).querypointer ≡ t.querypointer) × ((reset_highest t).requests ≡ t.requests)
unfolding reset_highest
reset_highest-same t = ground arith

pub same-IsConsistent :
    {t : TokenInfo} (u : TokenInfo)
    → (u.querypointer ≡ t.querypointer) × (u.requests ≡ t.requests)
    → IsConsistent t
    → IsConsistent u
same-IsConsistent u (p, r) c = record {
  width = rw p c.width;
  small = rw r c.small;
  mirrors = λ j hj. rw (p, r) (c.mirrors j hj);
  pruned = λ j hj. rw p (c.pruned j hj);
}
