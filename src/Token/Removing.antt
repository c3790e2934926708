-- ===== src/Token/Removing.antt =====
-- `RemoveQmid`: what it erases, what it keeps, and that it undoes `InsertQmid`.
use sigmod_programming_conte.Base.{
  ℕ, zero, suc, ◌<◌, ◌≡◌, ◌≢◌, refl, subst, sym, ap, ◌∙◌, Bool, true, false, Option, none, some,
  List, [], ◌∷◌, ◌++◌, ◌==◌, ◌||◌, set, get_or, arith, get_elem?-get_or, Option-cases, inl, inr,
  ==→eq,
}
use sigmod_programming_conte.Base.Bits.{has_bit, has_bit-clear, clear-lt, eq_of_bits}
use sigmod_programming_conte.Core.{MatchType, ErrorCode, ok, not_found}
use sigmod_programming_conte.Token.Defs.{
  TokenQmidInfo, TokenInfo, insert_qmid, erase_qmid, put_bucket, reset_highest, remove_at,
  remove_qmid,
}
use sigmod_programming_conte.Token.Requests.{
  asks, entries, filled, IsConsistent, slot, write-IsConsistent, reset_highest-same,
  same-IsConsistent,
}
use sigmod_programming_conte.Token.Inserting.{
  slot-lt, insert_qmid-IsConsistent, asks-slot, querypointer-insert_qmid,
}

-- The pointer that `RemoveQmid` leaves for what is left of a list.
abbrev pointer : List TokenQmidInfo → Option (List TokenQmidInfo)
pointer [] = none
pointer (x ∷ xs) = some (x ∷ xs)

pointer-ne : (l : List TokenQmidInfo) → pointer l ≢ some []
pointer-ne [] = ground arith
pointer-ne (x ∷ xs) = ground arith

entries-pointer : (l : List TokenQmidInfo) → entries (pointer l) ≡ l
entries-pointer [] = refl
entries-pointer (x ∷ xs) = refl

-- A pointer of a consistent word is the one that its entries have.
pointer-entries : (p : Option (List TokenQmidInfo)) → p ≢ some [] → pointer (entries p) ≡ p
pointer-entries none h = refl
pointer-entries (some []) h = absurd (h refl)
pointer-entries (some (x ∷ xs)) h = refl

put_bucket-writes :
    (b : ℕ) (l : List TokenQmidInfo) (t : TokenInfo)
    → (put_bucket b l t).querypointer ≡ set t.querypointer b (pointer l)
unfolding put_bucket
put_bucket-writes b [] t = refl
put_bucket-writes b (x ∷ xs) t = refl

put_bucket-IsConsistent :
    (b : ℕ) (l : List TokenQmidInfo) {t : TokenInfo}
    → b < 7
    → has_bit t.requests b ≡ true
    → IsConsistent t
    → IsConsistent (put_bucket b l t)
unfolding put_bucket
put_bucket-IsConsistent b [] {t} h set_bit c =
    write-IsConsistent (put_bucket b [] t) b none h c refl (clear-lt t.requests b c.small h)
      (ground arith) (λ j hj. ground (arith, has_bit-clear t.requests b j c.small h hj))
put_bucket-IsConsistent b (x ∷ xs) {t} h set_bit c =
    write-IsConsistent (put_bucket b (x ∷ xs) t) b (some (x ∷ xs)) h c refl c.small (ground arith)
      (λ j hj. ground (arith, ==→eq b j))

-- `RemoveQmid` on a list that is there.
remove_at_step :
    (i qmid : ℕ) (t : TokenInfo) {l : List TokenQmidInfo}
    → i < 7
    → IsConsistent t
    → get_or t.querypointer i none ≡ some l
    → remove_at i qmid t ≡ elim (erase_qmid qmid l) as (λ _. Option (TokenInfo × ErrorCode)) [
      | none ↦ some (t, not_found)
      | some rest ↦ some (reset_highest (put_bucket i rest t), ok)
    ]
unfolding remove_at
remove_at_step i qmid t lt c there =
    rw (get_elem?-get_or t.querypointer i none (omega (arith, c.width)), there) refl

-- What a call of `RemoveQmid` did with list `i`: it read a null pointer; or the query was not
-- there and nothing changed; or the first entry of the query is gone from that list, the other
-- lists are the same, and so is the rest of the word.
pub data Removal (t : TokenInfo) (i qmid : ℕ) : Option (TokenInfo × ErrorCode) → Type 0 where
  null_list : asks t i ≡ [] → Removal t i qmid none
  absent :
      asks t i ≢ [] → erase_qmid qmid (asks t i) ≡ none → Removal t i qmid (some (t, not_found))
  erased :
      {u : TokenInfo} (rest : List TokenQmidInfo)
      → erase_qmid qmid (asks t i) ≡ some rest
      → IsConsistent u
      → u.querypointer ≡ set t.querypointer i (pointer rest)
      → Removal t i qmid (some (u, ok))

has_bit_of_filled :
    {t : TokenInfo} {i : ℕ} (x : TokenQmidInfo) (xs : List TokenQmidInfo)
    → i < 7
    → IsConsistent t
    → get_or t.querypointer i none ≡ some (x ∷ xs)
    → has_bit t.requests i ≡ true
has_bit_of_filled {t} {i} x xs lt c there = rw (c.mirrors i lt, there)

found_cases :
    (i qmid : ℕ) (t : TokenInfo) (l : List TokenQmidInfo)
    → i < 7
    → IsConsistent t
    → get_or t.querypointer i none ≡ some l
    → Removal t i qmid (remove_at i qmid t)
found_cases i qmid t [] lt c there = absurd (c.pruned i lt there)
found_cases i qmid t (x ∷ xs) lt c there =
    rw (remove_at_step i qmid t lt c there) (elim (Option-cases (erase_qmid qmid (x ∷ xs))) [
      | inl gone ↦ rw gone (absent (rw there (ground arith)) (rw there gone))
      | inr (rest, left) ↦
          let put = put_bucket i rest t in
          let same = reset_highest-same put in
          rw left (
            erased rest (rw there left)
              (same-IsConsistent {t = put} (reset_highest put) same
                (put_bucket-IsConsistent i rest lt (has_bit_of_filled x xs lt c there) c))
              (same.0 ∙ put_bucket-writes i rest t))
    ])

remove_at_cases :
    (i qmid : ℕ) (t : TokenInfo) → i < 7 → IsConsistent t → Removal t i qmid (remove_at i qmid t)
unfolding remove_at
remove_at_cases i qmid t lt c = elim (Option-cases (get_or t.querypointer i none)) [
  | inr (l, there) ↦ found_cases i qmid t l lt c there
  | inl null ↦
      rw (get_elem?-get_or t.querypointer i none (omega (arith, c.width)), null)
        (null_list (rw null))
]

-- `RemoveQmid` for a type and a distance that have a list does one of three things: it reads a
-- null pointer, if no query is in that list; it changes nothing, if this query is not; else it
-- erases the first entry of this query, keeps the other lists, and keeps the invariant.
pub remove_qmid_cases :
    (qmid : ℕ) (mt : MatchType) (dist : ℕ) (t : TokenInfo) {i : ℕ}
    → slot mt dist ≡ some i
    → IsConsistent t
    → Removal t i qmid (remove_qmid qmid mt dist t)
unfolding remove_qmid
remove_qmid_cases qmid mt dist t {i} e c =
    let (lt, same) = slot-lt mt dist e in
    subst (λ b. Removal t i qmid (remove_at b qmid t)) (sym same) (remove_at_cases i qmid t lt c)

-- The queries recorded in a list, as ids.
abbrev pub mentions : ℕ → List TokenQmidInfo → Bool
mentions qmid [] = false
mentions qmid (x ∷ xs) = x.qmid_ == qmid || mentions qmid xs

erase_qmid-snoc :
    (qmid : ℕ) (l : List TokenQmidInfo) (x : TokenQmidInfo)
    → mentions qmid l ≡ false
    → x.qmid_ ≡ qmid
    → erase_qmid qmid (l ++ x ∷ []) ≡ some l
unfolding erase_qmid
erase_qmid-snoc qmid [] x h e = ground arith
erase_qmid-snoc qmid (y ∷ l) x h e = ground (arith, erase_qmid-snoc qmid l x)

set_twice :
    (xs : List (Option (List TokenQmidInfo))) (i : ℕ) (a b : Option (List TokenQmidInfo))
    → set (set xs i a) i b ≡ set xs i b
set_twice [] i a b = refl
set_twice (x ∷ xs) zero a b = refl
set_twice (x ∷ xs) (suc i) a b = ap (◌∷◌ x) (set_twice xs i a b)

set_self : (xs : List (Option (List TokenQmidInfo))) (i : ℕ) → set xs i (get_or xs i none) ≡ xs
set_self [] i = refl
set_self (x ∷ xs) zero = refl
set_self (x ∷ xs) (suc i) = ap (◌∷◌ x) (set_self xs i)

-- Equal lists have equal bits, so the bytes are equal too.
requests-eq :
    {t u : TokenInfo}
    → IsConsistent t
    → IsConsistent u
    → u.querypointer ≡ t.querypointer
    → u.requests ≡ t.requests
requests-eq {t} {u} c d e =
    eq_of_bits u.requests t.requests d.small c.small
      (λ i lt. d.mirrors i lt ∙ ap (λ q. filled (get_or q i none)) e ∙ sym (c.mirrors i lt))

-- A list that was written and then written back is the old one.
restored :
    (t u v : TokenInfo) (i : ℕ) (p : Option (List TokenQmidInfo)) (rest : List TokenQmidInfo)
    → i < 7
    → IsConsistent t
    → u.querypointer ≡ set t.querypointer i p
    → v.querypointer ≡ set u.querypointer i (pointer rest)
    → rest ≡ asks t i
    → v.querypointer ≡ t.querypointer
restored t u v i p rest lt c pushed left same =
    rw
      (
        left,
        pushed,
        set_twice t.querypointer i,
        same,
        pointer-entries (get_or t.querypointer i none) (c.pruned i lt),
      )
      (set_self t.querypointer i)

-- The result of a removal that can only have erased the last entry.
undone :
    {u : TokenInfo} {i qmid : ℕ} (r : Option (TokenInfo × ErrorCode)) (t : TokenInfo)
    (p : Option (List TokenQmidInfo))
    → i < 7
    → IsConsistent t
    → u.querypointer ≡ set t.querypointer i p
    → asks u i ≢ []
    → erase_qmid qmid (asks u i) ≡ some (asks t i)
    → Removal u i qmid r
    → (v : TokenInfo) × (r ≡ some (v, ok))
      × (v.querypointer ≡ t.querypointer)
      × (v.requests ≡ t.requests)
undone r t p lt c pushed some_there last (null_list empty) = absurd (some_there empty)
undone r t p lt c pushed some_there last (absent _ gone) = absurd (cc)
undone {u} {i} r t p lt c pushed some_there last (erased {u = v} rest left d wrote) =
    let same = restored t u v i p rest lt c pushed wrote (cc) in
    (v, refl, same, requests-eq c d same)

snoc-ne {ℓ} : {A : Type ℓ} (xs : List A) (x : A) → xs ++ x ∷ [] ≢ []
snoc-ne [] x = ground arith
snoc-ne (y ∷ xs) x = ground arith

-- `RemoveQmid` right after `InsertQmid` takes the lists and the request bits of the word back to
-- what they were, for a type and a distance that have a list and a query that was not in it.
pub remove_qmid-insert_qmid :
    (qmid position : ℕ) (mt : MatchType) (dist : ℕ) (t : TokenInfo) {i : ℕ}
    → slot mt dist ≡ some i
    → IsConsistent t
    → mentions qmid (asks t i) ≡ false
    → (v : TokenInfo) × (remove_qmid qmid mt dist (insert_qmid qmid position mt dist t).0
        ≡ some (v, ok))
      × (v.querypointer ≡ t.querypointer)
      × (v.requests ≡ t.requests)
remove_qmid-insert_qmid qmid position mt dist t {i} e c new =
    let u = (insert_qmid qmid position mt dist t).0 in
    let x : TokenQmidInfo = record { qmid_ = qmid; position_ = position } in
    let list : asks u i ≡ asks t i ++ x ∷ [] = asks-slot qmid position mt dist t e c in
    undone (remove_qmid qmid mt dist u) t _ (slot-lt mt dist e).0 c
      (querypointer-insert_qmid qmid position mt dist t e c) (rw list (snoc-ne (asks t i) x))
      (rw list (erase_qmid-snoc qmid (asks t i) x new refl))
      (remove_qmid_cases qmid mt dist u e (insert_qmid-IsConsistent qmid position mt dist c))
