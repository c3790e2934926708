-- ===== src/Token/Highest.antt =====
-- `highest_request`, which decides whether a word is compared with the document words again.
use sigmod_programming_conte.Base.{
  ℕ, zero, suc, ◌^◌, ◌≤◌, ◌<◌, ◌≡◌, ◌≢◌, refl, ap, ◌∙◌, max, ◌||◌, Option, none, some, ltb, ◌==◌,
  if◌then◌else◌, arith, bit_or,
}
use sigmod_programming_conte.Base.Bits.{has_bit, has_bit-bit_or, bit_or-lt, two_bits}
use sigmod_programming_conte.Core.{MatchType, mt_none, ok, token_up}
use sigmod_programming_conte.Token.Defs.{TokenInfo, raise_highest, insert_bucket, insert_qmid}
use sigmod_programming_conte.Token.Requests.{slot, raise_highest-same}
use sigmod_programming_conte.Token.Inserting.{record_at, insert_qmid-record_at, slot-lt}

-- The largest distance that a set of request bits asks for.
abbrev pub level : ℕ → ℕ
level r =
    if has_bit r 3 || has_bit r 6
    then 3
    else if has_bit r 2 || has_bit r 5
    then 2
    else if has_bit r 1 || has_bit r 4
    then 1
    else 0

-- `highest_request` is at least what the bits ask for, and a distance.
pub record IsCovered (t : TokenInfo) : Type 0 where
  pub covers : level t.requests ≤ t.highest_request
  pub within : t.highest_request ≤ 3

-- The distance of a slot: 0, then 1 to 3 for Hamming, then 1 to 3 for edit distance.
abbrev pub distance_of : ℕ → ℕ
distance_of zero = 0
distance_of (suc zero) = 1
distance_of (suc (suc zero)) = 2
distance_of (suc (suc (suc zero))) = 3
distance_of (suc (suc (suc (suc i)))) = suc i

raise_highest_lem :
    (t : TokenInfo)
    → t.requests < 128
    → t.highest_request ≤ 3
    → ((raise_highest t).0.highest_request ≡ max t.highest_request (level t.requests))
      × ((raise_highest t).1 ≡ (if ltb t.highest_request (level t.requests) then token_up else ok))
unfolding raise_highest
raise_highest_lem t small within = ground (arith, two_bits t.requests small)

ltb_same : (x y l d h : ℕ) → x ≡ h → y ≡ max l d → l ≤ h → ltb x y ≡ ltb h d
ltb_same x y l d h ex ey old = ground arith

-- What `raise_highest` does to a word whose bits ask for one more distance `d`.
raised_cases :
    (u : TokenInfo) (l d h : ℕ)
    → l ≤ h
    → h ≤ 3
    → d ≤ 3
    → u.highest_request ≡ h
    → level u.requests ≡ max l d
    → u.requests < 128
    → ((raise_highest u).0.highest_request ≡ max h d)
      × ((raise_highest u).1 ≡ (if ltb h d then token_up else ok))
      × IsCovered (raise_highest u).0
raised_cases u l d h old within small high leveled bits =
    let (raised, code) = raise_highest_lem u bits (omega arith) in
    let top : (raise_highest u).0.highest_request ≡ max h d = omega arith in
    (
      top,
      code ∙ ap (λ b. if b then token_up else ok) (ltb_same _ _ l d h high leveled old),
      record {
        covers = rw ((raise_highest-same u).1) (omega (arith, top));
        within = omega (arith, top);
      },
    )

level-bit_or :
    (r i : ℕ) → r < 128 → i < 7 → level (bit_or r (2 ^ i)) ≡ max (level r) (distance_of i)
level-bit_or r i h hi =
    split i hi (bit_or r (2 ^ i)) (bit 1 (omega arith)) (bit 2 (omega arith)) (bit 3 (omega arith))
      (bit 4 (omega arith)) (bit 5 (omega arith)) (bit 6 (omega arith))
  where
    bit : (j : ℕ) → j < 7 → has_bit (bit_or r (2 ^ i)) j ≡ (i == j || has_bit r j)
    bit j hj = has_bit-bit_or r i j h hi hj

    split :
        (k : ℕ)
        → k < 7
        → (b : ℕ) → has_bit b 1 ≡ (k == 1 || has_bit r 1)
        → has_bit b 2 ≡ (k == 2 || has_bit r 2)
        → has_bit b 3 ≡ (k == 3 || has_bit r 3)
        → has_bit b 4 ≡ (k == 4 || has_bit r 4)
        → has_bit b 5 ≡ (k == 5 || has_bit r 5)
        → has_bit b 6 ≡ (k == 6 || has_bit r 6)
        → level b ≡ max (level r) (distance_of k)
    split zero _ b b1 b2 b3 b4 b5 b6 = ground arith
    split (suc zero) _ b b1 b2 b3 b4 b5 b6 = ground arith
    split (suc (suc zero)) _ b b1 b2 b3 b4 b5 b6 = ground arith
    split (suc (suc (suc zero))) _ b b1 b2 b3 b4 b5 b6 = ground arith
    split (suc (suc (suc (suc zero)))) _ b b1 b2 b3 b4 b5 b6 = ground arith
    split (suc (suc (suc (suc (suc zero))))) _ b b1 b2 b3 b4 b5 b6 = ground arith
    split (suc (suc (suc (suc (suc (suc zero)))))) _ b b1 b2 b3 b4 b5 b6 = ground arith
    split (suc (suc (suc (suc (suc (suc (suc k))))))) lt b b1 b2 b3 b4 b5 b6 = absurd (omega arith)

abbrev pub distance_at : Option ℕ → ℕ
distance_at none = 0
distance_at (some i) = distance_of i

pub distance-le : (s : Option ℕ) → ((i : ℕ) → s ≡ some i → i < 7) → distance_at s ≤ 3
distance-le none lt = omega arith
distance-le (some i) lt = small i (lt i refl)
  where
    small : (i : ℕ) → i < 7 → distance_of i ≤ 3
    small zero h = omega arith
    small (suc zero) h = omega arith
    small (suc (suc zero)) h = omega arith
    small (suc (suc (suc zero))) h = omega arith
    small (suc (suc (suc (suc i)))) h = omega arith

-- The distance that a query asks for: 0 for a query that no list records.
abbrev pub asked : MatchType → ℕ → ℕ
asked mt dist = distance_at (slot mt dist)

record_at-level :
    (s : Option ℕ) (qmid position : ℕ) (t : TokenInfo)
    → t.requests < 128
    → ((i : ℕ) → s ≡ some i → i < 7)
    → let u = record_at s (record { qmid_ = qmid; position_ = position }) t in
      (u.requests < 128)
      × (level u.requests ≡ max (level t.requests) (distance_at s))
      × (u.highest_request ≡ t.highest_request)
unfolding record_at insert_bucket
record_at-level none qmid position t small lt = (small, grind arith, refl)
record_at-level (some i) qmid position t small lt =
    (bit_or-lt t.requests i small (lt i refl), level-bit_or t.requests i small (lt i refl), refl)

-- `InsertQmid` raises `highest_request` to the distance of the query if that is larger, and it
-- returns `TOKENUP` exactly then, and `OK` otherwise. The distance still covers the request bits of the word. This
-- holds for a word whose distance covers its request bits, of which there are seven, and a query of some type.
pub highest_request-insert_qmid :
    (qmid position : ℕ) (mt : MatchType) (dist : ℕ) (t : TokenInfo)
    → t.requests < 128
    → IsCovered t
    → mt ≢ mt_none
    → let (u, code) = insert_qmid qmid position mt dist t in
      (u.highest_request ≡ max t.highest_request (asked mt dist))
      × (code ≡ (if ltb t.highest_request (asked mt dist) then token_up else ok))
      × IsCovered u
highest_request-insert_qmid qmid position mt dist t small v typed =
    let u = record_at (slot mt dist) (record { qmid_ = qmid; position_ = position }) t in
    let (bits, leveled, high) =
      record_at-level (slot mt dist) qmid position t small (λ i e. (slot-lt mt dist e).0) in
    rw (insert_qmid-record_at qmid position mt dist t typed) (
      raised_cases u (level t.requests) (asked mt dist) t.highest_request v.covers v.within
        (distance-le (slot mt dist) (λ i e. (slot-lt mt dist e).0)) high leveled bits)
