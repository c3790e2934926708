-- ===== src/Token/Inserting.antt =====
-- `InsertQmid`: where a query is recorded.
use sigmod_programming_conte.Base.{
  ℕ, zero, suc, ◌<◌, ◌≡◌, ◌≢◌, refl, sym, ap, ◌∙◌, Option, none, some, [], ◌∷◌, ◌++◌, ◌==◌,
  if◌then◌else◌, set, get_or, arith, get_or-set, Option-cases, inl, inr, append-nil, ==→eq,
}
use sigmod_programming_conte.Core.{MatchType, exact_match, hamming_dist, edit_dist, mt_none}
use sigmod_programming_conte.Token.Defs.{
  TokenQmidInfo, TokenInfo, raise_highest, push_info, insert_bucket, insert_by_dist, insert_qmid,
  bucket_of,
}
use sigmod_programming_conte.Token.Requests.{
  asks, IsConsistent, slot, querypointer-insert_bucket, insert_bucket-IsConsistent,
  raise_highest-same, same-IsConsistent, entries-push_info,
}

-- What `insert_qmid` records, through the slot of the query.
unfoldable pub record_at : Option ℕ → TokenQmidInfo → TokenInfo → TokenInfo
record_at none x t = t
record_at (some i) x t = insert_bucket i x t

insert_by_dist-record_at :
    (x : TokenQmidInfo) (dist : ℕ) (t : TokenInfo)
    → (insert_by_dist 0 dist x t ≡ record_at (slot hamming_dist dist) x t)
      × (insert_by_dist 3 dist x t ≡ record_at (slot edit_dist dist) x t)
unfolding insert_by_dist record_at
insert_by_dist-record_at x zero t = (refl, refl)
insert_by_dist-record_at x (suc zero) t = (refl, refl)
insert_by_dist-record_at x (suc (suc zero)) t = (refl, refl)
insert_by_dist-record_at x (suc (suc (suc zero))) t = (refl, refl)
insert_by_dist-record_at x (suc (suc (suc (suc d)))) t = (ground arith, ground arith)

pub insert_qmid-record_at :
    (qmid position : ℕ) (mt : MatchType) (dist : ℕ) (t : TokenInfo)
    → mt ≢ mt_none
    → insert_qmid qmid position mt dist t
      ≡ raise_highest (record_at (slot mt dist) (record { qmid_ = qmid; position_ = position }) t)
unfolding insert_qmid record_at
insert_qmid-record_at qmid position exact_match dist t h = refl
insert_qmid-record_at qmid position hamming_dist dist t h =
    ap raise_highest
      (insert_by_dist-record_at (record { qmid_ = qmid; position_ = position }) dist t).0
insert_qmid-record_at qmid position edit_dist dist t h =
    ap raise_highest
      (insert_by_dist-record_at (record { qmid_ = qmid; position_ = position }) dist t).1
insert_qmid-record_at qmid position mt_none dist t h = absurd (h refl)

insert_qmid-same :
    (qmid position : ℕ) (mt : MatchType) (dist : ℕ) (t : TokenInfo)
    → let u = (insert_qmid qmid position mt dist t).0 in
      let v = record_at (slot mt dist) (record { qmid_ = qmid; position_ = position }) t in
      (u.querypointer ≡ v.querypointer) × (u.requests ≡ v.requests)
unfolding insert_qmid record_at
insert_qmid-same qmid position exact_match dist t =
    raise_highest-same (insert_bucket 0 (record { qmid_ = qmid; position_ = position }) t)
insert_qmid-same qmid position hamming_dist dist t =
    rw (insert_qmid-record_at qmid position hamming_dist dist t (λ e. cc)) (
      raise_highest-same
        (record_at (slot hamming_dist dist) (record { qmid_ = qmid; position_ = position }) t))
insert_qmid-same qmid position edit_dist dist t =
    rw (insert_qmid-record_at qmid position edit_dist dist t (λ e. cc)) (
      raise_highest-same
        (record_at (slot edit_dist dist) (record { qmid_ = qmid; position_ = position }) t))
insert_qmid-same qmid position mt_none dist t = (refl, refl)

pub slot-lt :
    (mt : MatchType) (dist : ℕ) {i : ℕ} → slot mt dist ≡ some i → (i < 7) × (bucket_of mt dist ≡ i)
unfolding bucket_of
slot-lt exact_match dist e = ground arith
slot-lt hamming_dist zero e = ground arith
slot-lt hamming_dist (suc zero) e = ground arith
slot-lt hamming_dist (suc (suc zero)) e = ground arith
slot-lt hamming_dist (suc (suc (suc zero))) e = ground arith
slot-lt hamming_dist (suc (suc (suc (suc d)))) e = ground arith
slot-lt edit_dist zero e = ground arith
slot-lt edit_dist (suc zero) e = ground arith
slot-lt edit_dist (suc (suc zero)) e = ground arith
slot-lt edit_dist (suc (suc (suc zero))) e = ground arith
slot-lt edit_dist (suc (suc (suc (suc d)))) e = ground arith
slot-lt mt_none dist e = ground arith

-- `InsertQmid` keeps the invariant, whatever the type and the distance.
pub insert_qmid-IsConsistent :
    (qmid position : ℕ) (mt : MatchType) (dist : ℕ) {t : TokenInfo}
    → IsConsistent t
    → IsConsistent (insert_qmid qmid position mt dist t).0
unfolding record_at
insert_qmid-IsConsistent qmid position mt dist {t} c =
    let x : TokenQmidInfo = record { qmid_ = qmid; position_ = position } in
    same-IsConsistent {t = record_at (slot mt dist) x t} (insert_qmid qmid position mt dist t).0
      (insert_qmid-same qmid position mt dist t)
      (elim (Option-cases (slot mt dist)) [
        | inl e ↦ rw e c
        | inr (i, e) ↦ rw e (insert_bucket-IsConsistent i x (slot-lt mt dist e).0 c)
      ])

-- `InsertQmid` appends the query to the list of its type and distance, and to no other.
pub asks-insert_qmid :
    (qmid position : ℕ) (mt : MatchType) (dist : ℕ) {t : TokenInfo} (j : ℕ)
    → IsConsistent t
    → asks (insert_qmid qmid position mt dist t).0 j
      ≡ asks t j ++ (elim (slot mt dist) [
        | none ↦ []
        | some i ↦ if i == j then record { qmid_ = qmid; position_ = position } ∷ [] else []
      ])
unfolding record_at
asks-insert_qmid qmid position mt dist {t} j c =
    let x : TokenQmidInfo = record { qmid_ = qmid; position_ = position } in
    rw ((insert_qmid-same qmid position mt dist t).0) (elim (Option-cases (slot mt dist)) [
      | inl e ↦ rw e (sym (append-nil (asks t j)))
      | inr (i, e) ↦
          let lt = (slot-lt mt dist e).0 in
          rw
            (
              e,
              querypointer-insert_bucket i x t (omega (arith, c.width)),
              get_or-set t.querypointer i j (push_info (get_or t.querypointer i none) x) none
                  (omega (arith, c.width)),
            )
            (ground (
              arith,
              entries-push_info (get_or t.querypointer j none) x,
              append-nil (asks t j),
              ==→eq i j,
            ))
    ])

-- The write that `insert_qmid` makes for a query that has a slot.
pub querypointer-insert_qmid :
    (qmid position : ℕ) (mt : MatchType) (dist : ℕ) (t : TokenInfo) {i : ℕ}
    → slot mt dist ≡ some i
    → IsConsistent t
    → (insert_qmid qmid position mt dist t).0.querypointer
      ≡ set t.querypointer i
          (push_info (get_or t.querypointer i none) (record { qmid_ = qmid; position_ = position }))
unfolding record_at
querypointer-insert_qmid qmid position mt dist t {i} e c =
    (insert_qmid-same qmid position mt dist t).0
    ∙ rw e (querypointer-insert_bucket i _ t (omega (arith, c.width, (slot-lt mt dist e).0)))

pub asks-slot :
    (qmid position : ℕ) (mt : MatchType) (dist : ℕ) (t : TokenInfo) {i : ℕ}
    → slot mt dist ≡ some i
    → IsConsistent t
    → asks (insert_qmid qmid position mt dist t).0 i
      ≡ asks t i ++ record { qmid_ = qmid; position_ = position } ∷ []
asks-slot qmid position mt dist t {i} e c =
    asks-insert_qmid qmid position mt dist i c ∙ rw e (ground arith)
