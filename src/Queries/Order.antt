-- ===== src/Queries/Order.antt =====
-- `Add` and `Remove` of `QidsVault` keep the ids in order.
use sigmod_programming_conte.Base.{
  ◌&&◌, ℕ, zero, suc, ◌+◌, ◌≤◌, ◌<◌, ◌≡◌, refl, ap, [], ◌∷◌, length, get_or, ltb, ◌==◌,
  if◌then◌else◌, to_nat, arith, All, count, Bool-cases, inl, inr,
}
use sigmod_programming_conte.Queries.Vault.{Vault, place_from, insert_at, add_qid, remove_qid}

abbrev pub IsSorted : Vault → Type 0
IsSorted [] = Unit {0}
IsSorted (x ∷ v) = All (◌≤◌ x) v × IsSorted v

-- The plain insertion into a sorted list.
abbrev pub sorted_insert : ℕ → Vault → Vault
sorted_insert q [] = q ∷ []
sorted_insert q (x ∷ v) = let rest = sorted_insert q v in if ltb x q then x ∷ rest else q ∷ x ∷ v

get_or-All : (x n : ℕ) (v : Vault) → All (◌≤◌ x) v → n < length v → x ≤ get_or v n 0
get_or-All x n [] h lt = elim lt [ ]
get_or-All x zero (y ∷ v) h lt = h.0
get_or-All x (suc n) (y ∷ v) h lt = get_or-All x n v h.1 (omega arith)

place_from-head :
    (q x n : ℕ) (v : Vault)
    → x < q
    → n ≤ length v
    → place_from q (suc n) (x ∷ v) ≡ suc (place_from q n v)
unfolding place_from
place_from-head q x zero v h le = ground arith
place_from-head q x (suc n) v h le = ground (arith, place_from-head q x n v h (omega arith))

place_from-All :
    (q x n : ℕ) (v : Vault)
    → q ≤ x
    → All (◌≤◌ x) v
    → n ≤ length v
    → place_from q (suc n) (x ∷ v) ≡ 0
unfolding place_from
place_from-All q x zero v h low le = ground arith
place_from-All q x (suc n) v h low le =
    ground (arith, place_from-All q x n v h low (omega arith), get_or-All x n v low (omega arith))

nothing_before : (q : ℕ) → place_from q 0 [] ≡ 0
unfolding place_from
nothing_before q = refl

-- On a sorted vault, the scan of `Add` from the end is the plain sorted insertion: the id goes before
-- the first id that is not less.
pub add_qid_lem : (q : ℕ) (v : Vault) → IsSorted v → add_qid q v ≡ sorted_insert q v
unfolding add_qid insert_at
add_qid_lem q [] h = ground (arith, nothing_before q)
add_qid_lem q (x ∷ v) h = elim (Bool-cases (ltb x q)) [
  | inl e ↦
      rw (place_from-head q x (length v) v (ground arith) (omega arith), e)
        (ap (◌∷◌ x) (add_qid_lem q v h.1))
  | inr e ↦ rw (place_from-All q x (length v) v (ground arith) h.0 (omega arith), e) refl
]

sorted_insert-All : (a q : ℕ) (v : Vault) → a ≤ q → All (◌≤◌ a) v → All (◌≤◌ a) (sorted_insert q v)
sorted_insert-All a q [] le h = (le, tt)
sorted_insert-All a q (x ∷ v) le h = ground (arith, sorted_insert-All a q v le h.1)

All-le : (a b : ℕ) (v : Vault) → a ≤ b → All (◌≤◌ b) v → All (◌≤◌ a) v
All-le a b [] le h = tt
All-le a b (x ∷ v) le h = (omega (arith, h.0), All-le a b v le h.1)

sorted_insert-IsSorted : (q : ℕ) (v : Vault) → IsSorted v → IsSorted (sorted_insert q v)
sorted_insert-IsSorted q [] h = (tt, tt)
sorted_insert-IsSorted q (x ∷ v) h = elim (Bool-cases (ltb x q)) [
  | inl e ↦ rw e (sorted_insert-All x q v (ground arith) h.0, sorted_insert-IsSorted q v h.1)
  | inr e ↦ rw e ((ground arith, All-le q x v (ground arith) h.0), h)
]

count-sorted_insert :
    (a q : ℕ) (v : Vault) → count a (sorted_insert q v) ≡ to_nat (a == q) + count a v
count-sorted_insert a q [] = refl
count-sorted_insert a q (x ∷ v) = ground (arith, count-sorted_insert a q v)

-- On a sorted vault, `Add` keeps the order and adds one occurrence of the id and nothing else.
pub add_qid-IsSorted :
    (q : ℕ) (v : Vault)
    → IsSorted v
    → IsSorted (add_qid q v) × ((a : ℕ) → count a (add_qid q v) ≡ to_nat (a == q) + count a v)
add_qid-IsSorted q v h =
    rw (add_qid_lem q v h) (sorted_insert-IsSorted q v h, λ a. count-sorted_insert a q v)

remove_qid-All : (P : ℕ → Type 0) (q : ℕ) (v : Vault) → All P v → All P (remove_qid q v)
unfolding remove_qid
remove_qid-All P q [] h = tt
remove_qid-All P q (x ∷ v) h = elim (Bool-cases (x == q)) [
  | inl e ↦ rw e h.1
  | inr e ↦ rw e (h.0, remove_qid-All P q v h.1)
]

remove_qid_order : (q : ℕ) (v : Vault) → IsSorted v → IsSorted (remove_qid q v)
unfolding remove_qid
remove_qid_order q [] h = tt
remove_qid_order q (x ∷ v) h = elim (Bool-cases (x == q)) [
  | inl e ↦ rw e h.1
  | inr e ↦ rw e (remove_qid-All (◌≤◌ x) q v h.0, remove_qid_order q v h.1)
]

count-remove_qid :
    (q a : ℕ) (v : Vault)
    → count a v ≡ to_nat (a == q && ltb 0 (count q v)) + count a (remove_qid q v)
unfolding remove_qid
count-remove_qid q a [] = ground arith
count-remove_qid q a (x ∷ v) = ground (arith, count-remove_qid q a v)

-- `Remove` keeps a sorted vault sorted; it removes one occurrence of the id, if there is one, and
-- nothing else.
pub remove_qid-IsSorted :
    (q : ℕ) (v : Vault)
    → IsSorted v
    → IsSorted (remove_qid q v)
      × ((a : ℕ) → count a v ≡ to_nat (a == q && ltb 0 (count q v)) + count a (remove_qid q v))
remove_qid-IsSorted q v h = (remove_qid_order q v h, λ a. count-remove_qid q a v)

remove_qid-sorted_insert : (q : ℕ) (v : Vault) → remove_qid q (sorted_insert q v) ≡ v
unfolding remove_qid
remove_qid-sorted_insert q [] = ground arith
remove_qid-sorted_insert q (x ∷ v) = ground (arith, remove_qid-sorted_insert q v)

-- `Remove` undoes `Add` on a sorted vault, also when the id was there before.
pub remove_qid-add_qid : (q : ℕ) (v : Vault) → IsSorted v → remove_qid q (add_qid q v) ≡ v
remove_qid-add_qid q v h = rw (add_qid_lem q v h) (remove_qid-sorted_insert q v)
