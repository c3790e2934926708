-- ===== src/Queries/Vault.antt =====
-- QueryIndex/QidsVault.{h,cpp}: the ids of the queries that share one entry, in ascending order.
use sigmod_programming_conte.Base.{
  ℕ, zero, suc, ◌+◌, Bool, List, [], ◌∷◌, ◌++◌, length, get_or, take, drop, ltb, ◌==◌,
  if◌then◌else◌,
}

abbrev pub Vault : Type 0
Vault = List ℕ

-- The loop of `Add`, from place `n` down: the place after the last id that is less than `q`.
unfoldable pub place_from : ℕ → ℕ → Vault → ℕ
place_from q zero v = 0
place_from q (suc n) v = let rest = place_from q n v in if ltb (get_or v n 0) q then suc n else rest

-- `vault_.insert(it, q)`.
unfoldable pub insert_at : ℕ → ℕ → Vault → Vault
insert_at i q v = take i v ++ q ∷ drop i v

-- `Add`.
unfoldable pub add_qid : ℕ → Vault → Vault
add_qid q v = insert_at (place_from q (length v) v) q v

-- `Remove`: the first occurrence is erased.
unfoldable pub remove_qid : ℕ → Vault → Vault
remove_qid q [] = []
remove_qid q (x ∷ v) = let rest = remove_qid q v in if x == q then v else x ∷ rest

-- `Empty`.
unfoldable pub is_empty : Vault → Bool
is_empty v = length v == 0

-- `QidsVaultIterator`: a place in the vault.
unfoldable pub at_end : ℕ → Vault → Bool
at_end it v = it == length v

unfoldable pub next : ℕ → ℕ
next it = it + 1
