-- ===== src/Results/Bitarea.antt =====
-- QueryIndex/bitarea: the class, but for its results.
use sigmod_programming_conte.Base.{
  ℕ, ◌+◌, ◌-◌, ◌%◌, ◌^◌, Bool, Option, none, some, List, [], ◌∷◌, get_elem?, set, ltb, ◌==◌,
  if◌then◌else◌, ◌>>=◌, ◌>>◌, require, replicate, length, bit_and,
}
use sigmod_programming_conte.Base.Bits.{has_bit}
use sigmod_programming_conte.Token.Defs.{TokenQmidInfo}

-- `qmidinfo`: a flag for each of the five words of a query, and how many words it has.
pub record QmidInfo : Type 0 where
  pub token : List ℕ
  pub count : ℕ

-- The rows are the documents of the batch, the columns the entries of the query index.
pub record Bitarea : Type 0 where
  pub vault_ : List (List QmidInfo)
  pub size_ : ℕ
  pub ndocs_ : ℕ

-- `vault_[did - 1][qmid - 1].token[pos] = 1`.
unfoldable pub mark : ℕ → ℕ → ℕ → Bitarea → Option Bitarea
mark qmid pos did b = do
  require (ltb 0 did)
  row ← get_elem? b.vault_ (did - 1)
  require (ltb 0 qmid)
  cell ← get_elem? row (qmid - 1)
  require (ltb pos (length cell.token))
  some (record b {
    vault_ =
        set b.vault_ (did - 1) (set row (qmid - 1) (record cell { token = set cell.token pos 1 }));
  })

-- `Set` for one word of a query, in all documents of the list.
unfoldable pub set_docs : List ℕ → ℕ → ℕ → Bitarea → Option Bitarea
set_docs [] qmid pos b = some b
set_docs (did ∷ doclist) qmid pos b = do b' ← mark qmid pos did b; set_docs doclist qmid pos b'

-- The loop of the other `Set`.
unfoldable pub set_requests : List ℕ → List TokenQmidInfo → Bitarea → Option Bitarea
set_requests doclist [] b = some b
set_requests doclist (r ∷ qlist) b = do
  b' ← set_docs doclist r.qmid_ r.position_ b
  set_requests doclist qlist b'

-- `Set` for a list of requests, which may be a null pointer.
unfoldable pub set_list : List ℕ → Option (List TokenQmidInfo) → ℕ → Bitarea → Option Bitarea
set_list doclist none pos b = some b
set_list doclist (some qlist) pos b =
    if bit_and 127 (2 ^ pos % 256) == 0 then some b else set_requests doclist qlist b

-- The loop of `SetStauros` from `i` on.
unfoldable pub set_lists :
    List ℕ → List (Option (List TokenQmidInfo)) → ℕ → ℕ → Bitarea → Option Bitarea
set_lists doclist [] result i b = some b
set_lists doclist (qlist ∷ pointer) result i b = do
  b' ← if has_bit result i then set_list doclist qlist i b else some b
  set_lists doclist pointer result (i + 1) b'

-- `SetStauros`; `pointer` has seven lists.
unfoldable pub set_stauros :
    Option (List ℕ) → List (Option (List TokenQmidInfo)) → ℕ → Bitarea → Option Bitarea
set_stauros none pointer result b = some b
set_stauros (some doclist) pointer result b = set_lists doclist pointer result 0 b

-- `CheckQmid`; `doc` counts from 0.
unfoldable pub check_qmid : ℕ → ℕ → Bitarea → Option Bool
check_qmid doc qmid b = do
  row ← get_elem? b.vault_ doc
  require (ltb 0 qmid)
  cell ← get_elem? row (qmid - 1)
  t1 ← get_elem? cell.token 1
  t0 ← get_elem? cell.token 0
  t2 ← get_elem? cell.token 2
  t3 ← get_elem? cell.token 3
  t4 ← get_elem? cell.token 4
  some (t1 + t0 + t2 + t3 + t4 == cell.count)

-- A row of the constructor.
unfoldable pub columns : List ℕ → List QmidInfo
columns [] = []
columns (n ∷ ns) = record { token = replicate 5 0; count = n } ∷ columns ns

-- The constructor, for entries with these numbers of words.
unfoldable pub new_bitarea : List ℕ → ℕ → Bitarea
new_bitarea counts ndocs = record {
  vault_ = replicate ndocs (columns counts);
  size_ = length counts;
  ndocs_ = ndocs;
}
