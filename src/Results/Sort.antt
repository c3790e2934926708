-- ===== src/Results/Sort.antt =====
-- QueryIndex/bitarea.cpp: `bitarea::results`, which collects the ids of the queries that a document matches and
-- sorts them by merging the runs of the entries. The runs are ascending, and `pos` has the place where each starts.
use sigmod_programming_conte.Base.{
  ℕ, zero, suc, ◌+◌, ◌-◌, ◌*◌, ◌/◌, ◌%◌, Bool, true, false, not, ◌&&◌, Option, none, some, List, [],
  ◌∷◌, ◌++◌, length, get_elem?, take, drop, ltb, leb, ◌==◌, if◌then◌else◌, ◌>>=◌, ◌>>◌, require,
}
use sigmod_programming_conte.Queries.Vault.{is_empty}
use sigmod_programming_conte.Queries.Index.{QueryInfo, info_at}
use sigmod_programming_conte.Results.Bitarea.{Bitarea, check_qmid}

-- The ids of an entry that has some.
unfoldable pub add_run : List ℕ → List ℕ × List ℕ → List ℕ × List ℕ
add_run qids (results, pos) =
    if is_empty qids then (results, pos) else (results ++ qids, pos ++ length results ∷ [])

-- The round of the first loop for one entry.
unfoldable pub collect_entry :
    ℕ → ℕ → List QueryInfo → Bitarea → List ℕ × List ℕ → Option (List ℕ × List ℕ)
collect_entry did qmid qi b (results, pos) = do
  require (ltb 0 did)
  matches ← check_qmid (did - 1) qmid b
  if matches
      then (do info ← info_at qmid qi; some (add_run info.qids (results, pos)))
      else some (results, pos)

-- The first loop, with the rounds left.
unfoldable pub collect :
    ℕ → ℕ → ℕ → List QueryInfo → Bitarea → List ℕ × List ℕ → Option (List ℕ × List ℕ)
collect zero did qmid qi b found = some found
collect (suc n) did qmid qi b found = do
  found' ← collect_entry did qmid qi b found
  collect n did (qmid + 1) qi b found'

-- What `memcpy` copies: `n` ids from place `i` on.
unfoldable pub copy : List ℕ → ℕ → ℕ → Option (List ℕ)
copy source i n = do require (leb (i + n) (length source)); some (take n (drop i source))

-- The innermost loop, with the rounds left. `dest` is what is written so far, up to `last`.
unfoldable pub merge_loop : ℕ → List ℕ → ℕ → ℕ → ℕ → ℕ → List ℕ → Option (List ℕ)
merge_loop zero source ind1 eind1 ind2 eind2 dest = some dest
merge_loop (suc n) source ind1 eind1 ind2 eind2 dest = do
  a ← get_elem? source ind1
  b ← get_elem? source ind2
  let ind1' = if ltb a b then ind1 + 1 else ind1
  let ind2' = if ltb a b then ind2 else ind2 + 1
  let dest' = dest ++ (if ltb a b then a else b) ∷ []
  let next = merge_loop n source ind1' eind1 ind2' eind2 dest'
  if ltb eind1 ind1'
      then (do rest ← copy source ind2' (eind2 - ind2' + 1); some (dest' ++ rest))
      else if ltb eind2 ind2'
      then (do rest ← copy source ind1' (eind1 - ind1' + 1); some (dest' ++ rest))
      else next

-- The end of the second block: the id before the next block, or the last one.
unfoldable pub block_end : ℕ → List ℕ → ℕ → ℕ → Option ℕ
block_end k pos count j =
    if ltb (length pos - 1) (j + k)
    then some (count - 1)
    else (do p ← get_elem? pos (j + k); some (p - 1))

-- The round of the middle loop: the blocks of `k / 2` runs from run `j` on and after it are merged.
unfoldable pub merge_block : ℕ → List ℕ → List ℕ → ℕ → List ℕ → Option (List ℕ)
merge_block k pos source j dest = do
  let half = if ltb 1 (k / 2) then k / 2 else 1
  ind1 ← get_elem? pos j
  after1 ← get_elem? pos (j + half)
  let eind1 = after1 - 1
  ind2 ← get_elem? pos (j + half)
  eind2 ← block_end k pos (length source) j
  let lim = eind2 - ind2 + eind1 - ind1
  merge_loop (lim + 1) source ind1 eind1 ind2 eind2 dest

-- The middle loop. It makes at most `john` rounds.
unfoldable pub merge_pass : ℕ → ℕ → List ℕ → List ℕ → ℕ → ℕ → List ℕ → Option (List ℕ)
merge_pass zero k pos source john j dest = some dest
merge_pass (suc n) k pos source john j dest =
    elim (ltb j john && not (ltb (length pos - 1) (j + k / 2))) [
      | true ↦ do
        dest' ← merge_block k pos source j dest
        merge_pass n k pos source john (j + k) dest'
      | false ↦ some dest
    ]

-- The `while` loop; `odd` is `vag == -1`. A round doubles `k`, so `xx` bounds the rounds.
unfoldable pub merge_passes : ℕ → ℕ → ℕ → Bool → List ℕ → List ℕ → Option (List ℕ)
merge_passes zero xx k odd pos source = none
merge_passes (suc n) xx k odd pos source = elim (ltb k xx) [
  | true ↦ do
    let john = if odd then length pos - 1 else length pos
    dest ← merge_pass john k pos source john 0 []
    rest ←
        if ltb (length dest) (length source)
        then copy source (length dest) (length source - length dest)
        else some []
    merge_passes n xx (k * 2) (not odd) pos (dest ++ rest)
  | false ↦ some source
]

-- `results`: the ids of the queries that document `did` matches.
unfoldable pub results : List QueryInfo → Bitarea → ℕ → Option (List ℕ)
results qi b did = do
  found ← collect b.size_ did 1 qi b ([], [])
  let x = length (found.1)
  let odd = x % 2 == 1
  let xx = (if odd && not (x == 1) then x + 1 else x) * 2
  if length (found.0) == 0 then some [] else merge_passes (xx + 1) xx 2 odd found.1 found.0
