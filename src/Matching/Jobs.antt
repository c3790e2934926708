-- ===== src/Matching/Jobs.antt =====
-- JobScheduler/JobMatchPrune.cpp: `QD3` to `QD0`, which look a fresh query word up among the document words, and
-- `DQ`, which looks a fresh document word up among the query words.
use sigmod_programming_conte.Base.{
  ℕ, zero, suc, ◌+◌, ◌-◌, Option, none, some, List, [], get_elem?, ltb, leb, ◌==◌, if◌then◌else◌,
  ◌>>=◌,
}
use sigmod_programming_conte.Core.{CString, TokenId}
use sigmod_programming_conte.Library.{DenseMap, Hash}
use sigmod_programming_conte.Manager.Defs.{Manager, space_at, manager_token_info}
use sigmod_programming_conte.Jobs.Defs.{
  Job, job_match_prune_qd3, job_match_prune_qd2, job_match_prune_qd1, job_match_prune_qd0,
  job_match_prune1,
}
use sigmod_programming_conte.Matching.Relations.{WordSat}
use sigmod_programming_conte.Matching.Compare.{set_dimis_anapodi, each_cut, probe, on_the_fly}

-- `abs(a - b)`.
unfoldable pub difference : ℕ → ℕ → ℕ
difference a b = if ltb a b then b - a else a - b

-- How many bytes of the query word to leave out, and the table of document words to look in, for the
-- queries with distance 3. The lists are the branches on `diafora`.
unfoldable pub plan3 : ℕ → ℕ → Option (ℕ × ℕ)
plan3 docspace queryspace =
    let diafora = difference docspace queryspace in
    if leb queryspace docspace
    then (if diafora == 0
        then some (3, 3)
        else if diafora == 1
        then some (2, 3)
        else if diafora == 2
        then some (1, 3)
        else if diafora == 3
        then some (0, 3)
        else none)
    else if diafora == 1
    then some (3, 2)
    else if diafora == 2
    then some (3, 1)
    else if diafora == 3
    then some (3, 0)
    else none

-- For distance 2.
unfoldable pub plan2 : ℕ → ℕ → Option (ℕ × ℕ)
plan2 docspace queryspace =
    let diafora = difference docspace queryspace in
    if leb queryspace docspace
    then (if diafora == 0
        then some (2, 2)
        else if diafora == 1
        then some (1, 2)
        else if diafora == 2
        then some (0, 2)
        else none)
    else if diafora == 1
    then some (2, 1)
    else if diafora == 2
    then some (2, 0)
    else none

-- For distance 1.
unfoldable pub plan1 : ℕ → ℕ → Option (ℕ × ℕ)
plan1 docspace queryspace =
    let diafora = difference docspace queryspace in
    if leb queryspace docspace
    then (if diafora == 0 then some (1, 1) else if diafora == 1 then some (0, 1) else none)
    else if diafora == 1
    then some (1, 0)
    else none

-- For exact matches.
unfoldable pub plan0 : ℕ → ℕ → Option (ℕ × ℕ)
plan0 docspace queryspace =
    if leb queryspace docspace
    then (if difference docspace queryspace == 0 then some (0, 0) else none)
    else none

-- For `DQ`: bytes of the document word, and the table of query words. Its branches are those of `QD3` with the
-- two lengths exchanged, and one more that no pair of lengths reaches.
unfoldable pub plan_dq : ℕ → ℕ → Option (ℕ × ℕ)
plan_dq queryspace docspace =
    let diafora = difference queryspace docspace in
    if leb docspace queryspace
    then (if diafora == 0
        then some (3, 3)
        else if diafora == 1
        then some (2, 3)
        else if diafora == 2
        then some (1, 3)
        else if diafora == 3
        then some (0, 3)
        else none)
    else if diafora == 0
    then some (3, 3)
    else if diafora == 1
    then some (3, 2)
    else if diafora == 2
    then some (3, 1)
    else if diafora == 3
    then some (3, 0)
    else none

module _ (hash : Hash) (tables : DenseMap ℕ (List ℕ)) (dict : DenseMap CString TokenId)
    (rels : DenseMap ℕ (List WordSat)) where
  -- The body of the loops of `QD3` to `QD0` for one fresh query word: `memory` starts empty.
  unfoldable pub qd_word :
      Option (ℕ × ℕ) → ℕ → ℕ → ℕ → Manager dict.Map tables.Map → rels.Map → Option rels.Map
  qd_word none queryspace docspace id m rel = some rel
  qd_word (some (ana, which)) queryspace docspace id m rel = do
    let tid : TokenId = record { length_ = queryspace; id_ = id }
    token ← manager_token_info dict tid m
    s ← space_at dict m (docspace - 4)
    table ← get_elem? s.dhash which
    f ←
        on_the_fly hash tables dict rels token.tokenstring ana table tid docspace queryspace m
          (record { memory = []; rel = rel })
    some f.rel

  -- `for (johni = start; johni < end; johni++)`, with `rounds` places to go.
  unfoldable pub qd_loop :
      Option (ℕ × ℕ)
      → ℕ
      → ℕ
      → List ℕ
      → ℕ
      → ℕ
      → Manager dict.Map tables.Map
      → rels.Map
      → Option rels.Map
  qd_loop plan queryspace docspace queue johni zero m rel = some rel
  qd_loop plan queryspace docspace queue johni (suc rounds) m rel = do
    id ← get_elem? queue johni
    r ← qd_word plan queryspace docspace id m rel
    qd_loop plan queryspace docspace queue (johni + 1) rounds m r

  -- `QD3`.
  unfoldable pub qd3 : ℕ → ℕ → ℕ → ℕ → Manager dict.Map tables.Map → rels.Map → Option rels.Map
  qd3 queryspace docspace start3 end3 m rel = do
    s ← space_at dict m (queryspace - 4)
    qd_loop (plan3 docspace queryspace) queryspace docspace s.qbrandnew3 start3 (end3 - start3) m
        rel

  -- `QD2`.
  unfoldable pub qd2 : ℕ → ℕ → ℕ → ℕ → Manager dict.Map tables.Map → rels.Map → Option rels.Map
  qd2 queryspace docspace start2 end2 m rel = do
    s ← space_at dict m (queryspace - 4)
    qd_loop (plan2 docspace queryspace) queryspace docspace s.qbrandnew2 start2 (end2 - start2) m
        rel

  -- `QD1`.
  unfoldable pub qd1 : ℕ → ℕ → ℕ → ℕ → Manager dict.Map tables.Map → rels.Map → Option rels.Map
  qd1 queryspace docspace start1 end1 m rel = do
    s ← space_at dict m (queryspace - 4)
    qd_loop (plan1 docspace queryspace) queryspace docspace s.qbrandnew1 start1 (end1 - start1) m
        rel

  -- `QD0`.
  unfoldable pub qd0 : ℕ → ℕ → ℕ → ℕ → Manager dict.Map tables.Map → rels.Map → Option rels.Map
  qd0 queryspace docspace start0 end0 m rel = do
    s ← space_at dict m (queryspace - 4)
    qd_loop (plan0 docspace queryspace) queryspace docspace s.qbrandnew0 start0 (end0 - start0) m
        rel

  -- The body of the loops of `DQ` for one fresh document word.
  unfoldable pub dq_word :
      Option (ℕ × ℕ) → ℕ → ℕ → ℕ → Manager dict.Map tables.Map → rels.Map → Option rels.Map
  dq_word none queryspace docspace id m rel = some rel
  dq_word (some (ana, which)) queryspace docspace id m rel = do
    let wid : TokenId = record { length_ = docspace; id_ = id }
    docword ← manager_token_info dict wid m
    s ← space_at dict m (queryspace - 4)
    table ← get_elem? s.qhash which
    f ←
        each_cut ana docword.tokenstring docspace
          (probe hash tables table (λ ids g.
            set_dimis_anapodi dict rels ids wid docword.tokenstring docspace queryspace m g))
          (some (record { memory = []; rel = rel }))
    some f.rel

  -- The loops of `DQ`.
  unfoldable pub dq_loop :
      Option (ℕ × ℕ)
      → ℕ
      → ℕ
      → List ℕ
      → ℕ
      → ℕ
      → Manager dict.Map tables.Map
      → rels.Map
      → Option rels.Map
  dq_loop plan queryspace docspace queue johni zero m rel = some rel
  dq_loop plan queryspace docspace queue johni (suc rounds) m rel = do
    id ← get_elem? queue johni
    r ← dq_word plan queryspace docspace id m rel
    dq_loop plan queryspace docspace queue (johni + 1) rounds m r

  -- `DQ`.
  unfoldable pub dq : ℕ → ℕ → ℕ → ℕ → Manager dict.Map tables.Map → rels.Map → Option rels.Map
  dq queryspace docspace start finish m rel = do
    s ← space_at dict m (docspace - 4)
    dq_loop (plan_dq queryspace docspace) queryspace docspace s.dbrandnew start (finish - start) m
        rel

  -- `Run` of the five classes of matching jobs, on the relations of the thread; other jobs do not
  -- touch them.
  unfoldable pub run_match : Job → Manager dict.Map tables.Map → rels.Map → Option rels.Map
  run_match (job_match_prune_qd3 q d s e) m rel = qd3 q d s e m rel
  run_match (job_match_prune_qd2 q d s e) m rel = qd2 q d s e m rel
  run_match (job_match_prune_qd1 q d s e) m rel = qd1 q d s e m rel
  run_match (job_match_prune_qd0 q d s e) m rel = qd0 q d s e m rel
  run_match (job_match_prune1 d q s e) m rel = dq q d s e m rel
  run_match _ m rel = some rel
