-- ===== src/Jobs/Hashes.antt =====
-- JobScheduler/JobGenHashes.cpp and JobScheduler/JobGenHashesToken.cpp: `Run`.
use sigmod_programming_conte.Base.{
  ℕ, zero, suc, ◌+◌, Option, some, List, [], ◌∷◌, ◌==◌, if◌then◌else◌, ◌>>=◌, not,
}
use sigmod_programming_conte.Core.{CString, TokenId}
use sigmod_programming_conte.Library.{DenseMap, Hash}
use sigmod_programming_conte.Space.Defs.{Space, get_token_info}
use sigmod_programming_conte.Manager.Defs.{Manager, space_at, put_space}
use sigmod_programming_conte.Jobs.Defs.{Job}
use sigmod_programming_conte.Jobs.Cuts.{push_hash, push_cuts, push_cuts2, push_cuts3}
use sigmod_programming_conte.Jobs.Lists.{gen_hashes_jobs, token_jobs}

-- The entry `i` of an array of tables, changed.
unfoldable pub at_table {ℓ} : {A : Type ℓ} → ℕ → (A → A) → List A → List A
at_table i f [] = []
at_table zero f (x ∷ xs) = f x ∷ xs
at_table (suc i) f (x ∷ xs) = x ∷ at_table i f xs

module _ (hash : Hash) (tables : DenseMap ℕ (List ℕ)) where
  -- The body of the loop of `JobGenHashes::Run` for one word of `size` bytes.
  unfoldable pub doc_hashes : ℕ → ℕ → CString → ℕ → List tables.Map → List tables.Map
  doc_hashes sec id string size dhash =
      if sec == 1
      then at_table 1 (push_cuts hash tables id string size)
          (at_table 0 (push_hash hash tables id string) dhash)
      else if sec == 2
      then at_table 2 (push_cuts2 hash tables id string size) dhash
      else at_table 3 (push_cuts3 hash tables id string size) dhash

  -- The loop of `JobGenHashes::Run` over the fresh document words.
  unfoldable pub hash_docs : ℕ → ℕ → List ℕ → Space tables.Map → Option (Space tables.Map)
  hash_docs sec size [] s = some s
  hash_docs sec size (id ∷ ids) s = do
    t ← get_token_info id s
    hash_docs sec size ids (record s { dhash = doc_hashes sec id t.tokenstring size s.dhash })

  -- The body of the loop of `JobGenHashesToken::Run`.
  unfoldable pub query_hashes : ℕ → CString → ℕ → List tables.Map → List tables.Map
  query_hashes id string size qhash = at_table 0 (push_hash hash tables id string) (
      at_table 1 (push_cuts hash tables id string size) (
        at_table 2 (push_cuts2 hash tables id string size)
          (at_table 3 (push_cuts3 hash tables id string size) qhash)))

  -- The loop of `JobGenHashesToken::Run` over the fresh query words.
  unfoldable pub hash_queries : ℕ → List ℕ → Space tables.Map → Option (Space tables.Map)
  hash_queries size [] s = some s
  hash_queries size (id ∷ ids) s = do
    t ← get_token_info id s
    hash_queries size ids (record s { qhash = query_hashes id t.tokenstring size s.qhash })

  module _ (dict : DenseMap CString TokenId) where
    -- `JobGenHashes::Run`, for the words of length `length + 4`: the new state, and the jobs it schedules.
    unfoldable pub run_gen_hashes :
        ℕ → ℕ → Manager dict.Map tables.Map → Option (Manager dict.Map tables.Map × List Job)
    run_gen_hashes length_ sec m = do
      s ← space_at dict m length_
      s' ← hash_docs sec (length_ + 4) s.dbrandnew s
      let m' = put_space dict m length_ s'
      jobs ← gen_hashes_jobs dict length_ sec m'
      some (m', jobs)

    -- `JobGenHashesToken::Run`: no jobs in the first batch.
    unfoldable pub run_gen_hashes_token :
        ℕ → ℕ → Manager dict.Map tables.Map → Option (Manager dict.Map tables.Map × List Job)
    run_gen_hashes_token length_ batchno m = do
      s ← space_at dict m length_
      s' ← hash_queries (length_ + 4) s.qbrandnew s
      let m' = put_space dict m length_ s'
      jobs ← if not (batchno == 0) then token_jobs dict length_ m' else some []
      some (m', jobs)
