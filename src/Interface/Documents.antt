-- ===== src/Interface/Documents.antt =====
-- top_impl.cpp: the 64 buffers through which documents go from `MatchDocument` to `JobDedup`. `matchdocjs` has one
-- thread, so the jobs are finished in the order in which they were scheduled. A buffer holds a C string.
use sigmod_programming_conte.Base.{
  ℕ, zero, suc, ◌+◌, ◌^◌, Option, none, some, List, [], ◌∷◌, ◌++◌, length, get_elem?, set, ltb,
  ◌>>=◌, ◌>>◌, require,
}
use sigmod_programming_conte.Core.{CString}

-- A `JobDedup` that is scheduled.
pub record DedupJob : Type 0 where
  pub dn : ℕ
  pub doc_id : ℕ
  pub spot : ℕ

pub record Documents : Type 0 where
  pub empty_spot : List ℕ
  pub matchdocjs_buff : List CString
  pub pending : List DedupJob

abbrev pub docs_buffer_size : ℕ
docs_buffer_size = 64

abbrev pub max_doc_length : ℕ
max_doc_length = 2 ^ 22

-- The part of `MatchDocument` that takes a spot, if one is empty, copies the document and schedules its job.
-- A document that the buffer does not hold is written past its end.
unfoldable pub submit_at : List ℕ → ℕ → ℕ → CString → Documents → Option Documents
submit_at [] our_id doc_id doc_str q = none
submit_at (spot ∷ rest) our_id doc_id doc_str q = do
  _ ← get_elem? q.matchdocjs_buff spot
  require (ltb (length doc_str) max_doc_length)
  some (record {
    empty_spot = rest;
    matchdocjs_buff = set q.matchdocjs_buff spot doc_str;
    pending = q.pending ++ record { dn = our_id; doc_id = doc_id; spot = spot } ∷ [];
  })

-- Without an empty spot the call waits.
unfoldable pub submit : ℕ → ℕ → CString → Documents → Option Documents
submit our_id doc_id doc_str q = submit_at q.empty_spot our_id doc_id doc_str q

-- The next of these jobs, and the document that it reads.
unfoldable pub read_document : List DedupJob → Documents → Option (DedupJob × CString)
read_document [] q = none
read_document (job ∷ jobs) q = do
  cur_doc_str ← get_elem? q.matchdocjs_buff job.spot
  some (job, cur_doc_str)

unfoldable pub next_document : Documents → Option (DedupJob × CString)
next_document q = read_document q.pending q

-- The end of `JobDedup::Run`: its spot is empty again.
unfoldable pub free_spot_of : List DedupJob → Documents → Option Documents
free_spot_of [] q = none
free_spot_of (job ∷ jobs) q =
    some (record q { empty_spot = q.empty_spot ++ job.spot ∷ []; pending = jobs })

unfoldable pub free_spot : Documents → Option Documents
free_spot q = free_spot_of q.pending q

-- The loop of `InitializeIndex`.
unfoldable pub spots_from : ℕ → ℕ → List ℕ
spots_from i zero = []
spots_from i (suc n) = i ∷ spots_from (i + 1) n

unfoldable pub empty_buffers : ℕ → List CString
empty_buffers zero = []
empty_buffers (suc n) = [] ∷ empty_buffers n

-- `InitializeIndex`; what the new buffers hold is not read.
unfoldable pub new_documents : Documents
new_documents = record {
  empty_spot = spots_from 0 docs_buffer_size;
  matchdocjs_buff = empty_buffers docs_buffer_size;
  pending = [];
}
