-- ===== src/Lib.antt =====
-- The matching engine of a SIGMOD 2013 programming contest entry: documents are filtered by queries of up to
-- five words, each of which matches a document word exactly, or within a Hamming or an edit distance
-- of at most 3.
--
-- The program's parts, and the files that model them:
--
-- - TokenIndex/TokenStructs_Vector: a word (`TokenInfo`) with the queries that ask for it and the documents
--   that hold it. Token/Defs; the theorems stand in Token/Inserting, Removing, Highest and Documents.
-- - TokenIndex/TokenDuplicateIndex: the dictionary from words to ids. Dictionary.
-- - TokenIndex/TokenManager_Vector: the words by length (`SpaceBySize`, Space/Defs) with the queues of
--   those that are fresh in a batch, and the manager of all lengths with the dictionary (Manager/Defs).
--   Manager/Index has the invariant that ties the dictionary to the vectors of words, and Manager/Reach the states
--   that its calls lead to.
-- - QueryIndex/QidsVault, Query, QueryInfo and QueryIndex: the queries. Equal queries share one
--   entry, found by a hash of the words. Queries/Vault, Query and Index.
-- - top_impl.h: the comparison of two words, `stavroshtein`, and the functions it calls. Distance.
-- - JobScheduler/JobGenHashes and JobGenHashesToken: the jobs that enter fresh words in hash tables, with one, two
--   or three bytes left out, and then schedule matching jobs. Jobs/Cuts, Lists, Split and Hashes.
-- - JobScheduler/JobMatchPrune and MatchStuff/Relations: the jobs that look shortened words up, compare
--   the words found, and record the matches. Matching/Compare and Jobs; the proofs in Matching/Recorded,
--   Shared, Fly and Missing.
-- - JobScheduler/job_scheduler and JobBarrier: the queue of jobs and the barrier. Jobs/Scheduler and Barrier.
-- - QueryIndex/bitarea: the flags that say which words of which queries a document has (Results/Bitarea), and
--   the sorted ids of the queries that match (Results/Sort; the proof in Results/Merge, Blocks, Passes and Ids).
-- - MatchStuff/Results: from the recorded matches to flags (Results/Generate), and from there to the ids that are
--   returned (Results/Ranges, Cover and Answers). MatchStuff/Results, MatchAll and
--   JobScheduler/JobRun: the jobs of a batch in their order (Results/Schedule).
-- - JobScheduler/JobDedup and the loop of `StartQuery`: how queries and documents are taken apart, and the job that
--   gives the words of a document to the manager. Interface/Reading and Dedup.
-- - top_impl.cpp: the buffers of the documents (Interface/Documents), and the globals with the functions of the
--   interface and the jobs as steps on them (Interface/Server). Interface/Orderly has the invariant of the counters,
--   Interface/Named that of the documents' numbers, and Interface/Reach the states that calls and jobs lead to, in any
--   order.
--
-- A method of a class is a function from the state of its object, the last argument, and a record is updated field
-- by field. `Option` has `none` for undefined behaviour, such as a read through a null pointer or a write past an array;
-- it is the value of no call that returns. A pointer to a word is the word's place in its vector, where all uses of it are updated at once.
-- An operation on the job queue is one step, since it holds the lock from start to end; what
-- a matching job writes are the relations of its own thread. The jobs that set flags write to one bitarea at the same
-- time, each flag only ever to 1; here one comes after the other. A function of the interface that waits on
-- a condition has no result yet, and is called again later. A read of `docids`
-- past its size is the one exception to `none`: the program relies on it after `clear`, which leaves the ids in the
-- memory, and the model reads them there. The wait at a barrier may end without a broadcast, as POSIX allows. Whether
-- the process has used up its memory is an argument of `RunEnd`.
--
-- Numbers are natural numbers. The program's ids and counts stay far below the bounds of `int`; `hashvalue` is taken
-- modulo 2 ^ 32, and shifts into a `char` modulo 256. A subtraction that could be negative is written as a
-- test. A byte of a word is below 128.
--
-- Loops are recursions on the list, or on the number of rounds; the loop that deals out work takes the
-- size of the range as a bound on its rounds, which is enough since each round takes at least one item.
-- The loop of `StartQuery` takes at least one byte in a round, so the length of the string is enough. The loop of
-- `JobDedup` has its rounds as an argument, and gives `none` if it is not done in them: it need not end.
--
-- The merge sort of `results` doubles its blocks in every round, so twice the number of runs bounds the rounds; a pass
-- makes at most as many merges as there are runs, and the merge of two blocks at most as many steps as they have ids.
--
-- `google::dense_hash_map` and MurmurHash3 are other projects' code. They are the parameters `DenseMap` and `Hash` of
-- Library, with the laws that the program relies on: a key that was put is found, others are not touched, the
-- empty key is never put, and no word hashes to it. Library/Assoc has a table and a hash that meet them.
--
-- Not modelled: the creation of threads, their condition variables and `nojobleft`, which waits for them;
-- `DestroyIndex` and destructors, which free; printing, and the test driver.
--
-- The theorems at concrete inputs are in Tests.
pub mod Base
pub mod Core
pub mod Library
pub mod Dictionary
pub mod Distance
pub mod Interface
pub mod Jobs
pub mod Manager
pub mod Matching
pub mod Queries
pub mod Results
pub mod Space
pub mod Token
pub mod Tests
