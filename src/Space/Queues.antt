-- ===== src/Space/Queues.antt =====
-- The queue that a fresh query word goes to.
use sigmod_programming_conte.Base.{
  ap, ◌∙◌, ◌+◌, ℕ, zero, suc, ◌≡◌, ◌≤◌, refl, List, [], ◌∷◌, ◌++◌, length, ◌==◌, if◌then◌else◌,
  arith,
}
use sigmod_programming_conte.Core.{
  CString, MatchType, exact_match, hamming_dist, edit_dist, mt_none,
}
use sigmod_programming_conte.Token.Defs.{
  TokenInfo, new_token, new_query_token, insert_qmid, insert_bucket, insert_by_dist, raise_highest,
}
use sigmod_programming_conte.Token.Requests.{slot}
use sigmod_programming_conte.Token.Inserting.{slot-lt}
use sigmod_programming_conte.Token.Highest.{distance-le, asked}
use sigmod_programming_conte.Space.Defs.{
  Space, queue_of, push_queue, enqueue, mark_first, add_query_token,
}

queue_of-new_query_token :
    (qmid position : ℕ) (mt : MatchType) (dist batch : ℕ) (t : TokenInfo)
    → queue_of (new_query_token qmid position mt dist batch t).requests ≡ asked mt dist
unfolding queue_of new_query_token insert_qmid insert_bucket insert_by_dist raise_highest
queue_of-new_query_token qmid position exact_match dist batch t = ground arith
queue_of-new_query_token qmid position hamming_dist zero batch t = ground arith
queue_of-new_query_token qmid position hamming_dist (suc zero) batch t = ground arith
queue_of-new_query_token qmid position hamming_dist (suc (suc zero)) batch t = ground arith
queue_of-new_query_token qmid position hamming_dist (suc (suc (suc zero))) batch t = ground arith
queue_of-new_query_token qmid position hamming_dist (suc (suc (suc (suc d)))) batch t = ground arith
queue_of-new_query_token qmid position edit_dist zero batch t = ground arith
queue_of-new_query_token qmid position edit_dist (suc zero) batch t = ground arith
queue_of-new_query_token qmid position edit_dist (suc (suc zero)) batch t = ground arith
queue_of-new_query_token qmid position edit_dist (suc (suc (suc zero))) batch t = ground arith
queue_of-new_query_token qmid position edit_dist (suc (suc (suc (suc d)))) batch t = ground arith
queue_of-new_query_token qmid position mt_none dist batch t = ground arith

-- The queue of a distance.
abbrev pub queue : {H : Type 0} → ℕ → Space H → List ℕ
queue zero s = s.qbrandnew0
queue (suc zero) s = s.qbrandnew1
queue (suc (suc zero)) s = s.qbrandnew2
queue (suc (suc (suc d))) s = s.qbrandnew3

asked-le : (mt : MatchType) (dist : ℕ) → asked mt dist ≤ 3
asked-le mt dist = distance-le (slot mt dist) (λ i e. (slot-lt mt dist e).0)

module _ {H : Type 0} (id : ℕ) (s : Space H) where
  queue-push_queue :
      (q d : ℕ)
      → q ≤ 3
      → d ≤ 3
      → queue d (push_queue q id s) ≡ (if q == d then queue d s ++ id ∷ [] else queue d s)
  unfolding push_queue
  queue-push_queue q zero hq hd = ground arith
  queue-push_queue q (suc zero) hq hd = ground arith
  queue-push_queue q (suc (suc zero)) hq hd = ground arith
  queue-push_queue q (suc (suc (suc zero))) hq hd = ground arith
  queue-push_queue q (suc (suc (suc (suc d)))) hq hd = absurd (omega arith)

  qbrandnew-push_queue : (q : ℕ) → (push_queue q id s).qbrandnew ≡ s.qbrandnew
  unfolding push_queue
  qbrandnew-push_queue q = ground arith

  queue-mark_first : (d : ℕ) → queue d (mark_first id s) ≡ queue d s
  unfolding mark_first
  queue-mark_first zero = ground arith
  queue-mark_first (suc zero) = ground arith
  queue-mark_first (suc (suc zero)) = ground arith
  queue-mark_first (suc (suc (suc d))) = ground arith

  qbrandnew-mark_first : (mark_first id s).qbrandnew ≡ s.qbrandnew
  unfolding mark_first
  qbrandnew-mark_first = ground arith

queue_of_fields :
    {H : Type 0} (d : ℕ) (s : Space H) (tokens : List TokenInfo) (n : ℕ)
    → queue d (record s { tokens = tokens; max_tokens = n }) ≡ queue d s
queue_of_fields zero s tokens n = refl
queue_of_fields (suc zero) s tokens n = refl
queue_of_fields (suc (suc zero)) s tokens n = refl
queue_of_fields (suc (suc (suc d))) s tokens n = refl

queue_of_all :
    {H : Type 0} (d : ℕ) (s : Space H) (l : List ℕ)
    → queue d (record s { qbrandnew = l }) ≡ queue d s
queue_of_all zero s l = refl
queue_of_all (suc zero) s l = refl
queue_of_all (suc (suc zero)) s l = refl
queue_of_all (suc (suc (suc d))) s l = refl

-- `AddQueryToken` puts the id of the new word in the queue of the distance that its query asks for, in no other of the
-- four, and in the list of all fresh words.
pub queue-add_query_token :
    {H : Type 0} (string : CString) (qmid position : ℕ) (mt : MatchType) (dist batch : ℕ)
    (s : Space H) (d : ℕ)
    → d ≤ 3
    → let (s', id, code) = add_query_token string qmid position mt dist batch s in
      (queue d s' ≡ (if asked mt dist == d then queue d s ++ id ∷ [] else queue d s))
      × (s'.qbrandnew ≡ s.qbrandnew ++ id ∷ [])
unfolding add_query_token enqueue
queue-add_query_token string qmid position mt dist batch s d le =
    let token = new_query_token qmid position mt dist batch (new_token string) in
    let id = length s.tokens in
    let grown = record s { tokens = s.tokens ++ token ∷ []; max_tokens = s.max_tokens + 1 } in
    let marked = mark_first id grown in
    let listed = record marked { qbrandnew = marked.qbrandnew ++ id ∷ [] } in
    let before =
      queue_of_all d marked (marked.qbrandnew ++ id ∷ [])
      ∙ queue-mark_first id grown d
      ∙ queue_of_fields d s (s.tokens ++ token ∷ []) (s.max_tokens + 1) in
    let asks = queue_of-new_query_token qmid position mt dist batch (new_token string) in
    (
      ap (λ q. queue d (push_queue q id listed)) asks
          ∙ queue-push_queue id listed (asked mt dist) d (asked-le mt dist) le
          ∙ ap (λ l. if asked mt dist == d then l ++ id ∷ [] else l) before,
      qbrandnew-push_queue id listed (queue_of token.requests)
          ∙ ap (λ l. l ++ id ∷ []) (qbrandnew-mark_first id grown),
    )
