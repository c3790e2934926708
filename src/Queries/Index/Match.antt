-- ===== src/Queries/Index/Match.antt =====
-- What `HashLookup` finds: an entry with the same tokens, and none for a long query.
use sigmod_programming_conte.Base.{
  some_inj, ℕ, suc, ◌+◌, ◌*◌, ◌/◌, ◌^◌, ◌≤◌, ◌<◌, ◌≡◌, ◌≢◌, refl, sym, ap, ◌∙◌, true, Option, some,
  List, [], ◌∷◌, length, ◌>>=◌, >>=-eq-some, arith, Bool-cases, inl, inr,
}
use sigmod_programming_conte.Core.{CString, MatchType, match_code, TokenId}
use sigmod_programming_conte.Library.{DenseMap}
use sigmod_programming_conte.Manager.Defs.{Manager, manager_token_string}
use sigmod_programming_conte.Queries.Query.{Query, hashvalue, hash_tokens, str_eq}
use sigmod_programming_conte.Queries.Index.{
  QueryInfo, QueryIndex, same_type, info_at, equal_range, same_tokens, entry_matches, first_match,
  hash_lookup,
}

str_eq-true : (s t : CString) → str_eq s t ≡ true → s ≡ t
unfolding str_eq
str_eq-true [] [] h = refl
str_eq-true [] (b ∷ t) h = ground arith
str_eq-true (a ∷ s) [] h = ground arith
str_eq-true (a ∷ s) (b ∷ t) h = ground (arith, str_eq-true s t)

same_type-true : (s t : MatchType) → same_type s t ≡ true → s ≡ t
unfolding same_type match_code
same_type-true s t h = ground arith

module _ {H : Type 0} (dict : DenseMap CString TokenId) where
  open dict use {Map}

  -- The words that a list of ids stands for.
  abbrev pub strings : List TokenId → Manager Map H → Option (List CString)
  strings [] m = some []
  strings (tid ∷ tids) m = do
    s ← manager_token_string dict tid m
    ss ← strings tids m
    some (s ∷ ss)

  same_tokens-strings :
      (ss : List CString) (tids : List TokenId) (m : Manager Map H)
      → length tids ≡ length ss
      → same_tokens dict ss tids m ≡ some true
      → strings tids m ≡ some ss
  unfolding same_tokens
  same_tokens-strings [] [] m e h = refl
  same_tokens-strings [] (tid ∷ tids) m e h = absurd (omega arith)
  same_tokens-strings (s ∷ ss) [] m e h = ground arith
  same_tokens-strings (s ∷ ss) (tid ∷ tids) m e h =
      let (name, there, rest) = >>=-eq-some (manager_token_string dict tid m) _ h in
      elim (Bool-cases (str_eq s name)) [
        | inl q ↦
            rw (there, same_tokens-strings ss tids m (omega arith) (rw q at rest))
              (ap (λ x. some (x ∷ ss)) (sym (str_eq-true s name q)))
        | inr q ↦ absurd (ground (arith, rw q at rest))
      ]

  -- The entry has the type, the distance and the tokens of the query, and the query's hash has their digits in
  -- front.
  pub record IsSame (q : Query) (info : QueryInfo) (m : Manager Map H) : Type 0 where
    pub types : info.type_ ≡ q.type_
    pub dists : info.dist_ ≡ q.dist_
    pub words : strings info.tids m ≡ some q.tokens
    pub digits : match_code q.type_ * 3 + q.dist_ ≡ hashvalue q / 100000

  entry_matches-IsSame :
      (q : Query) (info : QueryInfo) (m : Manager Map H)
      → entry_matches dict q (hashvalue q) info m ≡ some true
      → IsSame q info m
  unfolding entry_matches
  entry_matches-IsSame q info m h =
      let types = same_type-true info.type_ q.type_ (ground arith) in
      let dists : info.dist_ ≡ q.dist_ = ground arith in
      record {
        types = types;
        dists = dists;
        words = same_tokens-strings q.tokens info.tids m (ground arith) (ground arith);
        digits = rw (← types, ← dists) (ground arith);
      }

  first_match-IsSame :
      (q : Query) (l : List ℕ) (vault : List QueryInfo) (m : Manager Map H) (target : ℕ)
      → first_match dict q (hashvalue q) l vault m ≡ some target
      → target ≢ 0
      → (info : QueryInfo) × (info_at target vault ≡ some info) × IsSame q info m
  unfolding first_match
  first_match-IsSame q [] vault m target h ne = absurd (ground arith)
  first_match-IsSame q (qmid ∷ l) vault m target h ne =
      let (info, there, rest) = >>=-eq-some (info_at qmid vault) _ h in
      let (found, matched, last) = >>=-eq-some (entry_matches dict q (hashvalue q) info m) _ rest in
      elim (Bool-cases found) [
        | inl e ↦
            let same : qmid ≡ target = some_inj (rw e at last) in
            (info, rw (← same) there, entry_matches-IsSame q info m (matched ∙ ap some e))
        | inr e ↦ first_match-IsSame q l vault m target (rw e at last) ne
      ]

module _ {H : Type 0} (dict : DenseMap CString TokenId) (qids : DenseMap ℕ ℕ) (q : Query)
    (x : QueryIndex qids.Map) (m : Manager dict.Map H) (target : ℕ)
    (run : hash_lookup dict qids q x m ≡ some target) where
  -- If `HashLookup` returns an entry, not 0, that entry has the match type, the distance and the words of
  -- the query, in order: queries that differ never share an entry, also when their hashes agree.
  pub hash_lookup-IsSame :
      target ≢ 0 → (info : QueryInfo) × (info_at target x.vault ≡ some info) × IsSame dict q info m
  unfolding hash_lookup
  hash_lookup-IsSame ne =
      first_match-IsSame dict q (equal_range (hashvalue q) x.qmidindex) x.vault m target run ne

-- A query whose token sum reaches 100000 is never found, whatever the index holds, as long as its hash does not
-- wrap: the sum runs into the digits that `HashLookup` compares with the type and the distance.
pub hash_lookup-long :
    {H : Type 0} (dict : DenseMap CString TokenId) (qids : DenseMap ℕ ℕ) (q : Query)
    (x : QueryIndex qids.Map) (m : Manager dict.Map H) (k : ℕ)
    → 100000 ≤ hash_tokens 0 q.tokens
    → hash_tokens 0 q.tokens + 100000 * (q.dist_ + 3 * match_code q.type_) < 2 ^ 32
    → hash_lookup dict qids q x m ≢ some (suc k)
unfolding hashvalue
hash_lookup-long dict qids q x m k big small run =
    let (info, there, same) =
      hash_lookup-IsSame dict qids q x m (suc k) run (λ e. absurd (omega arith)) in
    absurd (omega (arith, same.digits))
