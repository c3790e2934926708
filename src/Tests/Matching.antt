-- ===== src/Tests/Matching.antt =====
-- The theorems on comparing and matching words at concrete inputs.
use sigmod_programming_conte.Base.{
  ◌++◌, ◌≤◌, ℕ, ◌≡◌, ◌≢◌, refl, true, some, List, [], ◌∷◌, arith, leb, if◌then◌else◌, replicate,
}
use sigmod_programming_conte.Core.{CString, TokenId, key}
use sigmod_programming_conte.Library.Assoc.{weak, words, table}
use sigmod_programming_conte.Token.Defs.{TokenInfo, new_token}
use sigmod_programming_conte.Token.Documents.{holds}
use sigmod_programming_conte.Space.Defs.{Space, init_space}
use sigmod_programming_conte.Manager.Defs.{Manager, new_manager, manager_token_info}
use sigmod_programming_conte.Distance.Defs.{
  hamming_loop, hamming_distance, ne_at, eq_at, shift_left,
}
use sigmod_programming_conte.Distance.Hamming.{hamming_distance_lem}
use sigmod_programming_conte.Distance.Same.{
  mismatches_from, stavroshtein, by_difference, edit_hamming, threshold, count_mismatches,
  satisfied, edit_bits, rounds_of, round, round_run, shifted_run, end_of_run, back_on_diagonal,
}
use sigmod_programming_conte.Distance.Longer.{
  edit_hammingdiff3, run_along, edit_hammingdiff2, two_mismatches, both_shifts, last_shifts,
  after_mismatches, edit_hammingdiff1, diff1_loop, first_byte, next_byte, nearest,
}
use sigmod_programming_conte.Distance.Part.{is_part}
use sigmod_programming_conte.Distance.Gaps.{edit_hammingdiff3_lem}
use sigmod_programming_conte.Jobs.Cuts.{push_cuts3}
use sigmod_programming_conte.Matching.Missing.{on_the_fly-is_part}
use sigmod_programming_conte.Matching.Fly.{on_the_fly-hamming_distance}
use sigmod_programming_conte.Matching.Relations.{WordSat}
use sigmod_programming_conte.Matching.Compare.{on_the_fly, Found, set_dimis}
use sigmod_programming_conte.Matching.Recorded.{lists_match, set_dimis-lists}
use sigmod_programming_conte.Matching.Jobs.{plan3, plan2, plan1, plan0, plan_dq}
use sigmod_programming_conte.Matching.Plans.{plan_of, plans_lem}

abbrev rain : CString
rain = 114 ∷ 97 ∷ 105 ∷ 110 ∷ []

abbrev ruin : CString
ruin = 114 ∷ 117 ∷ 105 ∷ 110 ∷ []

abbrev raining : CString
raining = 114 ∷ 97 ∷ 105 ∷ 110 ∷ 105 ∷ 110 ∷ 103 ∷ []

hamming_distance_lem_example :
    hamming_distance rain 4 ruin 3
    ≡ (if leb (mismatches_from rain ruin 0 4) 3 then mismatches_from rain ruin 0 4 else 8)
hamming_distance_lem_example = hamming_distance_lem rain ruin 4 3

near_words : hamming_distance ruin 4 rain 3 ≤ 3
unfolding hamming_distance hamming_loop ne_at
near_words = omega arith

edit_hammingdiff3_lem_example :
    edit_hammingdiff3 rain raining 4 ≡ (if is_part rain raining then 64 else 0)
edit_hammingdiff3_lem_example = edit_hammingdiff3_lem rain raining refl

plans_lem_example :
    (plan3 6 5 ≡ plan_of 3 6 5)
    × (plan2 6 5 ≡ plan_of 2 6 5)
    × (plan1 6 5 ≡ plan_of 1 6 5)
    × (plan0 6 5 ≡ plan_of 0 6 5)
    × (plan_dq 5 6 ≡ plan_of 3 5 6)
plans_lem_example = plans_lem 6 5

abbrev rain_id : TokenId
rain_id = record { length_ = 4; id_ = 0 }

abbrev ruin_id : TokenId
ruin_id = record { length_ = 4; id_ = 1 }

-- A manager with the words "rain" and "ruin".
abbrev space : Space ℕ
space = record (init_space 0 0) { tokens = new_token rain ∷ new_token ruin ∷ [] }

abbrev manager : Manager (List (CString × TokenId)) ℕ
manager = record (new_manager (words TokenId) 0) {
  exact = (rain, rain_id) ∷ (ruin, ruin_id) ∷ [];
  indexes = space ∷ replicate 27 (init_space 0 1);
}

any_key : (id : ℕ) → key (record { length_ = 4; id_ = id }) ≢ 0
unfolding key
any_key id e = absurd (omega arith)

ruin_there : manager_token_info (words TokenId) ruin_id manager ≡ some (new_token ruin)
unfolding manager_token_info new_manager init_space
ruin_there = refl

both_there :
    (id : ℕ)
    → holds id (1 ∷ []) ≡ true
    → (t : TokenInfo) × (manager_token_info
          (words TokenId)
          (record { length_ = 4; id_ = id })
          manager
        ≡ some t)
both_there id h = let same : 1 ≡ id = ground arith in (new_token ruin, rw (← same) ruin_there)

-- One byte differs: every bit but that of an exact match.
one_apart : stavroshtein ruin rain 4 4 ≡ 0b01111110
unfolding stavroshtein by_difference edit_hamming threshold count_mismatches satisfied edit_bits
    ne_at
one_apart = refl

-- "rain" from "raining": edit distance 3 only.
three_apart : stavroshtein raining rain 7 4 ≡ 0b01000000
unfolding stavroshtein by_difference edit_hammingdiff3 run_along
three_apart = refl

-- "train" from "rain", and "trains" from "rain".
one_longer : stavroshtein rain (116 ∷ rain) 4 5 ≡ 0b01110000
unfolding stavroshtein by_difference edit_hammingdiff1 diff1_loop first_byte next_byte nearest ne_at
    eq_at shift_left
one_longer = refl

two_longer : stavroshtein rain (116 ∷ 114 ∷ 97 ∷ 105 ∷ 110 ∷ 115 ∷ []) 4 6 ≡ 0b01100000
unfolding stavroshtein by_difference edit_hammingdiff2 two_mismatches both_shifts last_shifts
    after_mismatches ne_at eq_at shift_left
two_longer = refl

-- "brain" and "rainy" are two edits apart.
shifted :
    stavroshtein (98 ∷ 114 ∷ 97 ∷ 105 ∷ 110 ∷ []) (114 ∷ 97 ∷ 105 ∷ 110 ∷ 121 ∷ []) 5 5 ≡ 0b01100000
unfolding stavroshtein by_difference edit_hamming threshold count_mismatches satisfied edit_bits
    ne_at eq_at rounds_of round round_run shifted_run end_of_run back_on_diagonal mismatches_from
shifted = refl

ruin_matches : stavroshtein (new_token ruin).tokenstring rain 4 4 ≢ 0
unfolding new_token
ruin_matches e = absurd (ground (arith, one_apart))

set_dimis-lists_example :
    (g : Found (List (ℕ × List WordSat))) × (set_dimis
        (words TokenId)
        (table (List WordSat))
        (1 ∷ [])
        rain_id
        rain
        4
        4
        manager
        (record { memory = []; rel = [] })
      ≡ some g)
    × (lists_match (table (List WordSat)) rain_id (key ruin_id) g.rel ≡ true)
set_dimis-lists_example =
    set_dimis-lists (table (List WordSat)) rain_id (words TokenId) manager rain 4 4 any_key (1 ∷ [])
      [] both_there 1 (new_token ruin) refl ruin_there ruin_matches

-- The same words, with the hash tables.
abbrev hashed : Manager (List (CString × TokenId)) (List (ℕ × List ℕ))
hashed = record (new_manager (words TokenId) []) {
  indexes =
      record (init_space [] 0) { tokens = new_token rain ∷ new_token ruin ∷ [] }
      ∷ replicate 27 (init_space [] 1);
}

also_there : manager_token_info (words TokenId) ruin_id hashed ≡ some (new_token ruin)
unfolding manager_token_info new_manager init_space
also_there = refl

on_the_fly-hamming_distance_example :
    (g : Found (List (ℕ × List WordSat))) × (on_the_fly weak
        (table (List ℕ))
        (words TokenId)
        (table (List WordSat))
        rain
        3
        (push_cuts3 weak (table (List ℕ)) 1 ruin 4 [])
        rain_id
        4
        4
        hashed
        (record { memory = []; rel = [] })
      ≡ some g)
    × (lists_match (table (List WordSat)) rain_id (key ruin_id) g.rel ≡ true)
unfolding new_token
on_the_fly-hamming_distance_example =
    on_the_fly-hamming_distance weak (table (List ℕ)) refl (words TokenId) (table (List WordSat))
      hashed rain_id rain any_key 1 (new_token ruin) [] [] refl (omega arith) near_words
      (λ h ids x e q. absurd (cc e)) also_there

-- "raining" is a document word.
abbrev long_word : Manager (List (CString × TokenId)) (List (ℕ × List ℕ))
long_word = record (new_manager (words TokenId) []) {
  indexes =
      replicate 3 (init_space [] 0)
      ++ record (init_space [] 3) { tokens = new_token raining ∷ [] }
        ∷ replicate 24 (init_space [] 4);
}

abbrev raining_id : TokenId
raining_id = record { length_ = 7; id_ = 0 }

long_key : (id : ℕ) → key (record { length_ = 7; id_ = id }) ≢ 0
unfolding key
long_key id e = absurd (omega arith)

raining_there : manager_token_info (words TokenId) raining_id long_word ≡ some (new_token raining)
unfolding manager_token_info
raining_there = refl

on_the_fly-is_part_example :
    (g : Found (List (ℕ × List WordSat))) × (on_the_fly weak
        (table (List ℕ))
        (words TokenId)
        (table (List WordSat))
        rain
        0
        (push_cuts3 weak (table (List ℕ)) 0 raining 7 [])
        rain_id
        7
        4
        long_word
        (record { memory = []; rel = [] })
      ≡ some g)
    × (lists_match (table (List WordSat)) rain_id (key raining_id) g.rel ≡ true)
unfolding new_token
on_the_fly-is_part_example =
    on_the_fly-is_part weak (table (List ℕ)) refl (words TokenId) (table (List WordSat)) long_word
      rain_id rain 7 long_key 0 (new_token raining) [] [] refl refl refl
      (λ h ids x e q. absurd (cc e)) raining_there
