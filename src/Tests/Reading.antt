-- ===== src/Tests/Reading.antt =====
-- The theorems on how queries and documents are read, at concrete inputs.
use sigmod_programming_conte.Base.{
  true, ◌⊎◌, length, false, ℕ, ◌≡◌, refl, ◌||◌, none, some, List, [], ◌∷◌, ◌++◌, arith, All,
  replicate, if◌then◌else◌, ◌==◌,
}
use sigmod_programming_conte.Core.{CString, edit_dist, hamming_dist, TokenId}
use sigmod_programming_conte.Library.Assoc.{words}
use sigmod_programming_conte.Token.Highest.{asked}
use sigmod_programming_conte.Space.Defs.{Space, init_space, add_query_token}
use sigmod_programming_conte.Space.Queues.{queue, queue-add_query_token}
use sigmod_programming_conte.Manager.Defs.{Manager, new_manager}
use sigmod_programming_conte.Manager.Index.{IsIndexed}
use sigmod_programming_conte.Manager.Ids.{new_manager-IsIndexed}
use sigmod_programming_conte.Queries.Query.{Query, new_query, add_token, str_eq}
use sigmod_programming_conte.Queries.Words.{IsAscending, has_word, add_token-IsAscending}
use sigmod_programming_conte.Interface.Reading.{document_words, query_of}
use sigmod_programming_conte.Interface.Terminates.{ends, fields, document_words-fields}
use sigmod_programming_conte.Interface.Splitting.{IsWord}
use sigmod_programming_conte.Interface.Words.{add_all, query_of-join}
use sigmod_programming_conte.Interface.Dedup.{Batch, run_dedup, run_dedup_lem}

abbrev rain : CString
rain = 114 ∷ 97 ∷ 105 ∷ 110 ∷ []

abbrev snow : CString
snow = 115 ∷ 110 ∷ 111 ∷ 119 ∷ []

rain-IsWord : IsWord rain
rain-IsWord = (omega arith, (refl, (refl, (refl, (refl, tt)))))

snow-IsWord : IsWord snow
snow-IsWord = (omega arith, (refl, (refl, (refl, (refl, tt)))))

-- Two spaces between the words.
abbrev two_spaces : CString
two_spaces = rain ++ 32 ∷ 32 ∷ snow

document_words-fields_example :
    ((ends two_spaces ≡ false)
      × (document_words (length two_spaces) two_spaces ≡ some (fields [] two_spaces)))
    ⊎ ((ends two_spaces ≡ true) × ((fuel : ℕ) → document_words fuel two_spaces ≡ none))
document_words-fields_example = document_words-fields two_spaces

query_of-join_example :
    query_of 5 (rain ++ 32 ∷ snow) edit_dist 2
    ≡ add_all (rain ∷ snow ∷ []) (new_query edit_dist 2 5)
query_of-join_example =
    query_of-join 5 rain (snow ∷ []) edit_dist 2 (rain-IsWord, omega arith)
      ((snow-IsWord, omega arith), tt)

-- The dictionary is an association list, and a table is a number.
abbrev manager : Manager (List (CString × TokenId)) ℕ
manager = new_manager (words TokenId) 0

manager-IsIndexed : IsIndexed (words TokenId) manager
manager-IsIndexed = new_manager-IsIndexed (words TokenId) 0

abbrev batch : Batch (Manager (List (CString × TokenId)) ℕ)
batch = record { manager = manager; wordbatchv = replicate 28 []; globaldocs = 1 ∷ [] }

run_dedup_lem_example :
    (st' : Batch (Manager (List (CString × TokenId)) ℕ)) × (run_dedup
        (words TokenId)
        2
        1
        0
        (rain ++ 32 ∷ snow)
        batch
      ≡ some st')
    × IsIndexed (words TokenId) st'.manager
    × All
        (λ v. (gid : TokenId) × ((words TokenId).find v st'.manager.exact ≡ some gid))
        (rain ∷ snow ∷ [])
    × (st'.globaldocs ≡ 1 ∷ 2 ∷ [])
run_dedup_lem_example =
    run_dedup_lem (words TokenId) refl 1 0 rain (snow ∷ []) batch manager-IsIndexed refl
      ((rain-IsWord, omega arith, omega arith), ((snow-IsWord, omega arith, omega arith), tt))

abbrev space : Space ℕ
space = init_space 0 0

queue-add_query_token_example :
    let (s', id, code) = add_query_token rain 3 0 hamming_dist 2 0 space in
    (queue 2 s' ≡ (if asked hamming_dist 2 == 2 then queue 2 space ++ id ∷ [] else queue 2 space))
    × (s'.qbrandnew ≡ space.qbrandnew ++ id ∷ [])
queue-add_query_token_example =
    queue-add_query_token rain 3 0 hamming_dist 2 0 space 2 (omega arith)

abbrev one_word : Query
one_word = record (new_query edit_dist 2 5) { tokens = snow ∷ [] }

add_token-IsAscending_example :
    (q' : Query) × (add_token rain one_word ≡ some q')
    × IsAscending q'.tokens
    × ((w : CString) → has_word w q'.tokens ≡ (str_eq rain w || has_word w one_word.tokens))
add_token-IsAscending_example =
    add_token-IsAscending rain one_word (tt, tt) (omega arith) (omega arith)
