-- ===== src/Token/Documents.antt =====
-- The document side of a word: `NewDocToken` and `InsertDid`.
use sigmod_programming_conte.Base.{
  ℕ, suc, ◌≤◌, ◌<◌, ◌≡◌, refl, Bool, true, false, ◌||◌, some, List, [], ◌∷◌, ◌==◌, if◌then◌else◌,
  arith, ◌>>=◌,
}
use sigmod_programming_conte.Core.{ok, token_exists_in_batch}
use sigmod_programming_conte.Token.Defs.{TokenInfo, push_did, insert_did, new_doc_token, same_batch}

-- Strictly ascending, from `lo` on, and all below `hi`.
abbrev pub Ascends : ℕ → ℕ → List ℕ → Type 0
Ascends lo hi [] = Unit {0}
Ascends lo hi (d ∷ l) = (lo ≤ d) × (d < hi) × Ascends (suc d) hi l

abbrev pub holds : ℕ → List ℕ → Bool
holds d [] = false
holds d (e ∷ l) = e == d || holds d l

push_did-Ascends :
    (did lo : ℕ) (l : List ℕ)
    → lo ≤ did
    → Ascends lo (suc did) l
    → Ascends lo (suc did) (push_did did l)
unfolding push_did
push_did-Ascends did lo [] low h = omega arith
push_did-Ascends did lo (d ∷ []) low h = ground arith
push_did-Ascends did lo (d ∷ e ∷ l) low h =
    (h.0, h.1, push_did-Ascends did (suc d) (e ∷ l) (omega arith) h.2)

holds-push_did : (did d : ℕ) (l : List ℕ) → holds d (push_did did l) ≡ (did == d || holds d l)
unfolding push_did
holds-push_did did d [] = refl
holds-push_did did d (e ∷ []) = ground arith
holds-push_did did d (e ∷ f ∷ l) = ground (arith, holds-push_did did d (f ∷ l))

-- `InsertDid` on a word with documents up to `did`: the list stays strictly ascending, it gains
-- that document and no other, and the code says whether the word was met in this batch before.
pub insert_did_lem :
    (did batch : ℕ) (t : TokenInfo) {l : List ℕ}
    → t.docpointer ≡ some l
    → Ascends 0 (suc did) l
    → (u : TokenInfo) × (docs : List ℕ) × (insert_did did batch t
        ≡ some (u, if same_batch batch t.lastbatch then token_exists_in_batch else ok))
      × (u.docpointer ≡ some docs)
      × (u.lastbatch ≡ some batch)
      × Ascends 0 (suc did) docs
      × ((d : ℕ) → holds d docs ≡ (did == d || holds d l))
unfolding insert_did
insert_did_lem did batch t {l} there h = (
  record t { docpointer = some (push_did did l); lastbatch = some batch },
  push_did did l,
  rw there,
  refl,
  refl,
  push_did-Ascends did 0 l (omega arith) h,
  λ d. holds-push_did did d l,
)

-- `NewDocToken` starts the list with the document, whatever the word held, and counts as a word
-- that was not met in this batch: the next `InsertDid` of the batch returns `TOKENEXISTSINBATCH`.
pub insert_did-new_doc_token :
    (did next batch : ℕ) (t : TokenInfo)
    → did < next
    → (new_doc_token did batch t >>= insert_did next batch)
      ≡ some (
        record t { isdoct = true; docpointer = some (did ∷ next ∷ []); lastbatch = some batch },
        token_exists_in_batch,
      )
unfolding new_doc_token insert_did push_did
insert_did-new_doc_token did next batch t h = ground arith
