-- ===== src/Interface/Named.antt =====
-- The numbers of documents, and the ids that `docids` has for them.
use sigmod_programming_conte.Base.{
  ℕ, ◌+◌, ◌≤◌, ◌<◌, ◌≡◌, refl, sym, ap, ◌∙◌, false, some, List, [], ◌∷◌, ◌++◌, length,
  length-append, length-set, get_elem?, get_elem?-set, get_elem?-append_left,
  get_elem?-append_length, ltb, arith, All, Bool-cases, inl, inr,
}
use sigmod_programming_conte.Interface.Documents.{DedupJob}
use sigmod_programming_conte.Interface.Server.{Document, DocIds, push_id, Server, request_results}

-- A job's document has the id under which the client passed it.
abbrev pub IsScheduled : DocIds → DedupJob → Type 0
IsScheduled v job = (job.dn < v.size) × (get_elem? v.storage job.dn ≡ some job.doc_id)

-- The numbers are from 1 up to a bound.
abbrev pub UpTo : ℕ → ℕ → Type 0
UpTo n d = (1 ≤ d) × (d ≤ n)

module _ {M X R : Type 0} where
  -- `docids` knows every document of the batch: those that wait have the ids that the client passed, and the numbers of
  -- those that are read or done are in its range.
  pub record IsNamed (s : Server M X R) : Type 0 where
    pub long : s.docids.size ≤ length s.docids.storage
    pub next : s.matching ≡ false → 1 ≤ s.docsofbatch → s.our_id ≡ s.docids.size
    pub over : s.docsofbatch ≡ 0 → s.docids.size ≡ 0
    pub scheduled : All (IsScheduled s.docids) s.documents.pending
    pub read : All (UpTo s.docids.size) s.globaldocs
    pub done : All (λ (d : Document). UpTo (length s.docids.storage) d.doc_id) s.docs

  -- Nothing that matters here changed.
  pub record SameNames (s t : Server M X R) : Type 0 where
    pub matching : t.matching ≡ false → s.matching ≡ false
    pub docsofbatch : t.docsofbatch ≡ s.docsofbatch
    pub our_id : t.our_id ≡ s.our_id
    pub docids : t.docids ≡ s.docids
    pub documents : t.documents ≡ s.documents
    pub globaldocs : t.globaldocs ≡ s.globaldocs
    pub docs : t.docs ≡ s.docs

  pub SameNames-IsNamed : (s t : Server M X R) → SameNames s t → IsNamed s → IsNamed t
  SameNames-IsNamed s t f inv = record {
    long = rw f.docids inv.long;
    next = λ e some_docs.
        rw (f.our_id, f.docids) (inv.next (f.matching e) (omega (arith, some_docs, f.docsofbatch)));
    over = λ e. rw f.docids (inv.over (sym f.docsofbatch ∙ e));
    scheduled = rw (f.docids, f.documents) inv.scheduled;
    read = rw (f.docids, f.globaldocs) inv.read;
    done = rw (f.docids, f.docs) inv.done;
  }

  pub request_results-SameNames : (s : Server M X R) → SameNames s (request_results s)
  unfolding request_results
  request_results-SameNames s = elim (Bool-cases s.gnflag) [
    | inl e ↦ rw e (record {
      matching = λ h. h;
      docsofbatch = refl;
      our_id = refl;
      docids = refl;
      documents = refl;
      globaldocs = refl;
      docs = refl;
    })
    | inr e ↦ rw e (record {
      matching = λ h. h;
      docsofbatch = refl;
      our_id = refl;
      docids = refl;
      documents = refl;
      globaldocs = refl;
      docs = refl;
    })
  ]

pub push_id-get_elem? :
    (doc_id : ℕ) (v : DocIds)
    → v.size ≤ length v.storage
    → ((push_id doc_id v).size ≡ v.size + 1)
      × (v.size + 1 ≤ length (push_id doc_id v).storage)
      × (length v.storage ≤ length (push_id doc_id v).storage)
      × (get_elem? (push_id doc_id v).storage v.size ≡ some doc_id)
      × ((i : ℕ) → i < v.size → get_elem? (push_id doc_id v).storage i ≡ get_elem? v.storage i)
unfolding push_id
push_id-get_elem? doc_id v long = elim (Bool-cases (ltb v.size (length v.storage))) [
  | inl e ↦
      let lt : v.size < length v.storage = ground arith in
      let same = length-set v.storage v.size doc_id in
      rw e (
        refl,
        omega (arith, same),
        omega (arith, same),
        get_elem?-set v.storage v.size v.size doc_id lt ∙ ground arith,
        λ i below. get_elem?-set v.storage v.size i doc_id lt ∙ ground arith,
      )
  | inr e ↦
      let full : length v.storage ≡ v.size = ground arith in
      let more = length-append v.storage (doc_id ∷ []) in
      rw e (
        refl,
        omega (arith, more),
        omega (arith, more),
        ap (get_elem? (v.storage ++ doc_id ∷ [])) (sym full)
            ∙ get_elem?-append_length v.storage doc_id,
        λ i below. get_elem?-append_left v.storage (doc_id ∷ []) i (omega arith),
      )
]

pub weaken {ℓ} :
    {A : Type ℓ} (P Q : A → Type 0) (xs : List A) → ((x : A) → P x → Q x) → All P xs → All Q xs
weaken P Q [] k h = tt
weaken P Q (x ∷ xs) k h = (k x h.0, weaken P Q xs k h.1)

pub All-snoc {ℓ} :
    {A : Type ℓ} (P : A → Type 0) (xs : List A) (x : A) → All P xs → P x → All P (xs ++ x ∷ [])
All-snoc P [] x h k = (k, tt)
All-snoc P (y ∷ xs) x h k = (h.0, All-snoc P xs x h.1 k)
