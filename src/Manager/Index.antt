-- ===== src/Manager/Index.antt =====
-- The dictionary and the vectors of tokens agree: the invariant of the manager, and the two ways
-- in which its operations change the vectors.
use sigmod_programming_conte.Base.{
  some_inj, Bool-cases, inl, inr, get_elem?-snoc, ℕ, ◌+◌, ◌-◌, ◌≤◌, ◌<◌, ◌≡◌, ◌≢◌, refl, sym, ap,
  ◌∙◌, subst, true, false, Option, some, none, List, [], ◌∷◌, ◌++◌, length, set, get_elem?, arith,
  ◌==◌, ◌&&◌, if◌then◌else◌, ◌>>=◌, get_elem?-set, get_elem?-length, length-set, ==→eq,
}
use sigmod_programming_conte.Core.{CString, CString-discrete, TokenId}
use sigmod_programming_conte.Library.{DenseMap}
use sigmod_programming_conte.Dictionary.{add_pair, find-add_pair_self, find-add_pair_ne}
use sigmod_programming_conte.Token.Defs.{TokenInfo}
use sigmod_programming_conte.Token.Requests.{IsConsistent}
use sigmod_programming_conte.Space.Defs.{Space}
use sigmod_programming_conte.Manager.Defs.{Manager, space_at}

-- A word of the store: its query side is consistent, and a document token has a document list.
pub record IsSound (t : TokenInfo) : Type 0 where
  pub consistent : IsConsistent t
  pub documented : t.isdoct ≡ true → (docs : List ℕ) × (t.docpointer ≡ some docs)

four : (i : ℕ) → i + 4 - 4 ≡ i
four i = omega arith

module _ {H : Type 0} (dict : DenseMap CString TokenId) where
  open dict use {Map, empty_key, find}

  -- The token at place `j` of space `i`.
  abbrev pub token_at : Manager Map H → ℕ → ℕ → Option TokenInfo
  token_at m i j = space_at dict m i >>= λ s. get_elem? s.tokens j

  -- A dictionary entry leads to the token with that string, and its length names the space.
  pub record Leads (m : Manager Map H) (s : CString) (tid : TokenId) : Type 0 where
    pub measured : tid.length_ ≡ length s
    pub long : 4 ≤ length s
    pub short : length s ≤ 31
    pub token : TokenInfo
    pub stored : token_at m (length s - 4) tid.id_ ≡ some token
    pub named : token.tokenstring ≡ s

  -- What the dictionary has is stored, and what is stored is sound and in the dictionary, under
  -- its place.
  pub record IsIndexed (m : Manager Map H) : Type 0 where
    pub spaces : length m.indexes ≡ 28
    pub found : (s : CString) (tid : TokenId) → find s m.exact ≡ some tid → Leads m s tid
    pub sound : (i j : ℕ) (t : TokenInfo) → token_at m i j ≡ some t → IsSound t
    pub known :
        (i j : ℕ) (t : TokenInfo)
        → token_at m i j ≡ some t
        → (length t.tokenstring ≡ i + 4)
          × (find t.tokenstring m.exact ≡ some (record { length_ = i + 4; id_ = j }))

  -- `m'` is `m` with `s'` for the space `s` at `i`.
  pub record Writes (m m' : Manager Map H) (i : ℕ) (s s' : Space H) : Type 0 where
    pub here : space_at dict m i ≡ some s
    pub put : m'.indexes ≡ set m.indexes i s'

  token_at-Writes :
      {m m' : Manager Map H} {i : ℕ} {s s' : Space H}
      → Writes m m' i s s'
      → (k j : ℕ) → token_at m' k j ≡ (if i == k then get_elem? s'.tokens j else token_at m k j)
  token_at-Writes {m} {m'} {i} {s} {s'} w k j =
      rw (w.put, get_elem?-set m.indexes i k s' (get_elem?-length m.indexes i w.here))
        (ground arith)

  token_at_here :
      {m m' : Manager Map H} {i : ℕ} {s s' : Space H}
      → Writes m m' i s s'
      → (k j : ℕ) → (i == k) ≡ true
      → token_at m k j ≡ get_elem? s.tokens j
  token_at_here {m} {i} w k j e = rw (← ==→eq i k e, w.here) refl

  -- One token replaced.
  module _ (m m' : Manager Map H) (i : ℕ) (s s' : Space H) (w : Writes m m' i s s') (id : ℕ)
      (t u : TokenInfo) (old : get_elem? s.tokens id ≡ some t)
      (new : s'.tokens ≡ set s.tokens id u) where
    pub token_at_replaced :
        (k j : ℕ) → token_at m' k j ≡ (if i == k && id == j then some u else token_at m k j)
    token_at_replaced k j =
        token_at-Writes w k j
        ∙ rw (new, get_elem?-set s.tokens id j u (get_elem?-length s.tokens id old))
            (ground (arith, token_at_here w k j))

    token_at_old : (k j : ℕ) → (i == k && id == j) ≡ true → token_at m k j ≡ some t
    token_at_old k j e = ground (arith, token_at_here w k j)

    -- Replacing a token by a sound one with the same string keeps the invariant.
    pub replaced-IsIndexed :
        m'.exact ≡ m.exact → u.tokenstring ≡ t.tokenstring → IsSound u → IsIndexed m → IsIndexed m'
    replaced-IsIndexed exact same fine inv = record {
      spaces = rw (w.put, length-set) inv.spaces;
      found = λ word tid h. leads word tid (inv.found word tid (rw exact at h));
      sound = λ k j v h. ground (arith, token_at_replaced k j, inv.sound k j v);
      known = λ k j v h. rw exact (
          ground
            (arith, token_at_replaced k j, token_at_old k j, inv.known k j v, inv.known k j t));
    }
      where
        leads : (word : CString) (tid : TokenId) → Leads m word tid → Leads m' word tid
        leads word tid l =
            let k = length word - 4 in
            let j = tid.id_ in
            record {
              measured = l.measured;
              long = l.long;
              short = l.short;
              token = if i == k && id == j then u else l.token;
              stored = token_at_replaced k j ∙ ground (arith, l.stored);
              named = ground (arith, l.stored, l.named, token_at_old k j);
            }

  -- One token appended.
  module _ (m m' : Manager Map H) (i : ℕ) (s s' : Space H) (w : Writes m m' i s s') (u : TokenInfo)
      (new : s'.tokens ≡ s.tokens ++ u ∷ []) where
    token_at_grown :
        (k j : ℕ)
        → token_at m' k j ≡ (if i == k && j == length s.tokens then some u else token_at m k j)
    token_at_grown k j =
        token_at-Writes w k j
        ∙ rw (new, get_elem?-snoc s.tokens u j) (ground (arith, token_at_here w k j))

    token_at_kept : (k j : ℕ) {v : TokenInfo} → token_at m k j ≡ some v → token_at m' k j ≡ some v
    token_at_kept k j {v} h =
        token_at_grown k j
        ∙ ground (arith, token_at_here w k j, get_elem?-length s.tokens j {a = v})

    token_at_new : token_at m' i (length s.tokens) ≡ some u
    token_at_new = token_at_grown i (length s.tokens) ∙ ground arith

    -- Appending a sound token for a new word, and entering it, keeps the invariant.
    pub grown-IsIndexed :
        dict.empty_key ≡ []
        → m'.exact
          ≡ (add_pair dict u.tokenstring
              (record { length_ = i + 4; id_ = length s.tokens })
              m.exact).0
        → find u.tokenstring m.exact ≡ none
        → length u.tokenstring ≡ i + 4
        → i < 28
        → IsSound u
        → IsIndexed m
        → IsIndexed m'
    grown-IsIndexed blank exact fresh long few fine inv = record {
      spaces = rw (w.put, length-set) inv.spaces;
      found = λ word tid h. leads word tid (rw exact at h);
      sound = λ k j v h. ground (arith, token_at_grown k j, inv.sound k j v);
      known = λ k j v h. elim (Bool-cases (i == k && j == length s.tokens)) [
        | inl e ↦ at_new k j v h e
        | inr e ↦ at_old k j v h e
      ];
    }
      where
        tid' : TokenId
        tid' = record { length_ = i + 4; id_ = length s.tokens }

        stored_ne : u.tokenstring ≢ dict.empty_key
        stored_ne e = absurd (omega (arith, ap length (e ∙ blank)))

        entered : find u.tokenstring (add_pair dict u.tokenstring tid' m.exact).0 ≡ some tid'
        entered = find-add_pair_self dict u.tokenstring tid' m.exact stored_ne fresh

        lift : (word : CString) (tid : TokenId) → Leads m word tid → Leads m' word tid
        lift word tid l = record {
          measured = l.measured;
          long = l.long;
          short = l.short;
          token = l.token;
          stored = token_at_kept (length word - 4) tid.id_ l.stored;
          named = l.named;
        }

        at_new :
            (k j : ℕ) (v : TokenInfo)
            → token_at m' k j ≡ some v
            → (i == k && j == length s.tokens) ≡ true
            → (length v.tokenstring ≡ k + 4)
              × (find v.tokenstring m'.exact ≡ some (record { length_ = k + 4; id_ = j }))
        at_new k j v h e =
            let same : v ≡ u = ground (arith, token_at_grown k j) in
            rw (exact, same) (ground (arith, entered))

        at_old :
            (k j : ℕ) (v : TokenInfo)
            → token_at m' k j ≡ some v
            → (i == k && j == length s.tokens) ≡ false
            → (length v.tokenstring ≡ k + 4)
              × (find v.tokenstring m'.exact ≡ some (record { length_ = k + 4; id_ = j }))
        at_old k j v h e =
            let (size, there) = inv.known k j v (ground (arith, token_at_grown k j)) in
            (
              size,
              rw exact (
                  find-add_pair_ne dict v.tokenstring u.tokenstring tid' m.exact stored_ne (λ q. cc)
                  ∙ there),
            )

        newest : Leads m' u.tokenstring tid'
        newest = record {
          measured = sym long;
          long = omega arith;
          short = omega arith;
          token = u;
          stored = rw long (rw (← four i) at token_at_new);
          named = refl;
        }

        leads :
            (word : CString) (tid : TokenId)
            → find word (add_pair dict u.tokenstring tid' m.exact).0 ≡ some tid
            → Leads m' word tid
        leads word tid h = elim (CString-discrete word u.tokenstring) [
          | yes e ↦
              let same : tid' ≡ tid = some_inj (sym entered ∙ rw e at h) in
              subst (Leads m' word) same (subst (λ x. Leads m' x tid') (sym e) newest)
          | no ne ↦ lift word tid (
              inv.found word tid
                (sym (find-add_pair_ne dict word u.tokenstring tid' m.exact stored_ne ne) ∙ h))
        ]
