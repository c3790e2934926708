-- ===== src/Manager/Restart.antt =====
-- `Restart` of `TokenManager` marks words, and changes nothing else of them.
use sigmod_programming_conte.Base.{
  ℕ, zero, suc, ◌+◌, ◌-◌, ◌≡◌, refl, sym, ap, ◌∙◌, subst, Bool, true, false, Option, some, none,
  List, [], ◌∷◌, map, length, get_elem?, get_elem?-drop, drop, drop_next, set, set_same, map-set,
  if◌then◌else◌, ◌==◌, ◌>>=◌, arith, some_inj,
}
use sigmod_programming_conte.Core.{CString, TokenId}
use sigmod_programming_conte.Library.{DenseMap}
use sigmod_programming_conte.Token.Defs.{TokenInfo}
use sigmod_programming_conte.Space.Defs.{
  Space, push_queue, enqueue, restart_token, restart_from, restart_space,
}
use sigmod_programming_conte.Manager.Defs.{Manager, manager_restart}
use sigmod_programming_conte.Manager.Index.{IsSound, token_at, IsIndexed}

-- A word without its mark.
abbrev pub unmarked : TokenInfo → TokenInfo
unmarked t = record t { memory_refreshed = false }

module _ {H : Type 0} where
  tokens-enqueue : (id r : ℕ) (s : Space H) → (enqueue id r s).tokens ≡ s.tokens
  unfolding enqueue push_queue
  tokens-enqueue id r s = ground arith

  restart_token-unmarked :
      (j : ℕ) (t : TokenInfo) (s : Space H)
      → get_elem? (map unmarked s.tokens) j ≡ some (unmarked t)
      → map unmarked (restart_token j t s).tokens ≡ map unmarked s.tokens
  unfolding restart_token
  restart_token-unmarked j t s here =
      let queued = if t.requests == 0 then s else enqueue j t.requests s in
      let same : queued.tokens ≡ s.tokens = of_queue (t.requests == 0) in
      of_doc queued same t.isdoct
    where
      of_queue : (b : Bool) → (if b then s else enqueue j t.requests s).tokens ≡ s.tokens
      of_queue true = refl
      of_queue false = tokens-enqueue j t.requests s

      of_doc :
          (queued : Space H)
          → queued.tokens ≡ s.tokens
          → (b : Bool)
          → map unmarked
              (if b
                then record queued {
                  tokens = set queued.tokens j (record t { memory_refreshed = true });
                }
                else queued).tokens
            ≡ map unmarked s.tokens
      of_doc queued same true =
          ap (λ ts. map unmarked (set ts j (record t { memory_refreshed = true }))) same
          ∙ map-set unmarked s.tokens j (record t { memory_refreshed = true })
          ∙ set_same (map unmarked s.tokens) j here
      of_doc queued same false = ap (map unmarked) same

  restart_from-unmarked :
      (ts : List TokenInfo) (j : ℕ) (s : Space H)
      → drop j (map unmarked s.tokens) ≡ map unmarked ts
      → map unmarked (restart_from j ts s).tokens ≡ map unmarked s.tokens
  unfolding restart_from
  restart_from-unmarked [] j s e = refl
  restart_from-unmarked (t ∷ ts) j s e =
      let same = restart_token-unmarked j t s (get_elem?-drop (map unmarked s.tokens) j e) in
      restart_from-unmarked ts (j + 1) (restart_token j t s)
        (ap (drop (j + 1)) same ∙ drop_next (map unmarked s.tokens) j e)
      ∙ same

  restart_space-unmarked :
      (cleared : H) (s : Space H)
      → map unmarked (restart_space cleared s).tokens ≡ map unmarked s.tokens
  unfolding restart_space
  restart_space-unmarked cleared s = restart_from-unmarked s.tokens 0 s refl

unmarked_at :
    (ts : List TokenInfo) (j : ℕ)
    → get_elem? (map unmarked ts) j ≡ (get_elem? ts j >>= λ t. some (unmarked t))
unmarked_at [] j = refl
unmarked_at (t ∷ ts) zero = refl
unmarked_at (t ∷ ts) (suc j) = unmarked_at ts j

-- What is said of a word does not depend on the mark.
mark_free :
    (t : TokenInfo) → (IsSound t → IsSound (unmarked t)) × (IsSound (unmarked t) → IsSound t)
mark_free t = (
  λ h. record {
    consistent = record {
      width = h.consistent.width;
      small = h.consistent.small;
      mirrors = h.consistent.mirrors;
      pruned = h.consistent.pruned;
    };
    documented = h.documented;
  },
  λ h. record {
    consistent = record {
      width = h.consistent.width;
      small = h.consistent.small;
      mirrors = h.consistent.mirrors;
      pruned = h.consistent.pruned;
    };
    documented = h.documented;
  },
)

unmarked-IsSound : (t u : TokenInfo) → unmarked t ≡ unmarked u → IsSound t → IsSound u
unmarked-IsSound t u e h = (mark_free u).1 (subst IsSound e ((mark_free t).0 h))

-- A word read, from what is read of it without the mark.
marked :
    (o o' : Option TokenInfo) (t : TokenInfo)
    → (o' >>= λ t. some (unmarked t)) ≡ (o >>= λ t. some (unmarked t))
    → o ≡ some t
    → (u : TokenInfo) × (o' ≡ some u) × (unmarked t ≡ unmarked u)
marked none o' t e h = absurd (none_ne_some h)
  where
    none_ne_some : none ≡ some t → ⊥
    none_ne_some h = cc
marked (some v) none t e h = absurd (none_ne_some e)
  where
    none_ne_some : none ≡ some (unmarked v) → ⊥
    none_ne_some h = cc
marked (some v) (some u) t e h = (u, refl, ap unmarked (sym (some_inj h)) ∙ sym (some_inj e))

module _ {H : Type 0} (dict : DenseMap CString TokenId) where
  open dict use {Map}

  -- `m'` has the dictionary of `m` and its words, but for the marks.
  pub record SameWords (m m' : Manager Map H) : Type 0 where
    pub exact : m'.exact ≡ m.exact
    pub indexes : length m'.indexes ≡ length m.indexes
    pub words :
        (i j : ℕ)
        → (token_at dict m' i j >>= λ t. some (unmarked t))
          ≡ (token_at dict m i j >>= λ t. some (unmarked t))

  SameWords-IsIndexed :
      (m m' : Manager Map H) → SameWords m m' → IsIndexed dict m → IsIndexed dict m'
  SameWords-IsIndexed m m' same inv = record {
    spaces = same.indexes ∙ inv.spaces;
    found = λ word tid h.
        let l = inv.found word tid (rw same.exact at h) in
        let k = length word - 4 in
        let (u, there, e) =
          marked (token_at dict m k tid.id_) (token_at dict m' k tid.id_) l.token
            (same.words k tid.id_) l.stored in
        record {
          measured = l.measured;
          long = l.long;
          short = l.short;
          token = u;
          stored = there;
          named = ap (λ (x : TokenInfo). x.tokenstring) (sym e) ∙ l.named;
        };
    sound = λ i j t h.
        let (u, there, e) =
          marked (token_at dict m' i j) (token_at dict m i j) t (sym (same.words i j)) h in
        unmarked-IsSound u t (sym e) (inv.sound i j u there);
    known = λ i j t h.
        let (u, there, e) =
          marked (token_at dict m' i j) (token_at dict m i j) t (sym (same.words i j)) h in
        let name : u.tokenstring ≡ t.tokenstring = ap (λ (x : TokenInfo). x.tokenstring) (sym e) in
        rw same.exact (rw name at (inv.known i j u there));
  }

  restart_words :
      (cleared : H) (ss : List (Space H)) (i j : ℕ)
      → (get_elem? (map (restart_space cleared) ss) i >>= λ s.
          get_elem? s.tokens j >>= λ t. some (unmarked t))
        ≡ (get_elem? ss i >>= λ s. get_elem? s.tokens j >>= λ t. some (unmarked t))
  restart_words cleared [] i j = refl
  restart_words cleared (s ∷ ss) zero j =
      sym (unmarked_at (restart_space cleared s).tokens j)
      ∙ ap (λ ts. get_elem? ts j) (restart_space-unmarked cleared s)
      ∙ unmarked_at s.tokens j
  restart_words cleared (s ∷ ss) (suc i) j = restart_words cleared ss i j

  length-map_restart :
      (cleared : H) (ss : List (Space H)) → length (map (restart_space cleared) ss) ≡ length ss
  length-map_restart cleared [] = refl
  length-map_restart cleared (s ∷ ss) = ap suc (length-map_restart cleared ss)

  manager_restart-SameWords :
      (cleared : H) (m : Manager Map H) → SameWords m (manager_restart dict cleared m)
  unfolding manager_restart
  manager_restart-SameWords cleared m = record {
    exact = refl;
    indexes = length-map_restart cleared m.indexes;
    words = λ i j.
        regroup (get_elem? (map (restart_space cleared) m.indexes) i) j
        ∙ restart_words cleared m.indexes i j
        ∙ sym (regroup (get_elem? m.indexes i) j);
  }
    where
      regroup :
          (o : Option (Space H)) (j : ℕ)
          → ((o >>= λ s. get_elem? s.tokens j) >>= λ t. some (unmarked t))
            ≡ (o >>= λ s. get_elem? s.tokens j >>= λ t. some (unmarked t))
      regroup none j = refl
      regroup (some s) j = refl

  -- `Restart` keeps the invariant: the words stay, with what is known of them.
  pub manager_restart-IsIndexed :
      (cleared : H) (m : Manager Map H)
      → IsIndexed dict m
      → IsIndexed dict (manager_restart dict cleared m)
  manager_restart-IsIndexed cleared m =
      SameWords-IsIndexed m (manager_restart dict cleared m) (manager_restart-SameWords cleared m)

  -- Nor does it change the documents of a word.
  pub docs-manager_restart :
      (cleared : H) (m : Manager Map H) (i j : ℕ)
      → (token_at dict (manager_restart dict cleared m) i j >>= λ t. some t.docpointer)
        ≡ (token_at dict m i j >>= λ t. some t.docpointer)
  docs-manager_restart cleared m i j =
      let m' = manager_restart dict cleared m in
      sym (through (token_at dict m' i j))
      ∙ ap (λ o. o >>= λ t. some t.docpointer) ((manager_restart-SameWords cleared m).words i j)
      ∙ through (token_at dict m i j)
    where
      through :
          (o : Option TokenInfo)
          → ((o >>= λ t. some (unmarked t)) >>= λ t. some t.docpointer)
            ≡ (o >>= λ t. some t.docpointer)
      through none = refl
      through (some t) = refl
