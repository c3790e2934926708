-- ===== src/Results/Any.antt =====
-- Whether one of a list counts, for the words of a batch and the ranges that the jobs take of them.
use sigmod_programming_conte.Base.{
  Bool-cases, ℕ, zero, suc, ◌+◌, ◌-◌, ◌≤◌, ◌<◌, ◌≡◌, refl, sym, ap, ap₂, ◌∙◌, Bool, true, false,
  ◌&&◌, ◌||◌, Option, none, some, List, [], ◌∷◌, length, get_elem?, take, drop, ◌==◌, arith,
  Bool-cases, inl, inr, ==→eq,
}
use sigmod_programming_conte.Jobs.Tiles.{Tiles}
use sigmod_programming_conte.Results.Schedule.{up_from}

abbrev pub any {ℓ} : {A : Type ℓ} → (A → Bool) → List A → Bool
any p [] = false
any p (x ∷ xs) = p x || any p xs

abbrev pub or_none {ℓ} : {A : Type ℓ} → Option (List A) → List A
or_none none = []
or_none (some xs) = xs

-- The words of a range.
abbrev pub slice : List ℕ → ℕ → ℕ → List ℕ
slice keys start finish = take (finish - start) (drop start keys)

or_assoc : (a b c : Bool) → (a || (b || c)) ≡ ((a || b) || c)
or_assoc a b c = ground arith

any-take :
    (p : ℕ → Bool) (keys : List ℕ) (n : ℕ)
    → any p keys ≡ (any p (take n keys) || any p (drop n keys))
any-take p keys zero = refl
any-take p [] (suc n) = refl
any-take p (x ∷ keys) (suc n) =
    ap (λ b. p x || b) (any-take p keys n)
    ∙ or_assoc (p x) (any p (take n keys)) (any p (drop n keys))

drop-nil : (n : ℕ) → drop {A = ℕ} n [] ≡ []
drop-nil zero = refl
drop-nil (suc n) = refl

drop-drop : (keys : List ℕ) (k n : ℕ) → drop n (drop k keys) ≡ drop (k + n) keys
drop-drop keys zero n = ap (λ i. drop i keys) (omega arith)
drop-drop [] (suc k) n = drop-nil n ∙ sym (drop-nil (suc k + n))
drop-drop (x ∷ keys) (suc k) n =
    let e : suc k + n ≡ suc (k + n) = omega arith in rw e (drop-drop keys k n)

drop-all : (keys : List ℕ) → drop (length keys) keys ≡ []
drop-all [] = refl
drop-all (x ∷ keys) = drop-all keys

-- Ranges that follow one another take all words.
pub any-Tiles :
    (p : ℕ → Bool) (keys : List ℕ) (most k : ℕ) (rs : List (ℕ × ℕ))
    → Tiles most k (length keys) rs
    → any p (drop k keys) ≡ any (λ (r : ℕ × ℕ). any p (slice keys (r.0) (r.1))) rs
any-Tiles p keys most k [] e = ap (λ i. any p (drop i keys)) e ∙ ap (any p) (drop-all keys)
any-Tiles p keys most k ((a, b) ∷ rs) (from, lt, le, rest) =
    let e : k + (b - k) ≡ b = omega (arith, from, lt) in
    any-take p (drop k keys) (b - k)
    ∙ ap₂ (λ s t. any p s || any p t) (ap (λ i. slice keys i b) (sym from))
        (drop-drop keys k (b - k) ∙ ap (λ i. drop i keys) e)
    ∙ ap (λ t. any p (slice keys a b) || t) (any-Tiles p keys most b rs rest)

pub any-up_from :
    (p q : ℕ → Bool) (first n : ℕ)
    → ((x : ℕ) → first ≤ x → x < first + n → p x ≡ q x)
    → any p (up_from first n) ≡ any q (up_from first n)
any-up_from p q first zero h = refl
any-up_from p q first (suc n) h =
    ap₂ (λ a b. a || b) (h first (omega arith) (omega arith))
      (any-up_from p q (first + 1) n (λ x low lt. h x (omega arith) (omega arith)))

pub any-or : (p q : ℕ → Bool) (xs : List ℕ) → any (λ x. p x || q x) xs ≡ (any p xs || any q xs)
any-or p q [] = refl
any-or p q (x ∷ xs) = shuffle (p x) (q x) (any p xs) (any q xs) (any-or p q xs)
  where
    shuffle : (a b c d : Bool) {r : Bool} → r ≡ (c || d) → ((a || b) || r) ≡ ((a || c) || (b || d))
    shuffle a b c d e = rw e (ground arith)

any_before :
    (g : ℕ → Bool) (l first n : ℕ) → l < first → any (λ x. x == l && g x) (up_from first n) ≡ false
any_before g l first zero lt = refl
any_before g l first (suc n) lt =
    let ne : (first == l) ≡ false = ground arith in
    rw ne (any_before g l (first + 1) n (omega arith))

-- One of the values is `l`.
pub any_at :
    (g : ℕ → Bool) (l first n : ℕ)
    → first ≤ l
    → l < first + n
    → any (λ x. x == l && g x) (up_from first n) ≡ g l
any_at g l first zero low lt = absurd (omega arith)
any_at g l first (suc n) low lt = elim (Bool-cases (first == l)) [
  | inl e ↦
      let same = ==→eq first l e in
      rw e (
        ap₂ (λ a b. a || b) (ap g same) (any_before g l (first + 1) n (omega arith))
        ∙ or_false (g l))
  | inr e ↦ rw e (any_at g l (first + 1) n (ground arith) (omega arith))
]
  where
    or_false : (b : Bool) → (b || false) ≡ b
    or_false true = refl
    or_false false = refl

-- The lists at all places.
pub any_places :
    {A : Type 0} (q : List A → Bool) (ws : List (List A)) (first : ℕ)
    → any (λ x. q (or_none (get_elem? ws (x - first)))) (up_from first (length ws)) ≡ any q ws
any_places q [] first = refl
any_places q (w ∷ ws) first =
    let here : first - first ≡ 0 = omega arith in
    ap₂ (λ a b. a || b) (ap (λ i. q (or_none (get_elem? (w ∷ ws) i))) here)
      (any-up_from (λ x. q (or_none (get_elem? (w ∷ ws) (x - first))))
          (λ x. q (or_none (get_elem? ws (x - (first + 1))))) (first + 1) (length ws)
          (λ x low lt. ap (λ i. q (or_none (get_elem? (w ∷ ws) i))) (after x low))
        ∙ any_places q ws (first + 1))
  where
    after : (x : ℕ) → first + 1 ≤ x → x - first ≡ suc (x - (first + 1))
    after x low = omega arith
