-- ===== src/Base/Bits.antt =====
-- The bits of a `char` below 128, by checking every value.
use Prim.Native.Nat.{ℕ, zero, suc, ◌-◌, ◌^◌, ◌<◌, bit_and, bit_or, bit_and-bitwise}
use mathlib.Core.Path.{◌≡◌, refl}
use mathlib.Core.Bool.{Bool, true, false, not, ◌&&◌, ◌||◌}
use native.Mathlib.Omega.{arith}
use sigmod_programming_conte.Base.Tests.{◌==◌, ltb, ltb→lt}

-- Whether a test holds at each of the `bound` first numbers.
unfoldable pub passes : (ℕ → Bool) → ℕ → Bool
passes test zero = true
passes test (suc bound) = passes test bound && test bound

pub passes_at :
    (test : ℕ → Bool) (bound i : ℕ) → i < bound → passes test bound ≡ true → test i ≡ true
unfolding passes
passes_at test zero i lt e = elim lt [ ]
passes_at test (suc bound) i lt e = ground (arith, passes_at test bound i)

-- `r & (1 << i)` as a condition.
unfoldable pub has_bit : ℕ → ℕ → Bool
has_bit r i = not (bit_and r (2 ^ i) == 0)

bit_and_of_zero : (m : ℕ) → bit_and 0 m ≡ 0
bit_and_of_zero m = bit_and-bitwise 0 m

-- No bit of 0 is set.
pub has_bit-zero : (i : ℕ) → has_bit 0 i ≡ false
unfolding has_bit
has_bit-zero i = rw (bit_and_of_zero (2 ^ i)) refl

abbrev iff_b : Bool → Bool → Bool
iff_b true b = b
iff_b false b = not b

iff_b_sound : (a b : Bool) → iff_b a b ≡ true → a ≡ b
iff_b_sound a b h = ground arith

-- A test at every `char` below 128 and every pair of bits.
abbrev table : (ℕ → ℕ → ℕ → Bool) → Bool
table p = passes (λ r. passes (λ i. passes (p r i) 7) 7) 128

table_sound :
    (p : ℕ → ℕ → ℕ → Bool) (r i j : ℕ) → table p ≡ true → r < 128 → i < 7 → j < 7 → p r i j ≡ true
table_sound p r i j h hr hi hj = passes_at (p r i) 7 j hj (
    passes_at (λ i. passes (p r i) 7) 7 i hi
      (passes_at (λ r. passes (λ i. passes (p r i) 7) 7) 128 r hr h))

and_left : (a b : Bool) → (a && b) ≡ true → a ≡ true
and_left a b h = ground arith

and_right : (a b : Bool) → (a && b) ≡ true → b ≡ true
and_right a b h = ground arith

pushed_bit_table :
    table (λ r i j. iff_b (has_bit (bit_or r (2 ^ i)) j) (i == j || has_bit r j)) ≡ true
unfolding passes has_bit
pushed_bit_table = refl

-- Setting bit `i` sets that bit and no other.
pub has_bit-bit_or :
    (r i j : ℕ) → r < 128 → i < 7 → j < 7 → has_bit (bit_or r (2 ^ i)) j ≡ (i == j || has_bit r j)
has_bit-bit_or r i j hr hi hj = iff_b_sound _ _ (table_sound _ r i j pushed_bit_table hr hi hj)

bit_or-lt_table : table (λ r i j. ltb (bit_or r (2 ^ i)) 128) ≡ true
unfolding passes
bit_or-lt_table = refl

pub bit_or-lt : (r i : ℕ) → r < 128 → i < 7 → bit_or r (2 ^ i) < 128
bit_or-lt r i hr hi = ltb→lt _ _ (table_sound _ r i 0 bit_or-lt_table hr hi (omega arith))

has_bit-clear_table :
    table (λ r i j. iff_b (has_bit (bit_and r (255 - 2 ^ i)) j) (not (i == j) && has_bit r j))
    ≡ true
unfolding passes has_bit
has_bit-clear_table = refl

-- Masking bit `i` out clears that bit and no other.
pub has_bit-clear :
    (r i j : ℕ)
    → r < 128
    → i < 7
    → j < 7
    → has_bit (bit_and r (255 - 2 ^ i)) j ≡ (not (i == j) && has_bit r j)
has_bit-clear r i j hr hi hj = iff_b_sound _ _ (table_sound _ r i j has_bit-clear_table hr hi hj)

clear-lt_table : table (λ r i j. ltb (bit_and r (255 - 2 ^ i)) 128) ≡ true
unfolding passes
clear-lt_table = refl

pub clear-lt : (r i : ℕ) → r < 128 → i < 7 → bit_and r (255 - 2 ^ i) < 128
clear-lt r i hr hi = ltb→lt _ _ (table_sound _ r i 0 clear-lt_table hr hi (omega arith))

-- A mask of two bits meets a byte exactly when one of the bits is set.
two_bits_table :
    passes
      (λ r.
        iff_b (not (bit_and r 0b01001000 == 0)) (has_bit r 3 || has_bit r 6)
        && (iff_b (not (bit_and r 0b00100100 == 0)) (has_bit r 2 || has_bit r 5)
            && iff_b (not (bit_and r 0b00010010 == 0)) (has_bit r 1 || has_bit r 4)))
      128
    ≡ true
unfolding passes has_bit
two_bits_table = refl

pub two_bits :
    (r : ℕ)
    → r < 128
    → (not (bit_and r 0b01001000 == 0) ≡ (has_bit r 3 || has_bit r 6))
      × (not (bit_and r 0b00100100 == 0) ≡ (has_bit r 2 || has_bit r 5))
      × (not (bit_and r 0b00010010 == 0) ≡ (has_bit r 1 || has_bit r 4))
two_bits r h =
    let t = passes_at _ 128 r h two_bits_table in
    (
      iff_b_sound _ _ (and_left _ _ t),
      iff_b_sound _ _ (and_left _ _ (and_right _ _ t)),
      iff_b_sound _ _ (and_right _ _ (and_right _ _ t)),
    )

-- Bytes with the same seven bits are equal.
eq_of_bits_table :
    passes
      (λ r.
        passes
          (λ s.
            r == s
            || not (
                iff_b (has_bit r 0) (has_bit s 0)
                && iff_b (has_bit r 1) (has_bit s 1)
                && iff_b (has_bit r 2) (has_bit s 2)
                && iff_b (has_bit r 3) (has_bit s 3)
                && iff_b (has_bit r 4) (has_bit s 4)
                && iff_b (has_bit r 5) (has_bit s 5)
                && iff_b (has_bit r 6) (has_bit s 6)))
          128)
      128
    ≡ true
unfolding passes has_bit
eq_of_bits_table = refl

iff_b_of_eq : (a b : Bool) → a ≡ b → iff_b a b ≡ true
iff_b_of_eq a b h = ground arith

or_not_elim :
    (r s : ℕ) (a b c d e f g : Bool)
    → (r == s || not (a && b && c && d && e && f && g)) ≡ true
    → a ≡ true
    → b ≡ true
    → c ≡ true
    → d ≡ true
    → e ≡ true
    → f ≡ true
    → g ≡ true
    → r ≡ s
or_not_elim r s a b c d e f g h ha hb hc hd he hf hg = ground arith

pub eq_of_bits :
    (r s : ℕ) → r < 128 → s < 128 → ((i : ℕ) → i < 7 → has_bit r i ≡ has_bit s i) → r ≡ s
eq_of_bits r s hr hs same =
    or_not_elim r s _ _ _ _ _ _ _ (passes_at _ 128 s hs (passes_at _ 128 r hr eq_of_bits_table))
      (bit 0 (omega arith)) (bit 1 (omega arith)) (bit 2 (omega arith)) (bit 3 (omega arith))
      (bit 4 (omega arith)) (bit 5 (omega arith)) (bit 6 (omega arith))
  where
    bit : (i : ℕ) → i < 7 → iff_b (has_bit r i) (has_bit s i) ≡ true
    bit i lt = iff_b_of_eq _ _ (same i lt)
