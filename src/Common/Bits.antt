-- ===== src/Common/Bits.antt =====
-- The bit operations that the program uses, as arithmetic: appending a byte to a word, and testing
-- and setting one bit of a byte.
use Prim.Native.Nat.{
  ℕ, zero, suc, ◌+◌, ◌*◌, ◌/◌, ◌%◌, ◌^◌, ◌≤◌, ◌<◌, max, bit_and, bit_or, digits, bit_or-bitwise,
}
use mathlib.Core.Path.{◌≡◌, refl, ap}
use mathlib.Core.Bool.{Bool, true, false, not, ◌&&◌}
use native.Mathlib.Omega.{arith}
use native.Mathlib.Nat.{pow-suc}
use ee542_lab2_fast_reliable.Common.Tests.{◌==◌, if◌then◌else◌}

abbrev or_digits : ℕ → ℕ → ℕ → ℕ
or_digits n a b = digits (λ b. b) max n a b

or_digits_fuel : (n m a b : ℕ) → a ≤ n → a ≤ m → or_digits n a b ≡ or_digits m a b
or_digits_fuel zero zero a b p q = refl
or_digits_fuel zero (suc m) zero b p q = refl
or_digits_fuel zero (suc m) (suc a) b p q = absurd (omega arith)
or_digits_fuel (suc n) zero zero b p q = refl
or_digits_fuel (suc n) zero (suc a) b p q = absurd (omega arith)
or_digits_fuel (suc n) (suc m) zero b p q = refl
or_digits_fuel (suc n) (suc m) (suc a) b p q =
    omega (arith, or_digits_fuel n m (suc a / 2) (b / 2) (omega arith) (omega arith))

zero-bit_or : (b : ℕ) → bit_or 0 b ≡ b
zero-bit_or b = bit_or-bitwise 0 b

bit_or_step : (a b : ℕ) → bit_or a b ≡ bit_or (a / 2) (b / 2) * 2 + max (a % 2) (b % 2)
bit_or_step zero b = omega (arith, zero-bit_or b, zero-bit_or (b / 2))
bit_or_step (suc a) b = omega (
  arith,
  bit_or-bitwise (suc a) b,
  bit_or-bitwise (suc a / 2) (b / 2),
  or_digits_fuel a (suc a / 2) (suc a / 2) (b / 2) (omega arith) (omega arith),
)

bit_or-zero_fuel : (n a : ℕ) → a ≤ n → bit_or a 0 ≡ a
bit_or-zero_fuel n zero h = zero-bit_or 0
bit_or-zero_fuel zero (suc a) h = absurd (omega arith)
bit_or-zero_fuel (suc n) (suc a) h =
    omega (arith, bit_or_step (suc a) 0, bit_or-zero_fuel n (suc a / 2) (omega arith))

bit_or-zero : (a : ℕ) → bit_or a 0 ≡ a
bit_or-zero a = bit_or-zero_fuel a a (omega arith)

half_shift : (k a : ℕ) → a * 2 ^ suc k / 2 ≡ a * 2 ^ k
half_shift k a = omega (arith, ap (λ (t : ℕ). a * t) (pow-suc 2 k))

-- Below `k` free low bits the disjunction is a sum.
bit_or_low : (k a b : ℕ) → b < 2 ^ k → bit_or (a * 2 ^ k) b ≡ a * 2 ^ k + b
bit_or_low zero a b h = let e : b ≡ 0 = omega arith in rw e (omega (arith, bit_or-zero (a * 2 ^ 0)))
bit_or_low (suc k) a b h = omega (
  arith,
  bit_or_step (a * 2 ^ suc k) b,
  pow-suc 2 k,
  ap (λ (t : ℕ). a * t) (pow-suc 2 k),
  ap (λ (t : ℕ). bit_or t (b / 2)) (half_shift k a),
  bit_or_low k a (b / 2) (omega (arith, pow-suc 2 k)),
)

-- `(word << 8) | byte`
pub bit_or-shift8 : (a b : ℕ) → b < 256 → bit_or (a * 256) b ≡ a * 256 + b
bit_or-shift8 a b h = bit_or_low 8 a b h

-- `(byte & (1U << k)) != 0`, and the byte with that bit set.
unfoldable pub has_bit : ℕ → ℕ → Bool
has_bit byte k = not (bit_and byte (2 ^ k) == 0)

unfoldable pub set_bit : ℕ → ℕ → ℕ
set_bit byte k = bit_or byte (2 ^ k % 256) % 256

all_below : ℕ → (ℕ → Bool) → Bool
all_below zero p = true
all_below (suc n) p = p n && all_below n p

all_below_sound : (n : ℕ) (p : ℕ → Bool) → all_below n p ≡ true → (x : ℕ) → x < n → p x ≡ true
unfolding all_below
all_below_sound zero p h x lt = absurd (omega arith)
all_below_sound (suc n) p h x lt = ground (arith, all_below_sound n p (ground arith) x)

bool_eq : Bool → Bool → Bool
bool_eq true b = b
bool_eq false b = not b

bool_eq_sound : (a b : Bool) → bool_eq a b ≡ true → a ≡ b
unfolding bool_eq
bool_eq_sound a b h = ground arith

-- Every byte, bit set and bit read.
bit_table :
    all_below 8 (λ k. all_below 8 (λ j.
      all_below 256
        (λ b. bool_eq (has_bit (set_bit b k) j) (if k == j then true else has_bit b j))))
    ≡ true
unfolding all_below bool_eq has_bit set_bit
bit_table = refl

pub has_bit-set_bit :
    (b k j : ℕ)
    → b < 256
    → k < 8
    → j < 8
    → has_bit (set_bit b k) j ≡ (if k == j then true else has_bit b j)
has_bit-set_bit b k j hb hk hj =
    bool_eq_sound _ _
      (all_below_sound 256 _ (all_below_sound 8 _ (all_below_sound 8 _ bit_table k hk) j hj) b hb)

pub set_bit-lt : (b k : ℕ) → set_bit b k < 256
unfolding set_bit
set_bit-lt b k = omega arith

pub zero-has_bit : (k : ℕ) → k < 8 → has_bit 0 k ≡ false
zero-has_bit k h = bool_eq_sound _ _ (all_below_sound 8 _ zero_table k h)
  where
    zero_table : all_below 8 (λ k. bool_eq (has_bit 0 k) false) ≡ true
    zero_table = unfold all_below bool_eq has_bit in refl
