-- ===== src/Common/Counting.antt =====
-- Counting the indices below a bound that pass a test.
use Prim.Native.Nat.{ℕ, zero, suc, ◌+◌, ◌≤◌, ◌<◌}
use mathlib.Core.Path.{◌≡◌, refl}
use mathlib.Core.Logic.{◌≢◌, inl, inr}
use mathlib.Core.Bool.{Bool, true, false}
use native.Mathlib.Omega.{arith}
use native.Mathlib.Numerals.{add-one}
use ee542_lab2_fast_reliable.Common.Tests.{Bool-cases, ◌==◌}

abbrev pub count_one : Bool → ℕ
count_one true = 1
count_one false = 0

pub count_below : (ℕ → Bool) → ℕ → ℕ
count_below p zero = 0
count_below p (suc n) = count_one (p n) + count_below p n

pub count_below-ext :
    (p q : ℕ → Bool) (n : ℕ) → ((i : ℕ) → i < n → p i ≡ q i) → count_below p n ≡ count_below q n
unfolding count_below
count_below-ext p q zero h = refl
count_below-ext p q (suc n) h =
    rw (h n (omega arith), count_below-ext p q n (λ i l. h i (omega arith)))

pub count_below-le : (p : ℕ → Bool) (n : ℕ) → count_below p n ≤ n
unfolding count_below
count_below-le p zero = omega arith
count_below-le p (suc n) = ground (arith, count_below-le p n)

-- One more index passes.
pub count_below_gain :
    (p q : ℕ → Bool) (k n : ℕ)
    → k < n
    → p k ≡ false
    → q k ≡ true
    → ((i : ℕ) → k ≢ i → p i ≡ q i)
    → count_below q n ≡ count_below p n + 1
unfolding count_below
count_below_gain p q k zero l pk qk h = absurd (omega arith)
count_below_gain p q k (suc n) l pk qk h = elim (Bool-cases (k == n)) [
  | inl e ↦
      let same : k ≡ n = ground arith in
      let here : p n ≡ false = rw (← same) pk in
      let there : q n ≡ true = rw (← same) qk in
      let rest : count_below p n ≡ count_below q n =
        count_below-ext p q n (λ i b. h i (omega arith)) in
      rw (here, there, rest) (omega arith)
  | inr e ↦
      let other : k ≢ n = ground arith in
      rw (h n other) (omega (arith, count_below_gain p q k n (ground arith) pk qk h))
]

pub count_below_all : (p : ℕ → Bool) (n : ℕ) → ((i : ℕ) → i < n → p i ≡ true) → count_below p n ≡ n
unfolding count_below
count_below_all p zero h = refl
count_below_all p (suc n) h =
    rw (h n (omega arith)) (omega (arith, count_below_all p n (λ i l. h i (omega arith))))

-- A full count leaves no index out.
pub count_below_full : (p : ℕ → Bool) (n : ℕ) → count_below p n ≡ n → (i : ℕ) → i < n → p i ≡ true
unfolding count_below
count_below_full p zero e i l = absurd (omega arith)
count_below_full p (suc n) e i l = elim (Bool-cases (i == n)) [
  | inl s ↦ let same : i ≡ n = ground arith in rw same (ground (arith, count_below-le p n))
  | inr s ↦ count_below_full p n (ground (arith, count_below-le p n)) i (ground arith)
]

-- An index that does not pass leaves the count short.
pub count_below_none :
    (p : ℕ → Bool) (n : ℕ) → ((i : ℕ) → i < n → p i ≡ false) → count_below p n ≡ 0
unfolding count_below
count_below_none p zero h = refl
count_below_none p (suc n) h =
    rw (h n (omega arith)) (omega (arith, count_below_none p n (λ i l. h i (omega arith))))

pub count_below_suc :
    (p : ℕ → Bool) (n : ℕ) → count_below p (n + 1) ≡ count_one (p n) + count_below p n
unfolding count_below
count_below_suc p n = rw add-one
