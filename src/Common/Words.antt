-- ===== src/Common/Words.antt =====
-- Unsigned machine words as native numbers, with the wrap-around written out.
use Prim.Native.Nat.{ℕ, ◌+◌, ◌-◌, ◌%◌, ◌^◌, ◌<◌}
use mathlib.Core.Path.{◌≡◌}
use native.Mathlib.Omega.{arith}

abbrev pub IsByte : ℕ → Type 0
IsByte b = b < 256

abbrev pub IsU16 : ℕ → Type 0
IsU16 v = v < 2 ^ 16

abbrev pub IsU32 : ℕ → Type 0
IsU32 v = v < 2 ^ 32

abbrev pub IsU64 : ℕ → Type 0
IsU64 v = v < 2 ^ 64

-- `++x` and `--x` on a `uint32_t`, and `++x` on a `uint64_t`.
unfoldable pub inc32 : ℕ → ℕ
inc32 n = (n + 1) % 2 ^ 32

unfoldable pub dec32 : ℕ → ℕ
dec32 n = (n + (2 ^ 32 - 1)) % 2 ^ 32

unfoldable pub inc64 : ℕ → ℕ
inc64 n = (n + 1) % 2 ^ 64

pub inc32_fits : (n : ℕ) → n + 1 < 2 ^ 32 → inc32 n ≡ n + 1
unfolding inc32
inc32_fits n h = omega arith

pub dec32_fits : (n : ℕ) → 0 < n → n < 2 ^ 32 → dec32 n + 1 ≡ n
unfolding dec32
dec32_fits n p h = omega arith
