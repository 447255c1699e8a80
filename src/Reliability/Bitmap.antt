-- ===== src/Reliability/Bitmap.antt =====
-- The bits of an ACK bitmap: bit `i` is bit `i % 8` of byte `i / 8`.
use ee542_lab2_fast_reliable.Common.{
  ℕ, ◌/◌, ◌%◌, ◌<◌, ◌≡◌, List, Bool, true, false, arith, ◌==◌, if◌then◌else◌, set, get_or,
  get_or-set, length, length-set, replicate, get_or-replicate,
}
use ee542_lab2_fast_reliable.Common.Bits.{
  has_bit, set_bit, has_bit-set_bit, set_bit-lt, zero-has_bit,
}

-- `(bitmap[bit / 8] & (1U << (bit % 8))) != 0`
unfoldable pub bitmap_bit : List ℕ → ℕ → Bool
bitmap_bit bitmap bit = has_bit (get_or bitmap (bit / 8) 0) (bit % 8)

-- `bitmap[bit / 8] |= static_cast<std::uint8_t>(1U << (bit % 8))`
unfoldable pub set_bitmap_bit : List ℕ → ℕ → List ℕ
set_bitmap_bit bitmap bit = set bitmap (bit / 8) (set_bit (get_or bitmap (bit / 8) 0) (bit % 8))

abbrev pub IsBitmap : List ℕ → Type 0
IsBitmap bitmap = (j : ℕ) → get_or bitmap j 0 < 256

pub replicate-IsBitmap : (n : ℕ) → IsBitmap (replicate n 0)
replicate-IsBitmap n j = omega (arith, get_or-replicate {A = ℕ} n j 0)

pub bitmap_bit-replicate : (n bit : ℕ) → bitmap_bit (replicate n 0) bit ≡ false
unfolding bitmap_bit
bitmap_bit-replicate n bit =
    rw (get_or-replicate {A = ℕ} n (bit / 8) 0) (zero-has_bit (bit % 8) (omega arith))

pub length-set_bitmap_bit :
    (bitmap : List ℕ) (bit : ℕ) → length (set_bitmap_bit bitmap bit) ≡ length bitmap
unfolding set_bitmap_bit
length-set_bitmap_bit bitmap bit = length-set bitmap (bit / 8) _

module _ (bitmap : List ℕ) (bit : ℕ) (fits : bit / 8 < length bitmap)
    (bytes : IsBitmap bitmap) where
  pub set_bitmap_bit-IsBitmap : IsBitmap (set_bitmap_bit bitmap bit)
  unfolding set_bitmap_bit
  set_bitmap_bit-IsBitmap j = ground (
    arith,
    get_or-set bitmap (bit / 8) j (set_bit (get_or bitmap (bit / 8) 0) (bit % 8)) 0 fits,
    set_bit-lt (get_or bitmap (bit / 8) 0) (bit % 8),
    bytes j,
  )

  pub bitmap_bit-set_bitmap_bit :
      (j : ℕ)
      → bitmap_bit (set_bitmap_bit bitmap bit) j ≡ (if bit == j then true else bitmap_bit bitmap j)
  unfolding bitmap_bit set_bitmap_bit
  bitmap_bit-set_bitmap_bit j = ground (
    arith,
    get_or-set bitmap (bit / 8) (j / 8) (set_bit (get_or bitmap (bit / 8) 0) (bit % 8)) 0 fits,
    has_bit-set_bit (get_or bitmap (bit / 8) 0) (bit % 8) (j % 8),
    bytes (bit / 8),
  )
