-- ===== src/Protocol/Bytes.antt =====
-- The big-endian readers and writers of src/protocol.cpp.
use ee542_lab2_fast_reliable.Common.{
  ℕ, zero, suc, ◌+◌, ◌*◌, ◌/◌, ◌%◌, ◌^◌, ◌≤◌, ◌<◌, ◌≡◌, ◌∙◌, List, [], ◌∷◌, arith, bit_or, set,
  get_or, length, All, IsByte, IsU16, IsU32, IsU64,
}
use native.Mathlib.Nat.{mod-eq_of_lt}
use ee542_lab2_fast_reliable.Common.Bits.{bit_or-shift8}

-- `for (int i = rounds - 1; i >= 0; --i) out[offset++] = value >> (i * 8);`
unfoldable pub write_loop : ℕ → List ℕ → ℕ → ℕ → List ℕ
write_loop zero out offset value = out
write_loop (suc i) out offset value =
    write_loop i (set out offset (value / 2 ^ (i * 8) % 256)) (offset + 1) value

unfoldable pub write_u16 : List ℕ → ℕ → ℕ → List ℕ
write_u16 out offset value = set (set out offset (value / 2 ^ 8 % 256)) (offset + 1) (value % 256)

unfoldable pub write_u32 : List ℕ → ℕ → ℕ → List ℕ
unfolding write_loop
write_u32 out offset value = write_loop 4 out offset value

unfoldable pub write_u64 : List ℕ → ℕ → ℕ → List ℕ
unfolding write_loop
write_u64 out offset value = write_loop 8 out offset value

-- `for (int i = 0; i < rounds; ++i) value = (value << 8) | data[i];` in a word of `w` bits.
unfoldable pub read_loop : ℕ → ℕ → List ℕ → ℕ → ℕ → ℕ
read_loop w zero bytes i value = value
read_loop w (suc rounds) bytes i value =
    read_loop w rounds bytes (i + 1) (bit_or (value * 2 ^ 8 % 2 ^ w) (get_or bytes i 0))

unfoldable pub read_u16 : List ℕ → ℕ
read_u16 bytes = bit_or (get_or bytes 0 0 * 2 ^ 8) (get_or bytes 1 0)

unfoldable pub read_u32 : List ℕ → ℕ
unfolding read_loop
read_u32 bytes = read_loop 32 4 bytes 0 0

unfoldable pub read_u64 : List ℕ → ℕ
unfolding read_loop
read_u64 bytes = read_loop 64 8 bytes 0 0

-- The bytes of a word, most significant first, before the bytes `rest`.
abbrev pub be16 : ℕ → List ℕ → List ℕ
be16 v rest = (v / 2 ^ 8 % 256) ∷ (v % 256) ∷ rest

abbrev pub be32 : ℕ → List ℕ → List ℕ
be32 v rest = (v / 2 ^ 24 % 256) ∷ (v / 2 ^ 16 % 256) ∷ (v / 2 ^ 8 % 256) ∷ (v / 2 ^ 0 % 256) ∷ rest

abbrev pub be64 : ℕ → List ℕ → List ℕ
be64 v rest =
    (v / 2 ^ 56 % 256) ∷ (v / 2 ^ 48 % 256) ∷ (v / 2 ^ 40 % 256) ∷ (v / 2 ^ 32 % 256) ∷ be32 v rest

-- One round of a reader, while the word has room for the byte.
shift_in : (v b m : ℕ) → b < 256 → v * 256 + 255 < m → bit_or (v * 2 ^ 8 % m) b ≡ v * 256 + b
shift_in v b m h fits =
    let e : v * 256 % m ≡ v * 256 = mod-eq_of_lt (omega arith) in rw e (bit_or-shift8 v b h)

pub read_u16-bytes : (a b : ℕ) (rest : List ℕ) → IsByte b → read_u16 (a ∷ b ∷ rest) ≡ a * 256 + b
unfolding read_u16
read_u16-bytes a b rest h = bit_or-shift8 a b h

pub read_u32-bytes :
    (a b c d : ℕ) (rest : List ℕ)
    → All IsByte (a ∷ b ∷ c ∷ d ∷ [])
    → read_u32 (a ∷ b ∷ c ∷ d ∷ rest) ≡ ((a * 256 + b) * 256 + c) * 256 + d
unfolding read_u32
read_u32-bytes a b c d rest (ha, (hb, (hc, (hd, _)))) =
    let first : bit_or 0 a ≡ a = omega (arith, bit_or-shift8 0 a ha) in
    rw
      (
        first,
        shift_in a b (2 ^ 32) hb (omega arith),
        shift_in (a * 256 + b) c (2 ^ 32) hc (omega arith),
      )
      (shift_in ((a * 256 + b) * 256 + c) d (2 ^ 32) hd (omega arith))

-- The first four rounds of the eight-byte reader.
read_u64-head :
    (a b c d : ℕ) (rest : List ℕ)
    → All IsByte (a ∷ b ∷ c ∷ d ∷ [])
    → read_u64 (a ∷ b ∷ c ∷ d ∷ rest)
      ≡ read_loop 64 4 (a ∷ b ∷ c ∷ d ∷ rest) 4 (((a * 256 + b) * 256 + c) * 256 + d)
unfolding read_u64
read_u64-head a b c d rest (ha, (hb, (hc, (hd, _)))) =
    let first : bit_or 0 a ≡ a = omega (arith, bit_or-shift8 0 a ha) in
    rw (
      first,
      shift_in a b (2 ^ 64) hb (omega arith),
      shift_in (a * 256 + b) c (2 ^ 64) hc (omega arith),
      shift_in ((a * 256 + b) * 256 + c) d (2 ^ 64) hd (omega arith),
    )

-- The last four rounds, on the word that the first four read.
read_u64-tail :
    (p0 p1 p2 p3 e f g h v : ℕ) (rest : List ℕ)
    → All IsByte (e ∷ f ∷ g ∷ h ∷ [])
    → IsU32 v
    → read_loop 64 4 (p0 ∷ p1 ∷ p2 ∷ p3 ∷ e ∷ f ∷ g ∷ h ∷ rest) 4 v
      ≡ (((v * 256 + e) * 256 + f) * 256 + g) * 256 + h
unfolding read_loop
read_u64-tail p0 p1 p2 p3 e f g h v rest (he, (hf, (hg, (hh, _)))) hv =
    rw
      (
        shift_in v e (2 ^ 64) he (omega arith),
        shift_in (v * 256 + e) f (2 ^ 64) hf (omega arith),
        shift_in ((v * 256 + e) * 256 + f) g (2 ^ 64) hg (omega arith),
      )
      (shift_in (((v * 256 + e) * 256 + f) * 256 + g) h (2 ^ 64) hh (omega arith))

pub read_u64-bytes :
    (a b c d e f g h : ℕ) (rest : List ℕ)
    → All IsByte (a ∷ b ∷ c ∷ d ∷ [])
    → All IsByte (e ∷ f ∷ g ∷ h ∷ [])
    → read_u64 (a ∷ b ∷ c ∷ d ∷ e ∷ f ∷ g ∷ h ∷ rest)
      ≡ ((((((a * 256 + b) * 256 + c) * 256 + d) * 256 + e) * 256 + f) * 256 + g) * 256 + h
read_u64-bytes a b c d e f g h rest high low =
    read_u64-head a b c d (e ∷ f ∷ g ∷ h ∷ rest) high
    ∙ read_u64-tail a b c d e f g h (((a * 256 + b) * 256 + c) * 256 + d) rest low (omega arith)

pub read_u16-be16 : (v : ℕ) (rest : List ℕ) → IsU16 v → read_u16 (be16 v rest) ≡ v
read_u16-be16 v rest h =
    omega (arith, read_u16-bytes (v / 2 ^ 8 % 256) (v % 256) rest (omega arith))

pub read_u32-be32 : (v : ℕ) (rest : List ℕ) → IsU32 v → read_u32 (be32 v rest) ≡ v
read_u32-be32 v rest h = omega (
  arith,
  read_u32-bytes (v / 2 ^ 24 % 256) (v / 2 ^ 16 % 256) (v / 2 ^ 8 % 256) (v / 2 ^ 0 % 256) rest
      (omega arith),
)

pub read_u64-be64 : (v : ℕ) (rest : List ℕ) → IsU64 v → read_u64 (be64 v rest) ≡ v
read_u64-be64 v rest h = omega (
  arith,
  read_u64-bytes (v / 2 ^ 56 % 256) (v / 2 ^ 48 % 256) (v / 2 ^ 40 % 256) (v / 2 ^ 32 % 256)
      (v / 2 ^ 24 % 256) (v / 2 ^ 16 % 256) (v / 2 ^ 8 % 256) (v / 2 ^ 0 % 256) rest (omega arith)
      (omega arith),
)

-- Writing back what was read gives the same bytes.
pub be16-read_u16 :
    (a b : ℕ) (tail rest : List ℕ)
    → All IsByte (a ∷ b ∷ [])
    → be16 (read_u16 (a ∷ b ∷ tail)) rest ≡ a ∷ b ∷ rest
be16-read_u16 a b tail rest (ha, (hb, _)) = rw (read_u16-bytes a b tail hb) (ground arith)

pub be32-read_u32 :
    (a b c d : ℕ) (tail rest : List ℕ)
    → All IsByte (a ∷ b ∷ c ∷ d ∷ [])
    → be32 (read_u32 (a ∷ b ∷ c ∷ d ∷ tail)) rest ≡ a ∷ b ∷ c ∷ d ∷ rest
be32-read_u32 a b c d tail rest h = rw (read_u32-bytes a b c d tail h) (ground arith)

pub be64-read_u64 :
    (a b c d e f g h : ℕ) (tail rest : List ℕ)
    → All IsByte (a ∷ b ∷ c ∷ d ∷ [])
    → All IsByte (e ∷ f ∷ g ∷ h ∷ [])
    → be64 (read_u64 (a ∷ b ∷ c ∷ d ∷ e ∷ f ∷ g ∷ h ∷ tail)) rest
      ≡ a ∷ b ∷ c ∷ d ∷ e ∷ f ∷ g ∷ h ∷ rest
be64-read_u64 a b c d e f g h tail rest high low =
    rw (read_u64-bytes a b c d e f g h tail high low) (ground arith)

-- A word that was read fits its width.
pub read_u16-IsU16 : (bytes : List ℕ) → All IsByte bytes → 2 ≤ length bytes → IsU16 (read_u16 bytes)
read_u16-IsU16 (a ∷ b ∷ tail) bs h = omega (arith, read_u16-bytes a b tail)
read_u16-IsU16 _ bs h = absurd (omega arith)

pub read_u32-IsU32 : (bytes : List ℕ) → All IsByte bytes → 4 ≤ length bytes → IsU32 (read_u32 bytes)
read_u32-IsU32 (a ∷ b ∷ c ∷ d ∷ tail) bs h =
    omega (arith, read_u32-bytes a b c d tail (omega arith))
read_u32-IsU32 _ bs h = absurd (omega arith)
