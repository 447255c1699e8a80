-- ===== src/Chunks.antt =====
-- How a file is cut into chunks: the offset and the size of a DATA payload, which src/client.cpp
-- computes to send it and src/server.cpp to accept it.
use ee542_lab2_fast_reliable.Common.{
  ℕ, zero, suc, ◌+◌, ◌-◌, ◌*◌, ◌%◌, ◌^◌, ◌≤◌, ◌<◌, ◌≡◌, ◌≢◌, ◌⊎◌, min, ltb, Bool-cases, ltb→lt,
  ltb→ge, inl, inr, arith, ok, IsU64,
}
use ee542_lab2_fast_reliable.Protocol.Sizes.{chunk_count, chunk_count_iff, mul_mono}

-- `static_cast<std::uint64_t>(sequence) * chunk_size`
unfoldable pub chunk_offset : ℕ → ℕ → ℕ
chunk_offset chunk_size sequence = sequence * chunk_size % 2 ^ 64

-- `std::min<std::uint64_t>(chunk_size, file_size - offset)`
unfoldable pub chunk_length : ℕ → ℕ → ℕ → ℕ
unfolding chunk_offset
chunk_length file_size chunk_size sequence =
    min chunk_size ((file_size + 2 ^ 64 - chunk_offset chunk_size sequence) % 2 ^ 64)

-- The lengths of the chunks before `n`, together.
pub lengths_before : ℕ → ℕ → ℕ → ℕ
lengths_before file_size chunk_size zero = 0
lengths_before file_size chunk_size (suc n) =
    lengths_before file_size chunk_size n + chunk_length file_size chunk_size n

module _ (file_size chunk_size : ℕ) {count : ℕ} (file : IsU64 file_size)
    (counted : chunk_count file_size chunk_size ≡ ok count) where
  fits :
      (0 < chunk_size)
      × (count < 2 ^ 32)
      × (file_size ≤ count * chunk_size)
      × ((s : ℕ) → s < count → s * chunk_size < file_size)
  fits = (chunk_count_iff file_size chunk_size count).0 counted

  pub chunk_offset_exact : (s : ℕ) → s < count → chunk_offset chunk_size s ≡ s * chunk_size
  unfolding chunk_offset
  chunk_offset_exact s h = omega (arith, fits.3 s h)

  pub chunk_length_exact :
      (s : ℕ)
      → s < count
      → chunk_length file_size chunk_size s ≡ min chunk_size (file_size - s * chunk_size)
  unfolding chunk_length
  chunk_length_exact s h = omega (arith, fits.3 s h)

  -- For a file size below 2^64 that has a chunk count: each chunk has at least one byte and at most
  -- the chunk size, and ends within the file.
  pub chunk_within :
      (s : ℕ)
      → s < count
      → (0 < chunk_length file_size chunk_size s)
        × (chunk_length file_size chunk_size s ≤ chunk_size)
        × (chunk_offset chunk_size s + chunk_length file_size chunk_size s ≤ file_size)
  chunk_within s h =
      omega (arith, chunk_offset_exact s h, chunk_length_exact s h, fits.3 s h, fits.0)

  before :
      (n : ℕ) → n ≤ count → lengths_before file_size chunk_size n ≡ min file_size (n * chunk_size)
  unfolding lengths_before
  before zero h = omega arith
  before (suc n) h = omega (arith, before n (omega arith), chunk_length_exact n h, fits.3 n h)

  -- For a file size below 2^64 that has a chunk count: each chunk begins where the lengths of the
  -- chunks before it end, without overflow, and the lengths of all chunks together are the file
  -- size.
  pub chunks_tile :
      ((s : ℕ) → s < count → chunk_offset chunk_size s ≡ lengths_before file_size chunk_size s)
      × (lengths_before file_size chunk_size count ≡ file_size)
  chunks_tile = (
    λ s h. omega (arith, before s (omega arith), chunk_offset_exact s h, fits.3 s h),
    omega (arith, before count (omega arith), fits.2),
  )

  row_of_byte :
      (k n : ℕ)
      → k < n * chunk_size
      → (s : ℕ) × (s < n) × (s * chunk_size ≤ k) × (k < s * chunk_size + chunk_size)
  row_of_byte k zero h = absurd (omega arith)
  row_of_byte k (suc n) h = elim (Bool-cases (ltb k (n * chunk_size))) [
    | inl e ↦
        let (s, l, from, below) = row_of_byte k n (ltb→lt _ _ e) in (s, omega arith, from, below)
    | inr e ↦ (n, omega arith, ltb→ge _ _ e, omega arith)
  ]

  -- Every byte of the file is in a chunk.
  pub chunk_of_byte :
      (k : ℕ)
      → k < file_size
      → (s : ℕ) × (s < count)
        × (chunk_offset chunk_size s ≤ k)
        × (k < chunk_offset chunk_size s + chunk_length file_size chunk_size s)
  chunk_of_byte k h =
      let (s, l, from, below) = row_of_byte k count (omega (arith, fits.2)) in
      (
        s,
        l,
        omega (arith, chunk_offset_exact s l),
        omega (arith, chunk_offset_exact s l, chunk_length_exact s l),
      )

  -- And only in one.
  pub chunks_disjoint :
      (s j k : ℕ)
      → s < count
      → j < count
      → s ≢ j
      → chunk_offset chunk_size s ≤ k
      → k < chunk_offset chunk_size s + chunk_length file_size chunk_size s
      → (k < chunk_offset chunk_size j)
        ⊎ (chunk_offset chunk_size j + chunk_length file_size chunk_size j ≤ k)
  chunks_disjoint s j k hs hj apart from below = ground (
    arith,
    chunk_offset_exact s hs,
    chunk_length_exact s hs,
    chunk_offset_exact j hj,
    chunk_length_exact j hj,
    mul_mono (s + 1) j chunk_size,
    mul_mono (j + 1) s chunk_size,
  )
