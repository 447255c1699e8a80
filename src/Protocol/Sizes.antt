-- ===== src/Protocol/Sizes.antt =====
-- `chunk_size_for_mtu` and `chunk_count` of src/protocol.cpp.
use ee542_lab2_fast_reliable.Common.{
  ℕ, ◌+◌, ◌-◌, ◌*◌, ◌/◌, ◌%◌, ◌^◌, ◌≤◌, ◌<◌, ◌≡◌, ◌↔◌, ◌⊎◌, inl, inr, false, refl, Bool-cases,
  ltb→lt, ltb→ge, ◌||◌, arith, ltb, leb, ◌==◌, if◌then◌else◌, Result, ok, err, Exception,
  invalid_argument,
}
use ee542_lab2_fast_reliable.Protocol.Types.{ipv4_udp_overhead, header_size}
use native.Mathlib.Nat.{div-add-mod, mod-lt}

abbrev pub mtu_range_message : Exception
mtu_range_message = invalid_argument "MTU must be between 53 and 65535 bytes"

unfoldable pub chunk_size_for_mtu : ℕ → Result Exception ℕ
chunk_size_for_mtu mtu =
    let overhead = ipv4_udp_overhead + header_size in
    if leb mtu overhead || ltb 65535 mtu then err mtu_range_message else ok (mtu - overhead)

unfoldable pub chunk_count : ℕ → ℕ → Result Exception ℕ
chunk_count file_size chunk_size =
    let count = file_size / chunk_size + (if file_size % chunk_size == 0 then 0 else 1) in
    if chunk_size == 0
    then err (invalid_argument "chunk size must be non-zero")
    else if ltb (2 ^ 32 - 1) count
    then err (invalid_argument "file needs more than 32-bit chunk IDs")
    else ok count

-- `chunk_size_for_mtu` returns a size exactly for the MTUs 53 to 65535, and the datagram with its
-- IP, UDP and FRFT headers then fills the MTU.
pub chunk_size_for_mtu_iff :
    (mtu size : ℕ)
    → (chunk_size_for_mtu mtu ≡ ok size)
      ↔ ((53 ≤ mtu) × (mtu ≤ 65535) × (ipv4_udp_overhead + header_size + size ≡ mtu))
unfolding chunk_size_for_mtu
chunk_size_for_mtu_iff mtu size = (λ h. ground arith, λ h. ground arith)

pub mul_mono : (a b c : ℕ) → a ≤ b → a * c ≤ b * c
mul_mono a b c h = grind arith

before_end :
    (s q r c : ℕ) {n : ℕ} → 0 < c → c * q + r ≡ n → s < q + (if r == 0 then 0 else 1) → s * c < n
before_end s q r c p e h = grind (arith, mul_mono s q c, mul_mono (s + 1) q c)

-- The quotient, rounded up.
quotient_up : ℕ → ℕ → ℕ
quotient_up n c = n / c + (if n % c == 0 then 0 else 1)

quotient_up-covers : (n c : ℕ) → 0 < c → n ≤ quotient_up n c * c
unfolding quotient_up
quotient_up-covers n c p = grind (arith, mod-lt, div-add-mod)

quotient_up-tight : (n c : ℕ) → 0 < c → (s : ℕ) → s < quotient_up n c → s * c < n
unfolding quotient_up
quotient_up-tight n c p s h = before_end s (n / c) (n % c) c p (div-add-mod n c) h

counts_unique :
    (n c a b : ℕ)
    → n ≤ a * c
    → ((s : ℕ) → s < a → s * c < n)
    → n ≤ b * c
    → ((s : ℕ) → s < b → s * c < n)
    → a ≡ b
counts_unique n c a b a_covers a_tight b_covers b_tight = ground (arith, a_tight b, b_tight a)

chunk_count_cases :
    (file_size chunk_size count : ℕ)
    → (chunk_count file_size chunk_size ≡ ok count)
      ↔ ((0 < chunk_size) × (count < 2 ^ 32) × (count ≡ quotient_up file_size chunk_size))
unfolding chunk_count quotient_up
chunk_count_cases file_size chunk_size count = (λ h. ground arith, λ h. ground arith)

-- `chunk_count` returns a count exactly if the chunk size is not 0, the count is below 2^32, and it
-- is the least number of chunks that holds the file: that many do, and each starts before the
-- file's end.
pub chunk_count_iff :
    (file_size chunk_size count : ℕ)
    → (chunk_count file_size chunk_size ≡ ok count) ↔ (
        (0 < chunk_size)
        × (count < 2 ^ 32)
        × (file_size ≤ count * chunk_size)
        × ((s : ℕ) → s < count → s * chunk_size < file_size))
chunk_count_iff file_size chunk_size count =
    let (to, from) = chunk_count_cases file_size chunk_size count in
    (
      λ h.
          let (p, small, least) = to h in
          rw least (
            p,
            rw (← least) small,
            quotient_up-covers file_size chunk_size p,
            quotient_up-tight file_size chunk_size p,
          ),
      λ (p, small, covers, tight). from (
        p,
        small,
        counts_unique file_size chunk_size count (quotient_up file_size chunk_size) covers tight
            (quotient_up-covers file_size chunk_size p) (quotient_up-tight file_size chunk_size p),
      ),
    )

abbrev pub too_many_chunks : Exception
too_many_chunks = invalid_argument "file needs more than 32-bit chunk IDs"

quotient_up-le : (n c m : ℕ) → quotient_up n c ≤ m → 0 < c → n ≤ m * c
quotient_up-le n c m h p = omega (arith, quotient_up-covers n c p, mul_mono (quotient_up n c) m c h)

-- For a chunk size that is not 0: either `chunk_count` returns a count, and the file is at most
-- 2^32 - 1 chunks long; or it throws, and the file is longer.
pub chunk_count_throws :
    (file_size chunk_size : ℕ)
    → 0 < chunk_size
    → ((count : ℕ) × (chunk_count file_size chunk_size ≡ ok count)
        × (file_size ≤ (2 ^ 32 - 1) * chunk_size))
      ⊎ ((chunk_count file_size chunk_size ≡ err too_many_chunks)
          × ((2 ^ 32 - 1) * chunk_size < file_size))
unfolding chunk_count
chunk_count_throws file_size chunk_size p =
    let nonzero : (chunk_size == 0) ≡ false = ground arith in
    elim (Bool-cases (ltb (2 ^ 32 - 1) (quotient_up file_size chunk_size))) [
      | inl e ↦ inr (
        rw nonzero (unfold quotient_up in rw e refl),
        quotient_up-tight file_size chunk_size p (2 ^ 32 - 1) (ltb→lt _ _ e),
      )
      | inr e ↦ inl (
        quotient_up file_size chunk_size,
        rw nonzero (unfold quotient_up in rw e refl),
        quotient_up-le file_size chunk_size (2 ^ 32 - 1) (ltb→ge _ _ e) p,
      )
    ]
