-- ===== src/Protocol/Payloads/RoundTrip.antt =====
-- Serializing and reading the payloads, src/protocol.cpp.
use ee542_lab2_fast_reliable.Common.{
  ℕ, ◌+◌, ◌-◌, ◌≤◌, ◌≡◌, refl, sym, subst, ap, ◌∙◌, List, [], ◌∷◌, ◌++◌, some, true, false, ltb,
  ◌==◌, ok, take, drop, replicate-add, length, length-drop, length-take, take_front, take-add,
  eq→==, All, IsByte, IsU16, IsU32, IsU64, arith,
}
use ee542_lab2_fast_reliable.Protocol.Types.{
  StartPayload, StartAckPayload, AckPayload, CompleteAckPayload, StatusCode, status_code,
  status_of_code, ok_status, busy, invalid_request, io_error, incomplete, unnamed,
}
use ee542_lab2_fast_reliable.Protocol.Bytes.{
  be16, be32, read_u16, read_u32, read_u64, read_u16-be16, read_u32-be32, read_u64-be64,
  be32-read_u32, be16-read_u16, be64-read_u64,
}
use ee542_lab2_fast_reliable.Protocol.Header.RoundTrip.{copy_to_all}
use ee542_lab2_fast_reliable.Protocol.Payloads.{
  serialize_start, read_start, deserialize_start, serialize_start_ack, read_start_ack,
  deserialize_start_ack, serialize_ack, read_ack, deserialize_ack, bitmap_bytes,
  serialize_complete_ack, read_complete_ack, deserialize_complete_ack,
}

-- The fields have their widths.
abbrev IsStart : StartPayload → Type 0
IsStart p =
    IsU64 p.file_size
    × IsU32 p.chunk_size
    × IsU32 p.total_chunks
    × IsU32 p.window_chunks
    × IsU16 p.ack_bitmap_bits
    × IsU16 p.ack_interval_ms

-- For a START payload whose fields fit their widths: it is serialized to 24 bytes, which are read
-- back as the payload, whatever follows them in the buffer.
pub deserialize_start-serialize_start :
    (p : StartPayload) (junk : List ℕ)
    → IsStart p
    → (length (serialize_start p) ≡ 24)
      × (deserialize_start (some (serialize_start p ++ junk)) (length (serialize_start p)) ≡ some p)
unfolding serialize_start deserialize_start read_start read_u16 read_u32 read_u64
deserialize_start-serialize_start p junk (file, chunk, total, window, bits, interval) = (
  refl,
  λ i. some (record {
    file_size = read_u64-be64 p.file_size [] file i;
    chunk_size = read_u32-be32 p.chunk_size [] chunk i;
    total_chunks = read_u32-be32 p.total_chunks [] total i;
    window_chunks = read_u32-be32 p.window_chunks [] window i;
    ack_bitmap_bits = read_u16-be16 p.ack_bitmap_bits [] bits i;
    ack_interval_ms = read_u16-be16 p.ack_interval_ms [] interval i;
  }),
)

status_of_code-status_code : (s : StatusCode) → status_of_code (status_code s) ≡ s
status_of_code-status_code ok_status = refl
status_of_code-status_code busy = refl
status_of_code-status_code invalid_request = refl
status_of_code-status_code io_error = refl
status_of_code-status_code incomplete = refl
status_of_code-status_code (unnamed n) = refl

read_status :
    (s : StatusCode)
    → IsU16 (status_code s)
    → status_of_code (read_u16 (be16 (status_code s) [])) ≡ s
read_status s h =
    ap status_of_code (read_u16-be16 (status_code s) [] h) ∙ status_of_code-status_code s

abbrev pub IsStartAck : StartAckPayload → Type 0
IsStartAck p =
    IsU16 (status_code p.status)
    × IsU32 p.accepted_window_chunks
    × IsU16 p.accepted_bitmap_bits
    × IsU16 p.accepted_ack_interval_ms

-- For a START_ACK payload whose fields fit their widths, with any status: it is serialized to 12
-- bytes, which are read back as the payload, whatever follows them in the buffer.
pub deserialize_start_ack-serialize_start_ack :
    (p : StartAckPayload) (junk : List ℕ)
    → IsStartAck p
    → (length (serialize_start_ack p) ≡ 12)
      × (deserialize_start_ack
            (some (serialize_start_ack p ++ junk))
            (length (serialize_start_ack p))
          ≡ some p)
unfolding serialize_start_ack deserialize_start_ack read_start_ack read_u16 read_u32
deserialize_start_ack-serialize_start_ack p junk (status, window, bits, interval) = (
  refl,
  λ i. some (record {
    status = read_status p.status status i;
    accepted_window_chunks = read_u32-be32 p.accepted_window_chunks [] window i;
    accepted_bitmap_bits = read_u16-be16 p.accepted_bitmap_bits [] bits i;
    accepted_ack_interval_ms = read_u16-be16 p.accepted_ack_interval_ms [] interval i;
  }),
)

abbrev pub IsCompleteAck : CompleteAckPayload → Type 0
IsCompleteAck p =
    IsU16 (status_code p.status)
    × IsU32 p.received_chunks
    × IsU64 p.received_bytes
    × IsU64 p.receiver_transfer_time_us

-- For a COMPLETE_ACK payload whose fields fit their widths, with any status: it is serialized to 24
-- bytes, which are read back as the payload, whatever follows them in the buffer.
pub deserialize_complete_ack-serialize_complete_ack :
    (p : CompleteAckPayload) (junk : List ℕ)
    → IsCompleteAck p
    → (length (serialize_complete_ack p) ≡ 24)
      × (deserialize_complete_ack
            (some (serialize_complete_ack p ++ junk))
            (length (serialize_complete_ack p))
          ≡ some p)
unfolding serialize_complete_ack deserialize_complete_ack read_complete_ack read_u16 read_u32
    read_u64
deserialize_complete_ack-serialize_complete_ack p junk (status, chunks, received, time) = (
  refl,
  λ i. some (record {
    status = read_status p.status status i;
    received_chunks = read_u32-be32 p.received_chunks [] chunks i;
    received_bytes = read_u64-be64 p.received_bytes [] received i;
    receiver_transfer_time_us = read_u64-be64 p.receiver_transfer_time_us [] time i;
  }),
)

abbrev pub IsAck : AckPayload → Type 0
IsAck p =
    IsU32 p.cumulative_ack
    × IsU32 p.largest_received_plus_one
    × IsU32 p.bitmap_base
    × IsU16 p.bitmap_bits
    × (length p.bitmap ≡ bitmap_bytes p.bitmap_bits)

abbrev ack_bytes : AckPayload → List ℕ → List ℕ
ack_bytes p rest =
    be32 p.cumulative_ack
      (be32 p.largest_received_plus_one (be32 p.bitmap_base (be16 p.bitmap_bits (0 ∷ 0 ∷ rest))))

serialize_ack-bytes :
    (p : AckPayload)
    → length p.bitmap ≡ bitmap_bytes p.bitmap_bits
    → serialize_ack p ≡ ok (ack_bytes p p.bitmap)
unfolding serialize_ack
serialize_ack-bytes p h =
    let whole : (length p.bitmap == bitmap_bytes p.bitmap_bits) ≡ true = eq→== _ _ h in
    rw (whole, ← h, replicate-add {A = ℕ} 16 (length p.bitmap), copy_to_all p.bitmap)

read_ack-ack_bytes :
    (p : AckPayload) (junk : List ℕ) (n : ℕ)
    → IsAck p
    → n ≡ length p.bitmap
    → read_ack (ack_bytes p (p.bitmap ++ junk)) (16 + n) ≡ p
unfolding read_ack read_u16 read_u32
read_ack-ack_bytes p junk n (cumulative, largest, base, bits, _) e =
    let rest : take (16 + n - 16) (p.bitmap ++ junk) ≡ p.bitmap =
      let size : 16 + n - 16 ≡ length p.bitmap = omega arith in
      rw size (take_front p.bitmap junk) in
    λ i. record {
      cumulative_ack = read_u32-be32 p.cumulative_ack [] cumulative i;
      largest_received_plus_one = read_u32-be32 p.largest_received_plus_one [] largest i;
      bitmap_base = read_u32-be32 p.bitmap_base [] base i;
      bitmap_bits = read_u16-be16 p.bitmap_bits [] bits i;
      bitmap = rest i;
    }

deserialize_ack-ack_bytes :
    (p : AckPayload) (junk : List ℕ) (n : ℕ)
    → IsAck p
    → n ≡ length p.bitmap
    → deserialize_ack (some (ack_bytes p (p.bitmap ++ junk))) (16 + n) ≡ some p
unfolding deserialize_ack
deserialize_ack-ack_bytes p junk n h e =
    let bits : read_u16 (be16 p.bitmap_bits (0 ∷ 0 ∷ p.bitmap ++ junk)) ≡ p.bitmap_bits =
      read_u16-be16 p.bitmap_bits _ h.3 in
    let long : ltb (16 + n) 16 ≡ false = ground arith in
    let whole : (16 + n == 16 + bitmap_bytes p.bitmap_bits) ≡ true =
      eq→== _ _ (omega (arith, h.4)) in
    rw (bits, long, whole) (ap some (read_ack-ack_bytes p junk n h e))

-- For an ACK whose fields fit their widths and whose bitmap has the bytes that its bit count needs:
-- serializing succeeds with 16 bytes more than the bitmap, and these bytes are read back as the
-- ACK, whatever follows them in the buffer.
pub deserialize_ack-serialize_ack :
    (p : AckPayload) (junk : List ℕ)
    → IsAck p
    → (out : List ℕ) × (serialize_ack p ≡ ok out)
      × (length out ≡ 16 + bitmap_bytes p.bitmap_bits)
      × (deserialize_ack (some (out ++ junk)) (length out) ≡ some p)
deserialize_ack-serialize_ack p junk h =
    let long : length (ack_bytes p p.bitmap) ≡ 16 + length p.bitmap = omega arith in
    (
      ack_bytes p p.bitmap,
      serialize_ack-bytes p h.4,
      omega (arith, h.4),
      rw long (deserialize_ack-ack_bytes p junk (length p.bitmap) h refl),
    )

some_eq {ℓ} : {A : Type ℓ} (a b : A) → some a ≡ some b → a ≡ b
some_eq a b e = cc

ack_bytes-read_ack :
    (bytes : List ℕ) (size : ℕ) (rest : List ℕ)
    → All IsByte bytes
    → 16 ≤ length bytes
    → ack_bytes (read_ack bytes size) rest ≡ take 14 bytes ++ 0 ∷ 0 ∷ rest
unfolding read_ack
ack_bytes-read_ack
      (b0 ∷ b1 ∷ b2 ∷ b3 ∷ b4 ∷ b5 ∷ b6 ∷ b7 ∷ b8 ∷ b9 ∷ b10 ∷ b11 ∷ b12 ∷ b13 ∷ b14 ∷ b15 ∷ tail)
      size rest bs n =
    let from_12 = b12 ∷ b13 ∷ b14 ∷ b15 ∷ tail in
    let from_8 = b8 ∷ b9 ∷ b10 ∷ b11 ∷ from_12 in
    let bits = b12 ∷ b13 ∷ 0 ∷ 0 ∷ rest in
    let base = b8 ∷ b9 ∷ b10 ∷ b11 ∷ bits in
    rw (
      be16-read_u16 b12 b13 (b14 ∷ b15 ∷ tail) (0 ∷ 0 ∷ rest) (omega arith),
      be32-read_u32 b8 b9 b10 b11 from_12 bits (omega arith),
      be32-read_u32 b4 b5 b6 b7 from_8 base (omega arith),
      be32-read_u32 b0 b1 b2 b3 (b4 ∷ b5 ∷ b6 ∷ b7 ∷ from_8) (b4 ∷ b5 ∷ b6 ∷ b7 ∷ base)
          (omega arith),
    )
ack_bytes-read_ack _ size rest bs n = absurd (omega arith)

deserialize_ack-some :
    (bytes : List ℕ) (size : ℕ) (p : AckPayload)
    → size ≤ length bytes
    → deserialize_ack (some bytes) size ≡ some p
    → (16 ≤ size)
      × (read_ack bytes size ≡ p)
      × (take (size - 16) (drop 16 bytes) ≡ p.bitmap)
      × (length p.bitmap ≡ bitmap_bytes p.bitmap_bits)
unfolding deserialize_ack read_ack
deserialize_ack-some bytes size p fits e = (
  ground arith,
  ground arith,
  ground arith,
  ground (arith, length-take (size - 16) (drop 16 bytes), length-drop 16 bytes),
)

-- If `deserialize_ack` accepts `size` bytes of a buffer of bytes that has them, then the bitmap it
-- returns has the bytes that its bit count needs, the first 16 bytes and the bitmap are these
-- `size` bytes, and serializing what it returns gives them back, but for zeros in the two reserved
-- bytes before the bitmap.
pub deserialize_ack_whole :
    (bytes : List ℕ) (size : ℕ) (p : AckPayload)
    → All IsByte bytes
    → size ≤ length bytes
    → deserialize_ack (some bytes) size ≡ some p
    → (length p.bitmap ≡ bitmap_bytes p.bitmap_bits)
      × (take 16 bytes ++ p.bitmap ≡ take size bytes)
      × (serialize_ack p ≡ ok (take 14 bytes ++ 0 ∷ 0 ∷ p.bitmap))
deserialize_ack_whole bytes size p bs fits e =
    let (enough, same, bitmap, counted) = deserialize_ack-some bytes size p fits e in
    let sum : 16 + (size - 16) ≡ size = omega arith in
    let front = take-add 16 (size - 16) bytes in
    let fields : ack_bytes p p.bitmap ≡ take 14 bytes ++ 0 ∷ 0 ∷ p.bitmap =
      subst (λ q. ack_bytes q p.bitmap ≡ take 14 bytes ++ 0 ∷ 0 ∷ p.bitmap) same
        (ack_bytes-read_ack bytes size p.bitmap bs (omega arith)) in
    (counted, sym (rw (sum, bitmap) at front), serialize_ack-bytes p counted ∙ ap ok fields)

-- The START payload that is read from 24 bytes is serialized to these bytes.
pub serialize_start-deserialize_start :
    (bytes : List ℕ) (p : StartPayload)
    → All IsByte bytes
    → length bytes ≡ 24
    → deserialize_start (some bytes) 24 ≡ some p
    → serialize_start p ≡ bytes
unfolding serialize_start deserialize_start read_start
serialize_start-deserialize_start
      (b0 ∷ b1 ∷ b2 ∷ b3 ∷ b4 ∷ b5 ∷ b6 ∷ b7 ∷ b8 ∷ b9 ∷ b10 ∷ b11 ∷ b12 ∷ b13 ∷ b14 ∷ b15 ∷ b16
        ∷ b17 ∷ b18 ∷ b19 ∷ b20 ∷ b21 ∷ b22 ∷ b23 ∷ [])
      p bs n e =
    ap serialize_start (sym (some_eq _ p e))
    ∙ rw (
      be16-read_u16 b22 b23 [] [] (omega arith),
      be16-read_u16 b20 b21 (b22 ∷ b23 ∷ []) (b22 ∷ b23 ∷ []) (omega arith),
      be32-read_u32 b16 b17 b18 b19 (b20 ∷ b21 ∷ b22 ∷ b23 ∷ []) (b20 ∷ b21 ∷ b22 ∷ b23 ∷ [])
          (omega arith),
      be32-read_u32 b12 b13 b14 b15 (b16 ∷ b17 ∷ b18 ∷ b19 ∷ b20 ∷ b21 ∷ b22 ∷ b23 ∷ [])
          (b16 ∷ b17 ∷ b18 ∷ b19 ∷ b20 ∷ b21 ∷ b22 ∷ b23 ∷ []) (omega arith),
      be32-read_u32 b8 b9 b10 b11
          (b12 ∷ b13 ∷ b14 ∷ b15 ∷ b16 ∷ b17 ∷ b18 ∷ b19 ∷ b20 ∷ b21 ∷ b22 ∷ b23 ∷ [])
          (b12 ∷ b13 ∷ b14 ∷ b15 ∷ b16 ∷ b17 ∷ b18 ∷ b19 ∷ b20 ∷ b21 ∷ b22 ∷ b23 ∷ [])
          (omega arith),
      be64-read_u64 b0 b1 b2 b3 b4 b5 b6 b7
          (b8 ∷ b9 ∷ b10 ∷ b11 ∷ b12 ∷ b13 ∷ b14 ∷ b15 ∷ b16 ∷ b17 ∷ b18 ∷ b19 ∷ b20 ∷ b21 ∷ b22
            ∷ b23 ∷ [])
          (b8 ∷ b9 ∷ b10 ∷ b11 ∷ b12 ∷ b13 ∷ b14 ∷ b15 ∷ b16 ∷ b17 ∷ b18 ∷ b19 ∷ b20 ∷ b21 ∷ b22
            ∷ b23 ∷ [])
          (omega arith) (omega arith),
    )
serialize_start-deserialize_start _ p bs n e = absurd (omega arith)
