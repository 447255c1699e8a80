-- ===== src/Protocol/Payloads.antt =====
-- The payload formats of src/protocol.cpp: START, START_ACK, ACK and COMPLETE_ACK.
-- A reader that returns `false` leaves its output as it was: here it returns `none`.
pub mod RoundTrip
use ee542_lab2_fast_reliable.Common.{
  ℕ, ◌+◌, ◌-◌, ◌/◌, List, Option, none, some, not, ltb, ◌==◌, if◌then◌else◌, Result, ok, err,
  Exception, invalid_argument, take, drop, length, replicate,
}
use ee542_lab2_fast_reliable.Protocol.Types.{
  Pointer, StartPayload, StartAckPayload, AckPayload, CompleteAckPayload, status_code,
  status_of_code,
}
use ee542_lab2_fast_reliable.Protocol.Bytes.{
  write_u16, write_u32, write_u64, read_u16, read_u32, read_u64,
}
use ee542_lab2_fast_reliable.Protocol.Header.{copy_to}

unfoldable pub serialize_start : StartPayload → List ℕ
unfolding write_u16 write_u32 write_u64
serialize_start p =
    let out = replicate 24 0 in
    let size = write_u64 out 0 p.file_size in
    let chunk = write_u32 size 8 p.chunk_size in
    let total = write_u32 chunk 12 p.total_chunks in
    let window = write_u32 total 16 p.window_chunks in
    let bits = write_u16 window 20 p.ack_bitmap_bits in write_u16 bits 22 p.ack_interval_ms

unfoldable pub read_start : List ℕ → StartPayload
read_start bytes = record {
  file_size = read_u64 bytes;
  chunk_size = read_u32 (drop 8 bytes);
  total_chunks = read_u32 (drop 12 bytes);
  window_chunks = read_u32 (drop 16 bytes);
  ack_bitmap_bits = read_u16 (drop 20 bytes);
  ack_interval_ms = read_u16 (drop 22 bytes);
}

unfoldable pub deserialize_start : Pointer → ℕ → Option StartPayload
deserialize_start none size = none
deserialize_start (some bytes) size = if not (size == 24) then none else some (read_start bytes)

unfoldable pub serialize_start_ack : StartAckPayload → List ℕ
unfolding write_u16 write_u32
serialize_start_ack p =
    let out = replicate 12 0 in
    let status = write_u16 out 0 (status_code p.status) in
    let window = write_u32 status 4 p.accepted_window_chunks in
    let bits = write_u16 window 8 p.accepted_bitmap_bits in
    write_u16 bits 10 p.accepted_ack_interval_ms

unfoldable pub read_start_ack : List ℕ → StartAckPayload
read_start_ack bytes = record {
  status = status_of_code (read_u16 bytes);
  accepted_window_chunks = read_u32 (drop 4 bytes);
  accepted_bitmap_bits = read_u16 (drop 8 bytes);
  accepted_ack_interval_ms = read_u16 (drop 10 bytes);
}

unfoldable pub deserialize_start_ack : Pointer → ℕ → Option StartAckPayload
deserialize_start_ack none size = none
deserialize_start_ack (some bytes) size =
    if not (size == 12) then none else some (read_start_ack bytes)

abbrev pub bitmap_bytes : ℕ → ℕ
bitmap_bytes bits = (bits + 7) / 8

-- The fixed part of an ACK, written into the zeroed vector.
unfoldable pub write_ack : AckPayload → List ℕ → List ℕ
unfolding write_u16 write_u32
write_ack p out =
    let cumulative = write_u32 out 0 p.cumulative_ack in
    let largest = write_u32 cumulative 4 p.largest_received_plus_one in
    let base = write_u32 largest 8 p.bitmap_base in write_u16 base 12 p.bitmap_bits

unfoldable pub serialize_ack : AckPayload → Result Exception (List ℕ)
unfolding write_ack copy_to
serialize_ack p =
    if not (length p.bitmap == bitmap_bytes p.bitmap_bits)
    then err (invalid_argument "ACK bitmap length does not match bitmap_bits")
    else ok (copy_to 16 p.bitmap (write_ack p (replicate (16 + bitmap_bytes p.bitmap_bits) 0)))

unfoldable pub read_ack : List ℕ → ℕ → AckPayload
read_ack bytes size = record {
  cumulative_ack = read_u32 bytes;
  largest_received_plus_one = read_u32 (drop 4 bytes);
  bitmap_base = read_u32 (drop 8 bytes);
  bitmap_bits = read_u16 (drop 12 bytes);
  bitmap = take (size - 16) (drop 16 bytes);
}

unfoldable pub deserialize_ack : Pointer → ℕ → Option AckPayload
deserialize_ack none size = none
deserialize_ack (some bytes) size =
    if ltb size 16
    then none
    else if not (size == 16 + bitmap_bytes (read_u16 (drop 12 bytes)))
    then none
    else some (read_ack bytes size)

unfoldable pub serialize_complete_ack : CompleteAckPayload → List ℕ
unfolding write_u16 write_u32 write_u64
serialize_complete_ack p =
    let out = replicate 24 0 in
    let status = write_u16 out 0 (status_code p.status) in
    let chunks = write_u32 status 4 p.received_chunks in
    let received = write_u64 chunks 8 p.received_bytes in
    write_u64 received 16 p.receiver_transfer_time_us

unfoldable pub read_complete_ack : List ℕ → CompleteAckPayload
read_complete_ack bytes = record {
  status = status_of_code (read_u16 bytes);
  received_chunks = read_u32 (drop 4 bytes);
  received_bytes = read_u64 (drop 8 bytes);
  receiver_transfer_time_us = read_u64 (drop 16 bytes);
}

unfoldable pub deserialize_complete_ack : Pointer → ℕ → Option CompleteAckPayload
deserialize_complete_ack none size = none
deserialize_complete_ack (some bytes) size =
    if not (size == 24) then none else some (read_complete_ack bytes)
