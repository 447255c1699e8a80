-- ===== src/Client/Control/Proposal.antt =====
-- What `run_client` of src/client.cpp proposes, and what it has when it reports the end.
use ee542_lab2_fast_reliable.Common.{
  ℕ, ◌+◌, ◌-◌, ◌/◌, ◌≤◌, ◌<◌, ◌≡◌, List, true, arith, length, ok, IsU32, IsU64,
}
use ee542_lab2_fast_reliable.Net.{Endpoint}
use ee542_lab2_fast_reliable.Protocol.Types.{
  StartPayload, StartAckPayload, default_ack_bitmap_bits, default_window_bytes,
}
use ee542_lab2_fast_reliable.Protocol.Sizes.{
  chunk_size_for_mtu, chunk_count, chunk_size_for_mtu_iff,
}
use ee542_lab2_fast_reliable.Protocol.Sizes.{mul_mono}
use ee542_lab2_fast_reliable.Client.Sending.Chunk.{IsConnection}
use ee542_lab2_fast_reliable.Client.Control.{propose, window_chunks_for, connection_of}
use ee542_lab2_fast_reliable.Server.Start.{validate_start, validate_start_iff}

-- What the client proposes.
abbrev pub IsProposal : ℕ → ℕ → StartPayload → Type 0
IsProposal mtu file_size p =
    (chunk_size_for_mtu mtu ≡ ok p.chunk_size)
    × (chunk_count file_size p.chunk_size ≡ ok p.total_chunks)
    × (p.file_size ≡ file_size)
    × (p.window_chunks ≡ window_chunks_for p.chunk_size)
    × (p.window_chunks ≤ default_ack_bitmap_bits)
    × (p.ack_bitmap_bits ≡ default_ack_bitmap_bits)

pub propose-IsProposal :
    (mtu file_size : ℕ) (p : StartPayload)
    → propose mtu file_size ≡ ok p
    → IsProposal mtu file_size p
unfolding propose
propose-IsProposal mtu file_size p e = ground arith

quotient-positive : (n d : ℕ) → 0 < d → d ≤ n → 0 < n / d
quotient-positive n d p h = grind arith

-- The window holds at least one chunk: 8 MiB, rounded up.
window_chunks-positive : (size : ℕ) → 0 < size → size ≤ 65483 → 0 < window_chunks_for size
unfolding window_chunks_for
window_chunks-positive size low high =
    let q = (default_window_bytes + size - 1) / size in
    let least : 0 < q =
      quotient-positive (default_window_bytes + size - 1) size low (omega arith) in
    let most : q ≤ default_window_bytes + size - 1 = omega (arith, mul_mono 1 size q low) in
    omega arith

-- A START that the client proposes for a file is valid for a server with the same MTU.
pub validate_start-propose :
    (mtu file_size : ℕ) (p : StartPayload)
    → propose mtu file_size ≡ ok p
    → validate_start mtu p ≡ ok true
validate_start-propose mtu file_size p e =
    let (size, count, file, window, _, bits) = propose-IsProposal mtu file_size p e in
    let (low, high, sum) = (chunk_size_for_mtu_iff mtu p.chunk_size).0 size in
    (validate_start_iff mtu p).1 (
      size,
      rw file count,
      rw window (window_chunks-positive p.chunk_size (omega arith) (omega arith)),
      bits,
    )

pub propose-IsConnection :
    (mtu : ℕ) (server : Endpoint) (input : List ℕ) (p : StartPayload) (accepted : StartAckPayload)
    (session_id : ℕ)
    → IsU64 (length input)
    → IsU32 session_id
    → propose mtu (length input) ≡ ok p
    → IsConnection (connection_of server input p accepted session_id)
unfolding connection_of
propose-IsConnection mtu server input p accepted session_id file session e =
    let (size, count, _, _, _, _) = propose-IsProposal mtu (length input) p e in
    let (_, high, sum) = (chunk_size_for_mtu_iff mtu p.chunk_size).0 size in
    record { file = file; counted = count; datagrams = omega arith; session_fits = session }
