-- ===== src/Examples/Protocol.antt =====
-- A datagram, payloads and a file of three chunks, by the functions of src/protocol.cpp.
use ee542_lab2_fast_reliable.Common.{
  take, ℕ, ◌+◌, ◌*◌, ◌^◌, ◌≡◌, ◌↔◌, ◌≤◌, ◌<◌, refl, List, [], ◌∷◌, ◌++◌, some, arith, ok, length,
}
use ee542_lab2_fast_reliable.Protocol.Types.{
  PacketHeader, PacketView, data_chunk, StartPayload, StartAckPayload, AckPayload,
  CompleteAckPayload, ok_status, unnamed, magic_number, protocol_version,
}
use ee542_lab2_fast_reliable.Protocol.Bytes.{read_u16, read_u32, read_u64}
use ee542_lab2_fast_reliable.Protocol.Sizes.{
  chunk_size_for_mtu, chunk_size_for_mtu_iff, chunk_count, chunk_count_iff,
}
use ee542_lab2_fast_reliable.Protocol.Header.{
  serialize_packet, deserialize_packet_view, deserialize_packet, read_header, check_header,
  valid_packet_type,
}
use ee542_lab2_fast_reliable.Protocol.Header.RoundTrip.{
  IsSendable, as_received, deserialize_packet_view-serialize_packet,
  serialize_packet-deserialize_packet_view,
}
use ee542_lab2_fast_reliable.Protocol.Payloads.{
  serialize_start, deserialize_start, read_start, serialize_start_ack, deserialize_start_ack,
  serialize_ack, deserialize_ack, read_ack, serialize_complete_ack, deserialize_complete_ack,
  bitmap_bytes,
}
use ee542_lab2_fast_reliable.Protocol.Payloads.RoundTrip.{
  deserialize_start-serialize_start, deserialize_start_ack-serialize_start_ack,
  deserialize_complete_ack-serialize_complete_ack, deserialize_ack-serialize_ack,
  deserialize_ack_whole, serialize_start-deserialize_start,
}
use ee542_lab2_fast_reliable.Chunks.{
  chunk_offset, chunk_length, lengths_before, chunk_within, chunks_tile,
}

abbrev header : PacketHeader
header = record {
  magic = magic_number;
  version = protocol_version;
  type = data_chunk;
  flags = 2;
  session_id = 70_000;
  number = 5;
  payload_length = 0;
  header_length = 24;
  crc32c = 0;
}

header-IsSendable : IsSendable header
header-IsSendable = (refl, refl, omega arith, refl, omega arith, omega arith, omega arith)

deserialize_packet_view-serialize_packet_example :
    (out : List ℕ) × (serialize_packet header (some (9 ∷ 8 ∷ 7 ∷ [])) 3 ≡ ok out)
    × (length out ≡ 27)
    × (deserialize_packet_view (some (out ++ 1 ∷ [])) (length out)
        ≡ ok (record {
          header = as_received header 3;
          payload = 9 ∷ 8 ∷ 7 ∷ 1 ∷ [];
          payload_size = 3;
        }))
    × (deserialize_packet (some (out ++ 1 ∷ [])) (length out)
        ≡ ok (record { header = as_received header 3; payload = 9 ∷ 8 ∷ 7 ∷ [] }))
deserialize_packet_view-serialize_packet_example =
    deserialize_packet_view-serialize_packet header (9 ∷ 8 ∷ 7 ∷ []) (1 ∷ []) header-IsSendable
      (omega arith)

-- A DATA datagram with two bytes.
abbrev datagram : List ℕ
datagram =
    70 ∷ 82 ∷ 70 ∷ 84 ∷ 1 ∷ 3 ∷ 0 ∷ 2 ∷ 0 ∷ 0 ∷ 1 ∷ 2 ∷ 0 ∷ 0 ∷ 0 ∷ 7 ∷ 0 ∷ 2 ∷ 0 ∷ 24 ∷ 0 ∷ 0 ∷ 0
    ∷ 0 ∷ 200 ∷ 201 ∷ []

abbrev view : PacketView
view = record {
  header = record {
    magic = magic_number;
    version = protocol_version;
    type = data_chunk;
    flags = 2;
    session_id = 258;
    number = 7;
    payload_length = 2;
    header_length = 24;
    crc32c = 0;
  };
  payload = 200 ∷ 201 ∷ [];
  payload_size = 2;
}

datagram-accepted : deserialize_packet_view (some datagram) 26 ≡ ok view
unfolding deserialize_packet_view read_header check_header valid_packet_type read_u16 read_u32
datagram-accepted = refl

serialize_packet-deserialize_packet_view_example :
    IsSendable view.header
    × (serialize_packet view.header (some view.payload) view.payload_size ≡ ok datagram)
serialize_packet-deserialize_packet_view_example =
    serialize_packet-deserialize_packet_view datagram 26 view (omega arith) (omega arith)
      datagram-accepted

abbrev start_payload : StartPayload
start_payload = record {
  file_size = 5_000_000_000;
  chunk_size = 1448;
  total_chunks = 3_453_039;
  window_chunks = 5793;
  ack_bitmap_bits = 8192;
  ack_interval_ms = 10;
}

deserialize_start-serialize_start_example :
    (length (serialize_start start_payload) ≡ 24)
    × (deserialize_start
          (some (serialize_start start_payload ++ 4 ∷ []))
          (length (serialize_start start_payload))
        ≡ some start_payload)
deserialize_start-serialize_start_example =
    deserialize_start-serialize_start start_payload (4 ∷ [])
      (omega arith, omega arith, omega arith, omega arith, omega arith, omega arith)

abbrev start_bytes : List ℕ
start_bytes =
    0 ∷ 0 ∷ 0 ∷ 1 ∷ 0 ∷ 0 ∷ 0 ∷ 5 ∷ 0 ∷ 0 ∷ 5 ∷ 168 ∷ 0 ∷ 0 ∷ 0 ∷ 9 ∷ 0 ∷ 0 ∷ 0 ∷ 3 ∷ 32 ∷ 0 ∷ 0
    ∷ 10 ∷ []

abbrev start_read : StartPayload
start_read = record {
  file_size = 4_294_967_301;
  chunk_size = 1448;
  total_chunks = 9;
  window_chunks = 3;
  ack_bitmap_bits = 8192;
  ack_interval_ms = 10;
}

start_bytes-accepted : deserialize_start (some start_bytes) 24 ≡ some start_read
unfolding deserialize_start read_start read_u16 read_u32 read_u64
start_bytes-accepted = refl

serialize_start-deserialize_start_example : serialize_start start_read ≡ start_bytes
serialize_start-deserialize_start_example =
    serialize_start-deserialize_start start_bytes start_read (omega arith) refl start_bytes-accepted

abbrev start_ack_payload : StartAckPayload
start_ack_payload = record {
  status = ok_status;
  accepted_window_chunks = 5793;
  accepted_bitmap_bits = 8192;
  accepted_ack_interval_ms = 10;
}

deserialize_start_ack-serialize_start_ack_example :
    (length (serialize_start_ack start_ack_payload) ≡ 12)
    × (deserialize_start_ack
          (some (serialize_start_ack start_ack_payload ++ []))
          (length (serialize_start_ack start_ack_payload))
        ≡ some start_ack_payload)
deserialize_start_ack-serialize_start_ack_example =
    deserialize_start_ack-serialize_start_ack start_ack_payload []
      (omega arith, omega arith, omega arith, omega arith)

abbrev complete_ack_payload : CompleteAckPayload
complete_ack_payload = record {
  status = unnamed 4;
  received_chunks = 3;
  received_bytes = 4000;
  receiver_transfer_time_us = 1_000_000;
}

deserialize_complete_ack-serialize_complete_ack_example :
    (length (serialize_complete_ack complete_ack_payload) ≡ 24)
    × (deserialize_complete_ack
          (some (serialize_complete_ack complete_ack_payload ++ 3 ∷ []))
          (length (serialize_complete_ack complete_ack_payload))
        ≡ some complete_ack_payload)
deserialize_complete_ack-serialize_complete_ack_example =
    deserialize_complete_ack-serialize_complete_ack complete_ack_payload (3 ∷ [])
      (omega arith, omega arith, omega arith, omega arith)

abbrev ack_payload : AckPayload
ack_payload = record {
  cumulative_ack = 4;
  largest_received_plus_one = 13;
  bitmap_base = 4;
  bitmap_bits = 12;
  bitmap = 2 ∷ 1 ∷ [];
}

deserialize_ack-serialize_ack_example :
    (out : List ℕ) × (serialize_ack ack_payload ≡ ok out)
    × (length out ≡ 18)
    × (deserialize_ack (some (out ++ 6 ∷ [])) (length out) ≡ some ack_payload)
deserialize_ack-serialize_ack_example =
    deserialize_ack-serialize_ack ack_payload (6 ∷ [])
      (omega arith, omega arith, omega arith, omega arith, refl)

abbrev ack_bytes : List ℕ
ack_bytes = 0 ∷ 0 ∷ 0 ∷ 4 ∷ 0 ∷ 0 ∷ 0 ∷ 13 ∷ 0 ∷ 0 ∷ 0 ∷ 4 ∷ 0 ∷ 12 ∷ 0 ∷ 0 ∷ 2 ∷ 1 ∷ []

ack_bytes-accepted : deserialize_ack (some (ack_bytes ++ 6 ∷ [])) 18 ≡ some ack_payload
unfolding deserialize_ack read_ack read_u16 read_u32
ack_bytes-accepted = refl

deserialize_ack_whole_example :
    (length ack_payload.bitmap ≡ bitmap_bytes ack_payload.bitmap_bits)
    × (take 16 ack_bytes ++ ack_payload.bitmap ≡ take 18 (ack_bytes ++ 6 ∷ []))
    × (serialize_ack ack_payload ≡ ok (take 14 ack_bytes ++ 0 ∷ 0 ∷ ack_payload.bitmap))
deserialize_ack_whole_example =
    deserialize_ack_whole (ack_bytes ++ 6 ∷ []) 18 ack_payload (omega arith) (omega arith)
      ack_bytes-accepted

chunk_size_for_mtu_iff_example :
    (chunk_size_for_mtu 1500 ≡ ok 1448) ↔ ((53 ≤ 1500) × (1500 ≤ 65535) × (28 + 24 + 1448 ≡ 1500))
chunk_size_for_mtu_iff_example = chunk_size_for_mtu_iff 1500 1448

chunk_count_iff_example :
    (chunk_count 3000 1448 ≡ ok 3)
    ↔ ((0 < 1448) × (3 < 2 ^ 32) × (3000 ≤ 3 * 1448) × ((s : ℕ) → s < 3 → s * 1448 < 3000))
chunk_count_iff_example = chunk_count_iff 3000 1448 3

-- 3000 bytes in chunks of 1448.
three_chunks : chunk_count 3000 1448 ≡ ok 3
unfolding chunk_count
three_chunks = refl

chunk_within_example :
    (0 < chunk_length 3000 1448 2)
    × (chunk_length 3000 1448 2 ≤ 1448)
    × (chunk_offset 1448 2 + chunk_length 3000 1448 2 ≤ 3000)
chunk_within_example = chunk_within 3000 1448 (omega arith) three_chunks 2 (omega arith)

chunks_tile_example :
    ((s : ℕ) → s < 3 → chunk_offset 1448 s ≡ lengths_before 3000 1448 s)
    × (lengths_before 3000 1448 3 ≡ 3000)
chunks_tile_example = chunks_tile 3000 1448 (omega arith) three_chunks
