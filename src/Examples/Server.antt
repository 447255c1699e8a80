-- ===== src/Examples/Server.antt =====
-- A file of three bytes in two chunks, received by the functions of src/server.cpp.
use ee542_lab2_fast_reliable.Common.{
  ℕ, zero, suc, ◌+◌, ◌-◌, ◌*◌, ◌^◌, ◌≤◌, ◌<◌, ◌≡◌, ◌≢◌, ◌⊎◌, inl, inr, refl, List, [], ◌∷◌, Option,
  some, none, Bool, true, false, arith, Result, ok, err, Exception, length, inc32,
}
use ee542_lab2_fast_reliable.Common
use ee542_lab2_fast_reliable.Common.Bits.{set_bit}
use ee542_lab2_fast_reliable.Protocol.Types.{
  PacketType, start, data_chunk, PacketHeader, PacketView, StartPayload, StartAckPayload,
  CompleteAckPayload, ok_status,
}
use ee542_lab2_fast_reliable.Protocol.Types
use ee542_lab2_fast_reliable.Protocol.Payloads.{deserialize_start}
use ee542_lab2_fast_reliable.Protocol.Sizes.{chunk_count, too_many_chunks, chunk_count_throws}
use ee542_lab2_fast_reliable.Server.{
  Transfer, Session, Received, Outcome, waiting, finished, new_session, handle_packet, serve,
}
use ee542_lab2_fast_reliable.Net.{Endpoint, make_header, Datagram}
use ee542_lab2_fast_reliable.Server.Stored.{offset_of, IsTransferOf, IsFaithful}
use ee542_lab2_fast_reliable.Server.Batching.{IsBatched, handle_packet-IsBatched}
use ee542_lab2_fast_reliable.Server.Safety.{serve_lem}
use ee542_lab2_fast_reliable.Server.Start.{
  validate_start, IsValidStart, validate_start_cases, receive_start, accepts, receive_start_accepts,
  IsAccepted,
}

abbrev client : Endpoint
client = record { family = 2; port = 9000; address = 77 }

abbrev transfer : Transfer
transfer = record {
  client = client;
  session_id = 5;
  start = record {
    file_size = 3;
    chunk_size = 2;
    total_chunks = 2;
    window_chunks = 4;
    ack_bitmap_bits = 8;
    ack_interval_ms = 10;
  };
  accepted = record {
    status = ok_status;
    accepted_window_chunks = 4;
    accepted_bitmap_bits = 8;
    accepted_ack_interval_ms = 10;
  };
}

abbrev source : List ℕ
source = 10 ∷ 20 ∷ 30 ∷ []

abbrev packet_of : PacketType → ℕ → List ℕ → PacketView
packet_of type number payload = record {
  header = record {
    magic = Types.magic_number;
    version = 1;
    type = type;
    flags = 0;
    session_id = 5;
    number = number;
    payload_length = length payload;
    header_length = 24;
    crc32c = 0;
  };
  payload = payload;
  payload_size = length payload;
}

abbrev event_of : PacketView → Received
event_of packet = record {
  packet = packet;
  source = client;
  arrival = 1000;
  now = 1000;
  flushed = true;
}

-- The second chunk arrives first.
abbrev events : List Received
events =
    event_of (packet_of data_chunk 1 (30 ∷ []))
    ∷ event_of (packet_of data_chunk 0 (10 ∷ 20 ∷ []))
    ∷ event_of (packet_of Types.complete 2 [])
    ∷ []

abbrev session_of : Result Exception Outcome → Session
session_of (ok (waiting s sent)) = s
session_of (ok (finished s c sent)) = s
session_of (err e) = new_session transfer 0

abbrev answer_of : Result Exception Outcome → CompleteAckPayload
answer_of (ok (waiting s sent)) = record {
  status = ok_status;
  received_chunks = 0;
  received_bytes = 0;
  receiver_transfer_time_us = 0;
}
answer_of (ok (finished s c sent)) = c
answer_of (err e) = record {
  status = ok_status;
  received_chunks = 0;
  received_bytes = 0;
  receiver_transfer_time_us = 0;
}

abbrev sent_of : Result Exception Outcome → List Datagram
sent_of (ok (waiting s sent)) = sent
sent_of (ok (finished s c sent)) = sent
sent_of (err e) = []

abbrev result : Result Exception Outcome
result = serve transfer events (new_session transfer 0)

finishes : result ≡ ok (finished (session_of result) (answer_of result) (sent_of result))
unfolding serve ee542_lab2_fast_reliable.Server.go_on handle_packet
    ee542_lab2_fast_reliable.Server.is_of_session ee542_lab2_fast_reliable.Net.same_endpoint
    ee542_lab2_fast_reliable.Server.handle_data ee542_lab2_fast_reliable.Server.expected_size
    ee542_lab2_fast_reliable.Server.answer_data ee542_lab2_fast_reliable.Server.should_send_ack
    ee542_lab2_fast_reliable.Server.expect_ack ee542_lab2_fast_reliable.Server.record_data
    ee542_lab2_fast_reliable.Server.ack_interval ee542_lab2_fast_reliable.Server.acknowledge
    ee542_lab2_fast_reliable.Server.completion ee542_lab2_fast_reliable.Server.copy_chunk
    ee542_lab2_fast_reliable.Server.finish ee542_lab2_fast_reliable.Server.handle_complete
    ee542_lab2_fast_reliable.Server.handle_start ee542_lab2_fast_reliable.Server.handle_type
    ee542_lab2_fast_reliable.Server.receiver_time_us ee542_lab2_fast_reliable.Server.reply
    ee542_lab2_fast_reliable.Server.send_ack ee542_lab2_fast_reliable.Server.send_complete_ack
    ee542_lab2_fast_reliable.Net.send_packet ee542_lab2_fast_reliable.Server.send_start_ack
    ee542_lab2_fast_reliable.Server.store_chunk ee542_lab2_fast_reliable.Server.with_sent
    new_session make_header ee542_lab2_fast_reliable.Chunks.chunk_length
    ee542_lab2_fast_reliable.Chunks.chunk_offset
    ee542_lab2_fast_reliable.Reliability.Receiver.has_received
    ee542_lab2_fast_reliable.Reliability.Receiver.is_received
    ee542_lab2_fast_reliable.Reliability.Receiver.new_receiver
    ee542_lab2_fast_reliable.Reliability.Receiver.complete
    ee542_lab2_fast_reliable.Reliability.Receiver.mark_received
    ee542_lab2_fast_reliable.Protocol.Bytes.write_loop
    ee542_lab2_fast_reliable.Protocol.Bytes.write_u16
    ee542_lab2_fast_reliable.Protocol.Bytes.write_u32
    ee542_lab2_fast_reliable.Protocol.Bytes.write_u64
    ee542_lab2_fast_reliable.Protocol.Header.copy_payload
    ee542_lab2_fast_reliable.Protocol.Header.copy_to
    ee542_lab2_fast_reliable.Protocol.Header.is_null
    ee542_lab2_fast_reliable.Protocol.Header.serialize_packet
    ee542_lab2_fast_reliable.Protocol.Header.serialize_packet_header
    ee542_lab2_fast_reliable.Protocol.Header.write_header
    ee542_lab2_fast_reliable.Protocol.Payloads.serialize_ack
    ee542_lab2_fast_reliable.Protocol.Payloads.serialize_complete_ack
    ee542_lab2_fast_reliable.Protocol.Payloads.serialize_start_ack
    ee542_lab2_fast_reliable.Protocol.Payloads.write_ack
    ee542_lab2_fast_reliable.Reliability.Bitmap.set_bitmap_bit
    ee542_lab2_fast_reliable.Reliability.Receiver.make_ack_snapshot
    ee542_lab2_fast_reliable.Reliability.Receiver.snapshot_bits
    ee542_lab2_fast_reliable.Reliability.Receiver.snapshot_round
    ee542_lab2_fast_reliable.Reliability.Receiver.store_received set_bit Common.advance
    Common.for_range inc32 Common.inc64
finishes = refl

of_source : IsTransferOf transfer source
unfolding chunk_count
of_source = (refl, omega arith, refl)

second_chunk :
    (i : ℕ)
    → i < 1
    → Common.get_or (30 ∷ []) i 0 ≡ Common.get_or source (offset_of transfer 1 + i) 0
unfolding ee542_lab2_fast_reliable.Chunks.chunk_offset
second_chunk zero h = refl
second_chunk (suc i) h = absurd (omega arith)

first_chunk :
    (i : ℕ)
    → i < 2
    → Common.get_or (10 ∷ 20 ∷ []) i 0 ≡ Common.get_or source (offset_of transfer 0 + i) 0
unfolding ee542_lab2_fast_reliable.Chunks.chunk_offset
first_chunk zero h = refl
first_chunk (suc zero) h = refl
first_chunk (suc (suc i)) h = absurd (omega arith)

faithful : Common.All (IsFaithful transfer source) events
faithful = (
  (omega arith, λ ours type number size i h. second_chunk i h),
  (
    (omega arith, λ ours type number size i h. first_chunk i h),
    ((omega arith, λ ours type number size i h. absurd (omega arith)), tt),
  ),
)

serve_lem_example :
    ((session_of result).output ≡ source)
    × ((answer_of result).received_bytes ≡ 3)
    × ((answer_of result).received_chunks ≡ 2)
serve_lem_example =
    serve_lem transfer source of_source 0 events (session_of result) (answer_of result)
      (sent_of result) faithful finishes

abbrev large : StartPayload
large = record {
  file_size = 1_000_000_000_000_000;
  chunk_size = 1448;
  total_chunks = 7;
  window_chunks = 4;
  ack_bitmap_bits = 8192;
  ack_interval_ms = 10;
}

validate_start_cases_example :
    ((valid : Bool) × (validate_start 1500 large ≡ ok valid)
      × ((1448 + 52 ≢ 1500) ⊎ (1_000_000_000_000_000 ≤ (2 ^ 32 - 1) * 1448)))
    ⊎ ((validate_start 1500 large ≡ err too_many_chunks)
        × (1448 + 52 ≡ 1500)
        × ((2 ^ 32 - 1) * 1448 < 1_000_000_000_000_000))
validate_start_cases_example = validate_start_cases 1500 large (omega arith) (omega arith)

abbrev start_packet : PacketView
start_packet = packet_of start 0 (
    0 ∷ 0 ∷ 0 ∷ 0 ∷ 0 ∷ 0 ∷ 0 ∷ 3 ∷ 0 ∷ 0 ∷ 0 ∷ 2 ∷ 0 ∷ 0 ∷ 0 ∷ 2 ∷ 0 ∷ 0 ∷ 0 ∷ 4 ∷ 32 ∷ 0 ∷ 0 ∷ 10
    ∷ [])

abbrev accepted_transfer : Transfer
accepted_transfer = record {
  client = client;
  session_id = 5;
  start = record {
    file_size = 3;
    chunk_size = 2;
    total_chunks = 2;
    window_chunks = 4;
    ack_bitmap_bits = 8192;
    ack_interval_ms = 10;
  };
  accepted = record {
    status = ok_status;
    accepted_window_chunks = 4;
    accepted_bitmap_bits = 8192;
    accepted_ack_interval_ms = 10;
  };
}

start_accepted : receive_start 54 start_packet client ≡ ok (accepts accepted_transfer)
unfolding receive_start ee542_lab2_fast_reliable.Server.Start.answer_request
    ee542_lab2_fast_reliable.Server.Start.start_request deserialize_start validate_start
    ee542_lab2_fast_reliable.Protocol.Sizes.chunk_size_for_mtu
    ee542_lab2_fast_reliable.Protocol.Payloads.read_start
    ee542_lab2_fast_reliable.Protocol.Bytes.read_u32 chunk_count
    ee542_lab2_fast_reliable.Protocol.Bytes.read_u64
    ee542_lab2_fast_reliable.Protocol.Bytes.read_u16
    ee542_lab2_fast_reliable.Server.Start.accepted_payload
start_accepted = refl

receive_start_accepts_example : IsAccepted 54 start_packet client accepted_transfer
receive_start_accepts_example =
    (receive_start_accepts 54 start_packet client accepted_transfer).0 start_accepted

chunk_count_throws_example :
    ((count : ℕ) × (chunk_count 1_000_000_000_000_000 1448 ≡ ok count)
      × (1_000_000_000_000_000 ≤ (2 ^ 32 - 1) * 1448))
    ⊎ ((chunk_count 1_000_000_000_000_000 1448 ≡ err too_many_chunks)
        × ((2 ^ 32 - 1) * 1448 < 1_000_000_000_000_000))
chunk_count_throws_example = chunk_count_throws 1_000_000_000_000_000 1448 (omega arith)

abbrev first_result : Result Exception Outcome
first_result =
    handle_packet transfer (event_of (packet_of data_chunk 1 (30 ∷ []))) (new_session transfer 0)

first_waits : first_result ≡ ok (waiting (session_of first_result) [])
unfolding ee542_lab2_fast_reliable.Server.go_on handle_packet
    ee542_lab2_fast_reliable.Server.is_of_session ee542_lab2_fast_reliable.Net.same_endpoint
    ee542_lab2_fast_reliable.Server.handle_data ee542_lab2_fast_reliable.Server.expected_size
    ee542_lab2_fast_reliable.Server.answer_data ee542_lab2_fast_reliable.Server.should_send_ack
    ee542_lab2_fast_reliable.Server.expect_ack ee542_lab2_fast_reliable.Server.record_data
    ee542_lab2_fast_reliable.Server.ack_interval ee542_lab2_fast_reliable.Server.acknowledge
    ee542_lab2_fast_reliable.Server.completion ee542_lab2_fast_reliable.Server.copy_chunk
    ee542_lab2_fast_reliable.Server.finish ee542_lab2_fast_reliable.Server.handle_complete
    ee542_lab2_fast_reliable.Server.handle_start ee542_lab2_fast_reliable.Server.handle_type
    ee542_lab2_fast_reliable.Server.receiver_time_us ee542_lab2_fast_reliable.Server.reply
    ee542_lab2_fast_reliable.Server.send_ack ee542_lab2_fast_reliable.Server.send_complete_ack
    ee542_lab2_fast_reliable.Net.send_packet ee542_lab2_fast_reliable.Server.send_start_ack
    ee542_lab2_fast_reliable.Server.store_chunk ee542_lab2_fast_reliable.Server.with_sent
    new_session make_header ee542_lab2_fast_reliable.Chunks.chunk_length
    ee542_lab2_fast_reliable.Chunks.chunk_offset
    ee542_lab2_fast_reliable.Reliability.Receiver.has_received
    ee542_lab2_fast_reliable.Reliability.Receiver.is_received
    ee542_lab2_fast_reliable.Reliability.Receiver.new_receiver
    ee542_lab2_fast_reliable.Reliability.Receiver.complete
    ee542_lab2_fast_reliable.Reliability.Receiver.mark_received
    ee542_lab2_fast_reliable.Protocol.Bytes.write_loop
    ee542_lab2_fast_reliable.Protocol.Bytes.write_u16
    ee542_lab2_fast_reliable.Protocol.Bytes.write_u32
    ee542_lab2_fast_reliable.Protocol.Bytes.write_u64
    ee542_lab2_fast_reliable.Protocol.Header.copy_payload
    ee542_lab2_fast_reliable.Protocol.Header.copy_to
    ee542_lab2_fast_reliable.Protocol.Header.is_null
    ee542_lab2_fast_reliable.Protocol.Header.serialize_packet
    ee542_lab2_fast_reliable.Protocol.Header.serialize_packet_header
    ee542_lab2_fast_reliable.Protocol.Header.write_header
    ee542_lab2_fast_reliable.Protocol.Payloads.serialize_ack
    ee542_lab2_fast_reliable.Protocol.Payloads.serialize_complete_ack
    ee542_lab2_fast_reliable.Protocol.Payloads.serialize_start_ack
    ee542_lab2_fast_reliable.Protocol.Payloads.write_ack
    ee542_lab2_fast_reliable.Reliability.Bitmap.set_bitmap_bit
    ee542_lab2_fast_reliable.Reliability.Receiver.make_ack_snapshot
    ee542_lab2_fast_reliable.Reliability.Receiver.snapshot_bits
    ee542_lab2_fast_reliable.Reliability.Receiver.snapshot_round
    ee542_lab2_fast_reliable.Reliability.Receiver.store_received set_bit Common.advance
    Common.for_range inc32 Common.inc64
first_waits = refl

new_session-IsBatched : IsBatched (new_session transfer 0)
unfolding new_session
new_session-IsBatched = (omega arith, (λ p. cc, λ p. absurd (omega arith)))

handle_packet-IsBatched_example : IsBatched (session_of first_result)
handle_packet-IsBatched_example =
    handle_packet-IsBatched transfer (event_of (packet_of data_chunk 1 (30 ∷ [])))
      (new_session transfer 0) (session_of first_result) [] new_session-IsBatched first_waits
