-- ===== src/Server.antt =====
-- The session of src/server.cpp: what `run_server` does with each datagram that it receives. What
-- the clock shows, where a datagram comes from and whether the file could be flushed are arguments.
pub mod Start
pub mod Storing
pub mod Stored
pub mod Cases
pub mod Safety
pub mod Batching
pub mod TimeWait
use ee542_lab2_fast_reliable.Common.{
  ℕ, suc, ◌+◌, ◌-◌, ◌*◌, ◌/◌, ◌%◌, ◌^◌, List, [], ◌∷◌, ◌++◌, Option, none, some, Bool, true, false,
  not, ◌&&◌, ◌||◌, min, max, ltb, leb, ◌==◌, if◌then◌else◌, Result, ok, err, ◌>>=◌, Exception,
  runtime_error, length, replicate, take, inc32, inc64, bit_and,
}
use ee542_lab2_fast_reliable.Net.{Endpoint, same_endpoint, make_header, Datagram, send_packet}
use ee542_lab2_fast_reliable.Protocol.Types.{
  PacketType, PacketHeader, PacketView, StartPayload, StartAckPayload, CompleteAckPayload,
  ok_status, busy, invalid_request, io_error, start, start_ack, data_chunk, ack, complete_ack,
  magic_number, protocol_version, header_size, default_ack_bitmap_bits, flag_retransmitted,
  flag_sack,
}
use ee542_lab2_fast_reliable.Protocol.Types
use ee542_lab2_fast_reliable.Protocol.Header.{serialize_packet, copy_to, deserialize_packet_view}
use ee542_lab2_fast_reliable.Protocol.Payloads.{
  serialize_start_ack, serialize_ack, serialize_complete_ack,
}
use ee542_lab2_fast_reliable.Protocol.Sizes.{chunk_size_for_mtu, chunk_count}
use ee542_lab2_fast_reliable.Chunks.{chunk_offset, chunk_length}
use ee542_lab2_fast_reliable.Reliability.Receiver.{
  ReceiverTracker, new_receiver, has_received, mark_received, make_ack_snapshot,
}
use ee542_lab2_fast_reliable.Reliability.Receiver

unfoldable pub send_start_ack : Endpoint → ℕ → StartAckPayload → Result Exception Datagram
send_start_ack client session_id response =
    send_packet client (make_header start_ack session_id 0) (serialize_start_ack response)

unfoldable pub send_ack : Endpoint → ℕ → ℕ → ReceiverTracker → ℕ → Result Exception Datagram
send_ack client session_id ack_number tracker bitmap_bits = do
  payload ← serialize_ack (make_ack_snapshot tracker bitmap_bits)
  send_packet client (record (make_header ack session_id ack_number) { flags = flag_sack }) payload

-- The locals of `run_server` that are set by the accepted START, and stay.
pub record Transfer : Type 0 where
  pub client : Endpoint
  pub session_id : ℕ
  pub start : StartPayload
  pub accepted : StartAckPayload

-- The locals that the loop changes, and the mapped file.
pub record Session : Type 0 where
  pub tracker : ReceiverTracker
  pub output : List ℕ
  pub ack_pending : Bool
  pub packets_since_ack : ℕ
  pub next_ack_time : ℕ
  pub ack_number : ℕ
  pub duplicate_packets : ℕ
  pub received_first_data : Bool
  pub first_data_time : ℕ
  pub last_data_time : ℕ

-- In nanoseconds.
unfoldable pub ack_interval : Transfer → ℕ
ack_interval t = max 1 t.accepted.accepted_ack_interval_ms * 1_000_000

-- The file is created with `ftruncate`, which fills it with zero bytes.
unfoldable pub new_session : Transfer → ℕ → Session
new_session t now = record {
  tracker = new_receiver t.start.total_chunks;
  output = replicate t.start.file_size 0;
  ack_pending = false;
  packets_since_ack = 0;
  next_ack_time = now + ack_interval t;
  ack_number = 0;
  duplicate_packets = 0;
  received_first_data = false;
  first_data_time = 0;
  last_data_time = 0;
}

-- A datagram that `receive_packet` returned, and what the clock and `msync` say meanwhile.
pub record Received : Type 0 where
  pub packet : PacketView
  pub source : Endpoint
  pub arrival : ℕ
  pub now : ℕ
  pub flushed : Bool

-- What the loop goes on with: the next datagram, or the end of the transfer.
pub data Outcome : Type 0 where
  waiting : Session → List Datagram → Outcome
  finished : Session → CompleteAckPayload → List Datagram → Outcome

unfoldable pub expected_size : Transfer → ℕ → ℕ
expected_size t sequence = chunk_length t.start.file_size t.start.chunk_size sequence

-- `memcpy(output->data() + offset, payload, size)`
unfoldable pub copy_chunk : Transfer → PacketView → List ℕ → List ℕ
copy_chunk t packet output =
    let size = expected_size t packet.header.number in
    if size == 0
    then output
    else copy_to (chunk_offset t.start.chunk_size packet.header.number) (take size packet.payload)
        output

-- A chunk that has not been received before.
unfoldable pub store_chunk : Transfer → PacketView → ℕ → Session → Session
unfolding copy_chunk
store_chunk t packet arrival s = record s {
  output = copy_chunk t packet s.output;
  tracker = (mark_received s.tracker packet.header.number).0;
  first_data_time = if s.received_first_data then s.first_data_time else arrival;
  received_first_data = true;
  last_data_time = arrival;
}

unfoldable pub record_data : Transfer → PacketView → ℕ → Session → Session
unfolding store_chunk
record_data t packet arrival s =
    if has_received s.tracker packet.header.number
    then record s { duplicate_packets = inc64 s.duplicate_packets }
    else store_chunk t packet arrival s

unfoldable pub expect_ack : Transfer → ℕ → Session → Session
expect_ack t now s = record s {
  packets_since_ack = inc32 s.packets_since_ack;
  ack_pending = true;
  next_ack_time = if s.ack_pending then s.next_ack_time else now + ack_interval t;
}

abbrev pub ack_packet_threshold : ℕ
ack_packet_threshold = 32

unfoldable pub should_send_ack : PacketView → Bool → ℕ → Session → Bool
should_send_ack packet duplicate now s =
    duplicate
    || not (bit_and packet.header.flags flag_retransmitted == 0)
    || Receiver.complete s.tracker
    || leb ack_packet_threshold s.packets_since_ack
    || leb s.next_ack_time now

-- An ACK of the tracker, under the next ACK number.
unfoldable pub acknowledge : Transfer → Session → Result Exception Outcome
acknowledge t s = do
  datagram ← send_ack t.client t.session_id s.ack_number s.tracker t.accepted.accepted_bitmap_bits
  ok (waiting (record s { ack_number = inc32 s.ack_number }) (datagram ∷ []))

-- The end of the DATA branch, on the session with the packet counted.
unfoldable pub answer_data : Transfer → PacketView → Bool → ℕ → Session → Result Exception Outcome
answer_data t packet duplicate now s =
    if should_send_ack packet duplicate now s
    then acknowledge t (record s { ack_pending = false; packets_since_ack = 0 })
    else ok (waiting s [])

unfoldable pub handle_data : Transfer → Received → Session → Result Exception Outcome
handle_data t event s =
    let packet = event.packet in
    let sequence = packet.header.number in
    if leb t.start.total_chunks sequence
    then ok (waiting s [])
    else if not (packet.payload_size == expected_size t sequence)
    then ok (waiting s [])
    else answer_data t packet (has_received s.tracker sequence) event.now
        (expect_ack t event.now (record_data t packet event.arrival s))

-- The clock does not go back, so that the difference is not negative.
unfoldable pub receiver_time_us : Session → ℕ
receiver_time_us s =
    if s.received_first_data then (s.last_data_time - s.first_data_time) / 1000 % 2 ^ 64 else 0

unfoldable pub completion : Transfer → Session → CompleteAckPayload
completion t s = record {
  status = ok_status;
  received_chunks = s.tracker.received_count;
  received_bytes = t.start.file_size;
  receiver_transfer_time_us = receiver_time_us s;
}

unfoldable pub send_complete_ack : Transfer → CompleteAckPayload → Result Exception Datagram
send_complete_ack t completed =
    send_packet t.client (make_header complete_ack t.session_id t.start.total_chunks)
      (serialize_complete_ack completed)

-- An empty file is not mapped, and not flushed.
unfoldable pub finish : Transfer → Bool → Session → Result Exception Outcome
finish t flushed s =
    if not flushed && not (t.start.file_size == 0)
    then err (runtime_error "cannot flush output file: ")
    else do
      datagram ← send_complete_ack t (completion t s)
      ok (finished s (completion t s) (datagram ∷ []))

unfoldable pub handle_complete : Transfer → Received → Session → Result Exception Outcome
handle_complete t event s =
    let packet = event.packet in
    if not (packet.header.number == t.start.total_chunks) || not (packet.payload_size == 0)
    then ok (waiting s [])
    else if not (Receiver.complete s.tracker)
        || not (s.tracker.cumulative_ack == t.start.total_chunks)
    then acknowledge t s
    else finish t event.flushed s

unfoldable pub is_of_session : Transfer → Received → Bool
is_of_session t event =
    same_endpoint event.source t.client && (event.packet.header.session_id == t.session_id)

unfoldable pub reply : Session → Result Exception Datagram → Result Exception Outcome
reply s sent = do datagram ← sent; ok (waiting s (datagram ∷ []))

-- Another START: of the same session the answer again, of any other `BUSY`.
unfoldable pub handle_start : Transfer → Received → Session → Result Exception Outcome
handle_start t event s =
    let busy_answer : StartAckPayload = record {
      status = busy;
      accepted_window_chunks = 0;
      accepted_bitmap_bits = 0;
      accepted_ack_interval_ms = 0;
    } in
    if is_of_session t event
    then reply s (send_start_ack t.client t.session_id t.accepted)
    else reply s (send_start_ack event.source event.packet.header.session_id busy_answer)

-- The tests of the loop on the packet's type.
unfoldable pub handle_type : PacketType → Transfer → Received → Session → Result Exception Outcome
handle_type start t event s = handle_start t event s
handle_type data_chunk t event s =
    if is_of_session t event then handle_data t event s else ok (waiting s [])
handle_type Types.complete t event s =
    if is_of_session t event then handle_complete t event s else ok (waiting s [])
handle_type start_ack t event s = ok (waiting s [])
handle_type ack t event s = ok (waiting s [])
handle_type complete_ack t event s = ok (waiting s [])
handle_type Types.error t event s = ok (waiting s [])

-- The body of the loop.
unfoldable pub handle_packet : Transfer → Received → Session → Result Exception Outcome
unfolding handle_type
handle_packet t event s = handle_type event.packet.header.type t event s

-- What has been sent, in front of what the later datagrams bring.
unfoldable pub with_sent : List Datagram → Result Exception Outcome → Result Exception Outcome
with_sent sent (ok (waiting s later)) = ok (waiting s (sent ++ later))
with_sent sent (ok (finished s completed later)) = ok (finished s completed (sent ++ later))
with_sent sent (err e) = err e

-- `continue`, `return` or the exception.
unfoldable pub go_on :
    Result Exception Outcome → (Session → Result Exception Outcome) → Result Exception Outcome
unfolding with_sent
go_on (ok (waiting s sent)) later = with_sent sent (later s)
go_on (ok (finished s completed sent)) later = ok (finished s completed sent)
go_on (err e) later = err e

-- The loop over the datagrams that arrive; it waits for more when the list ends.
unfoldable pub serve : Transfer → List Received → Session → Result Exception Outcome
serve t [] s = ok (waiting s [])
serve t (event ∷ events) s = go_on (handle_packet t event s) (λ s'. serve t events s')
