-- ===== src/Examples/Transfer.antt =====
-- A file of one byte, sent by the functions of src/client.cpp to those of src/server.cpp: the run.
use ee542_lab2_fast_reliable.Common.{
  ℕ, ◌≡◌, refl, List, [], ◌∷◌, ◌++◌, Option, none, some, Bool, true, false, arith, Result, ok, err,
  Exception, length, ltb, ◌&&◌, not, ◌==◌, All, IsByte,
}
use mathlib.Core.List.{Memᴰ}
use ee542_lab2_fast_reliable.Net.{Endpoint, Datagram, make_header, same_endpoint, send_packet}
use ee542_lab2_fast_reliable.Protocol.Types.{ok_status, start, PacketView}
use ee542_lab2_fast_reliable.Reliability.Sender.Window.{acked_at, in_flight_at}
use ee542_lab2_fast_reliable.Reliability.State.{SenderWindow, fresh_window, chunk_at}
use ee542_lab2_fast_reliable.Client.Diagnostics.{no_diagnostics}
use ee542_lab2_fast_reliable.Protocol.Header.{deserialize_packet_view}
use ee542_lab2_fast_reliable.Reliability.Sender.{all_acked}
use ee542_lab2_fast_reliable.Reliability.Receiver
use ee542_lab2_fast_reliable.Client.Receiving.{expected_packet, would_block, datagram}
use ee542_lab2_fast_reliable.Client.Sending.{Connection, Progress, Pass, pass_once}
use ee542_lab2_fast_reliable.Client.Sending.Keeps.{Gets}
use ee542_lab2_fast_reliable.Client.Control.{
  Run, Attempt, begin_transfer, accept_complete, check_completed,
}
use ee542_lab2_fast_reliable.Server.{
  completion, Transfer, Session, Received, Outcome, waiting, finished, new_session, handle_packet,
}
use ee542_lab2_fast_reliable.Protocol.Sizes.{chunk_count}
use ee542_lab2_fast_reliable.System.{
  World, Arrives, bytes_of, Step, passes, serves, Reach, begins, later,
}
use ee542_lab2_fast_reliable.System.Upstream.{IsSameTransfer}
use ee542_lab2_fast_reliable.System.Delivery.{IsBeginning}

abbrev client : Endpoint
client = record { family = 2; port = 9000; address = 77 }

abbrev pub server : Endpoint
server = record { family = 2; port = 8000; address = 78 }

abbrev pub connection : Connection
connection = record {
  server = server;
  session_id = 5;
  input = 10 ∷ [];
  chunk_size = 2;
  total_chunks = 1;
  accepted_window_chunks = 4;
  accepted_bitmap_bits = 8192;
}

abbrev pub transfer : Transfer
transfer = record {
  client = client;
  session_id = 5;
  start = record {
    file_size = 1;
    chunk_size = 2;
    total_chunks = 1;
    window_chunks = 4;
    ack_bitmap_bits = 8192;
    ack_interval_ms = 10;
  };
  accepted = record {
    status = ok_status;
    accepted_window_chunks = 4;
    accepted_bitmap_bits = 8192;
    accepted_ack_interval_ms = 10;
  };
}

abbrev pub run : Run
run = record {
  session_id = 5;
  start_attempt = λ n. record { begin = 0; turns = [] };
  begin = 0;
  sample_begin = 0;
  passes = [];
  end = 0;
  complete_attempt = λ n. record { begin = 0; turns = [] };
}

abbrev pub no_progress : Progress
no_progress = record {
  window = fresh_window 0 1 1 0;
  sent_data_packets = 0;
  retransmitted_packets = 0;
  diagnostics = no_diagnostics;
  sent_first_data = false;
  first_data_time = 0;
  next_window_sample = 0;
}

abbrev pub quiet_pass : Pass
quiet_pass = record {
  drained = [];
  timeout_time = 0;
  sample_time = 0;
  idle_start = 0;
  wait_start = 0;
  turns = [];
  ack_time = 0;
  idle_end = 0;
  select_time = 0;
  pacer_start = 0;
  pacer_end = 0;
  send_time = 0;
  sent_time = 0;
  drained_after = [];
}

abbrev pub returns {ℓ} : {E : Type 0} {A : Type ℓ} → Result E A → Bool
returns (ok a) = true
returns (err e) = false

abbrev pub value_or {ℓ} : {E : Type 0} {A : Type ℓ} → A → Result E A → A
value_or a (ok b) = b
value_or a (err e) = a

pub ok-value {ℓ} :
    {E : Type 0} {A : Type ℓ} (a : A) (r : Result E A) → returns r ≡ true → r ≡ ok (value_or a r)
ok-value a (ok b) h = refl
ok-value a (err e) h = absurd (cc)

abbrev waits : Result Exception Outcome → Bool
waits (ok (waiting s sent)) = true
waits (ok (finished s completed sent)) = false
waits (err e) = false

abbrev session_or : Session → Result Exception Outcome → Session
session_or s (ok (waiting s' sent)) = s'
session_or s (ok (finished s' completed sent)) = s'
session_or s (err e) = s

abbrev answers : Result Exception Outcome → List Datagram
answers (ok (waiting s sent)) = sent
answers (ok (finished s completed sent)) = sent
answers (err e) = []

ok-waiting :
    (s : Session) (r : Result Exception Outcome)
    → waits r ≡ true
    → r ≡ ok (waiting (session_or s r) (answers r))
ok-waiting s (ok (waiting s' sent)) h = refl
ok-waiting s (ok (finished s' completed sent)) h = absurd (cc)
ok-waiting s (err e) h = absurd (cc)

abbrev all_bytes : List ℕ → Bool
all_bytes [] = true
all_bytes (b ∷ bytes) = ltb b 256 && all_bytes bytes

All-all_bytes : (bytes : List ℕ) → all_bytes bytes ≡ true → All IsByte bytes
All-all_bytes [] h = tt
All-all_bytes (b ∷ bytes) h = (ground arith, All-all_bytes bytes (ground arith))

abbrev first_of : List Datagram → List ℕ
first_of [] = []
first_of (d ∷ sent) = d.bytes

abbrev is_filled : List Datagram → Bool
is_filled [] = false
is_filled (d ∷ sent) = true

Memᴰ-first_of :
    (sent : List Datagram) (rest : List (List ℕ))
    → is_filled sent ≡ true
    → Memᴰ (first_of sent) (bytes_of sent ++ rest)
Memᴰ-first_of [] rest h = absurd (cc)
Memᴰ-first_of (d ∷ sent) rest h = Memᴰ.head refl

abbrev pub no_packet : PacketView
no_packet = record { header = make_header start 5 0; payload = []; payload_size = 0 }

abbrev pub event_of : List ℕ → Received
event_of bytes = record {
  packet = value_or no_packet (deserialize_packet_view (some bytes) (length bytes));
  source = client;
  arrival = 1;
  now = 1;
  flushed = true;
}

abbrev pub progress_0 : Progress
progress_0 = value_or no_progress (begin_transfer connection run)

-- The client sends the chunk, the server takes it and answers, and the client hears the answer.
abbrev pub pass_1 : Result Exception (Progress × List Datagram)
pass_1 = pass_once connection quiet_pass progress_0

abbrev pub sent_1 : Progress × List Datagram
sent_1 = value_or (progress_0, []) pass_1

abbrev session_0 : Session
session_0 = new_session transfer 0

abbrev serve_2 : Result Exception Outcome
serve_2 = handle_packet transfer (event_of (first_of sent_1.1)) session_0

abbrev ack_bytes : List ℕ
ack_bytes = first_of (answers serve_2)

abbrev pub hearing_pass : Pass
hearing_pass = record quiet_pass { drained = datagram server ack_bytes 2 ∷ would_block ∷ [] }

abbrev pass_3 : Result Exception (Progress × List Datagram)
pass_3 = pass_once connection hearing_pass sent_1.0

abbrev sent_3 : Progress × List Datagram
sent_3 = value_or (progress_0, []) pass_3

-- The window's one chunk has been sent at time 0.
abbrev pub in_flight : SenderWindow → Bool
in_flight w =
    not (all_acked w)
    && length w.chunks == 1
    && (chunk_at w 0).last_sent_time == 0
    && in_flight_at w 0

-- Every step succeeds, all bytes are bytes, and in the end the chunk is acknowledged.
succeeds :
    (returns (begin_transfer connection run)
      && returns pass_1
      && returns (deserialize_packet_view (some (first_of sent_1.1)) (length (first_of sent_1.1)))
      && waits serve_2
      && all_bytes (first_of sent_1.1)
      && returns pass_3
      && all_bytes ack_bytes
      && all_acked sent_3.0.window
      && is_filled sent_1.1
      && is_filled (answers serve_2)
      && acked_at sent_3.0.window 0
      && in_flight sent_1.0.window
      && not (all_acked progress_0.window))
    ≡ true
unfolding ee542_lab2_fast_reliable.Chunks.chunk_offset ee542_lab2_fast_reliable.Chunks.chunk_length
    ee542_lab2_fast_reliable.Client.Control.random_session_id
    ee542_lab2_fast_reliable.Client.Control.accept_start
    ee542_lab2_fast_reliable.Client.Control.accept_complete
    ee542_lab2_fast_reliable.Client.Control.accept_response
    ee542_lab2_fast_reliable.Client.Control.again
    ee542_lab2_fast_reliable.Client.Control.check_accepted
    ee542_lab2_fast_reliable.Client.Control.check_completed
    ee542_lab2_fast_reliable.Client.Control.start_transfer
    ee542_lab2_fast_reliable.Client.Control.connection_of
    ee542_lab2_fast_reliable.Client.Control.first_progress
    ee542_lab2_fast_reliable.Client.Control.begin_transfer
    ee542_lab2_fast_reliable.Client.Control.complete_transfer
    ee542_lab2_fast_reliable.Client.Control.report
    ee542_lab2_fast_reliable.Client.Control.finish_run
    ee542_lab2_fast_reliable.Client.Control.end_run
    ee542_lab2_fast_reliable.Client.Control.run_client
    ee542_lab2_fast_reliable.Client.Diagnostics.add
    ee542_lab2_fast_reliable.Client.Diagnostics.sample_round
    ee542_lab2_fast_reliable.Client.Diagnostics.count_sample
    ee542_lab2_fast_reliable.Client.Diagnostics.add64
    ee542_lab2_fast_reliable.Client.Diagnostics.sample
    ee542_lab2_fast_reliable.Client.Diagnostics.begin_no_send
    ee542_lab2_fast_reliable.Client.Diagnostics.end_no_send
    ee542_lab2_fast_reliable.Client.Diagnostics.count_idle
    ee542_lab2_fast_reliable.Client.Receiving.same_type
    ee542_lab2_fast_reliable.Client.Receiving.expected_packet
    ee542_lab2_fast_reliable.Client.Receiving.take_packet
    ee542_lab2_fast_reliable.Client.Receiving.take_ready
    ee542_lab2_fast_reliable.Client.Receiving.add_poll
    ee542_lab2_fast_reliable.Client.Receiving.end_turn
    ee542_lab2_fast_reliable.Client.Receiving.receive_expected
    ee542_lab2_fast_reliable.Client.Receiving.applied_ack
    ee542_lab2_fast_reliable.Client.Receiving.apply_ack
    ee542_lab2_fast_reliable.Client.Receiving.apply_ack_packet
    ee542_lab2_fast_reliable.Client.Receiving.apply_expected
    ee542_lab2_fast_reliable.Client.Receiving.drain_acks
    ee542_lab2_fast_reliable.Client.Receiving.end_wait
    ee542_lab2_fast_reliable.Client.Receiving.wait_for_ack
    ee542_lab2_fast_reliable.Client.Sending.send_data_packet
    ee542_lab2_fast_reliable.Client.Sending.payload_of
    ee542_lab2_fast_reliable.Client.Sending.pointer_of
    ee542_lab2_fast_reliable.Client.Sending.payload_size_of
    ee542_lab2_fast_reliable.Client.Sending.data_header
    ee542_lab2_fast_reliable.Client.Sending.send_chunk
    ee542_lab2_fast_reliable.Client.Sending.count_sent
    ee542_lab2_fast_reliable.Client.Sending.window_blocked
    ee542_lab2_fast_reliable.Client.Sending.end_idle ee542_lab2_fast_reliable.Client.Sending.idle
    ee542_lab2_fast_reliable.Client.Sending.take_slot
    ee542_lab2_fast_reliable.Client.Sending.transmit
    ee542_lab2_fast_reliable.Client.Sending.take_sample
    ee542_lab2_fast_reliable.Client.Sending.decide ee542_lab2_fast_reliable.Client.Sending.pass_once
    ee542_lab2_fast_reliable.Client.Sending.with_sent
    ee542_lab2_fast_reliable.Client.Sending.next_pass
    ee542_lab2_fast_reliable.Client.Sending.transfer ee542_lab2_fast_reliable.Common.Bits.has_bit
    ee542_lab2_fast_reliable.Common.Bits.set_bit ee542_lab2_fast_reliable.Common.Int.◌+ℤ◌
    ee542_lab2_fast_reliable.Common.for_range ee542_lab2_fast_reliable.Common.for_down
    ee542_lab2_fast_reliable.Common.advance ee542_lab2_fast_reliable.Common.inc32
    ee542_lab2_fast_reliable.Common.dec32 ee542_lab2_fast_reliable.Common.inc64
    ee542_lab2_fast_reliable.Net.same_endpoint ee542_lab2_fast_reliable.Net.make_header
    ee542_lab2_fast_reliable.Net.send_packet ee542_lab2_fast_reliable.Protocol.Bytes.write_loop
    ee542_lab2_fast_reliable.Protocol.Bytes.write_u16
    ee542_lab2_fast_reliable.Protocol.Bytes.write_u32
    ee542_lab2_fast_reliable.Protocol.Bytes.write_u64
    ee542_lab2_fast_reliable.Protocol.Bytes.read_loop
    ee542_lab2_fast_reliable.Protocol.Bytes.read_u16
    ee542_lab2_fast_reliable.Protocol.Bytes.read_u32
    ee542_lab2_fast_reliable.Protocol.Bytes.read_u64
    ee542_lab2_fast_reliable.Protocol.Header.valid_packet_type
    ee542_lab2_fast_reliable.Protocol.Header.write_header
    ee542_lab2_fast_reliable.Protocol.Header.serialize_packet_header
    ee542_lab2_fast_reliable.Protocol.Header.copy_to
    ee542_lab2_fast_reliable.Protocol.Header.copy_payload
    ee542_lab2_fast_reliable.Protocol.Header.is_null
    ee542_lab2_fast_reliable.Protocol.Header.serialize_packet
    ee542_lab2_fast_reliable.Protocol.Header.read_header
    ee542_lab2_fast_reliable.Protocol.Header.check_header
    ee542_lab2_fast_reliable.Protocol.Header.deserialize_packet_view
    ee542_lab2_fast_reliable.Protocol.Header.deserialize_packet
    ee542_lab2_fast_reliable.Protocol.Payloads.read_start
    ee542_lab2_fast_reliable.Protocol.Payloads.read_start_ack
    ee542_lab2_fast_reliable.Protocol.Payloads.write_ack
    ee542_lab2_fast_reliable.Protocol.Payloads.serialize_ack
    ee542_lab2_fast_reliable.Protocol.Payloads.read_ack
    ee542_lab2_fast_reliable.Protocol.Payloads.deserialize_ack
    ee542_lab2_fast_reliable.Protocol.Sizes.chunk_size_for_mtu
    ee542_lab2_fast_reliable.Protocol.Sizes.chunk_count
    ee542_lab2_fast_reliable.Reliability.Bitmap.bitmap_bit
    ee542_lab2_fast_reliable.Reliability.Bitmap.set_bitmap_bit
    ee542_lab2_fast_reliable.Reliability.Receiver.new_receiver
    ee542_lab2_fast_reliable.Reliability.Receiver.is_received
    ee542_lab2_fast_reliable.Reliability.Receiver.has_received
    ee542_lab2_fast_reliable.Reliability.Receiver.store_received
    ee542_lab2_fast_reliable.Reliability.Receiver.mark_received
    ee542_lab2_fast_reliable.Reliability.Receiver.complete
    ee542_lab2_fast_reliable.Reliability.Receiver.snapshot_bits
    ee542_lab2_fast_reliable.Reliability.Receiver.snapshot_round
    ee542_lab2_fast_reliable.Reliability.Receiver.make_ack_snapshot
    ee542_lab2_fast_reliable.Reliability.Sender.can_send_new
    ee542_lab2_fast_reliable.Reliability.Sender.store_selected
    ee542_lab2_fast_reliable.Reliability.Sender.select_retransmission
    ee542_lab2_fast_reliable.Reliability.Sender.select_new
    ee542_lab2_fast_reliable.Reliability.Sender.select_or_new
    ee542_lab2_fast_reliable.Reliability.Sender.select_next_packet
    ee542_lab2_fast_reliable.Reliability.Sender.mark_sent
    ee542_lab2_fast_reliable.Reliability.Sender.store_acked
    ee542_lab2_fast_reliable.Reliability.Sender.mark_acked
    ee542_lab2_fast_reliable.Reliability.Sender.store_queued
    ee542_lab2_fast_reliable.Reliability.Sender.queue_retransmission
    ee542_lab2_fast_reliable.Reliability.Sender.is_acked_at
    ee542_lab2_fast_reliable.Reliability.Sender.record_advance
    ee542_lab2_fast_reliable.Reliability.Sender.advance_base
    ee542_lab2_fast_reliable.Reliability.Sender.ack_prefix
    ee542_lab2_fast_reliable.Reliability.Sender.sack_round
    ee542_lab2_fast_reliable.Reliability.Sender.bits_to_scan
    ee542_lab2_fast_reliable.Reliability.Sender.ack_bitmap
    ee542_lab2_fast_reliable.Reliability.Sender.wants_fast_retransmit
    ee542_lab2_fast_reliable.Reliability.Sender.scan_in_flight
    ee542_lab2_fast_reliable.Reliability.Sender.scan_round
    ee542_lab2_fast_reliable.Reliability.Sender.scan_evidence
    ee542_lab2_fast_reliable.Reliability.Sender.process_ack
    ee542_lab2_fast_reliable.Reliability.Sender.timeout_round
    ee542_lab2_fast_reliable.Reliability.Sender.check_timeouts
    ee542_lab2_fast_reliable.Reliability.Sender.all_acked
    ee542_lab2_fast_reliable.Reliability.Sender.state
    ee542_lab2_fast_reliable.Reliability.Sender.retransmit_pending
    ee542_lab2_fast_reliable.Reliability.State.new_sender
    ee542_lab2_fast_reliable.Reliability.State.chunk_at
    ee542_lab2_fast_reliable.Reliability.State.put_chunk
    ee542_lab2_fast_reliable.Server.send_start_ack ee542_lab2_fast_reliable.Server.send_ack
    ee542_lab2_fast_reliable.Server.ack_interval ee542_lab2_fast_reliable.Server.new_session
    ee542_lab2_fast_reliable.Server.expected_size ee542_lab2_fast_reliable.Server.copy_chunk
    ee542_lab2_fast_reliable.Server.store_chunk ee542_lab2_fast_reliable.Server.record_data
    ee542_lab2_fast_reliable.Server.expect_ack ee542_lab2_fast_reliable.Server.should_send_ack
    ee542_lab2_fast_reliable.Server.acknowledge ee542_lab2_fast_reliable.Server.answer_data
    ee542_lab2_fast_reliable.Server.handle_data ee542_lab2_fast_reliable.Server.receiver_time_us
    ee542_lab2_fast_reliable.Server.completion ee542_lab2_fast_reliable.Server.finish
    ee542_lab2_fast_reliable.Server.handle_complete ee542_lab2_fast_reliable.Server.is_of_session
    ee542_lab2_fast_reliable.Server.reply ee542_lab2_fast_reliable.Server.handle_start
    ee542_lab2_fast_reliable.Server.handle_type ee542_lab2_fast_reliable.Server.handle_packet
    ee542_lab2_fast_reliable.Server.with_sent ee542_lab2_fast_reliable.Server.go_on
    ee542_lab2_fast_reliable.Server.serve ee542_lab2_fast_reliable.Server.TimeWait.late_answer
    ee542_lab2_fast_reliable.Server.TimeWait.late_reply
    ee542_lab2_fast_reliable.Server.TimeWait.answer_late
succeeds = refl

-- The tests that `succeeds` joins, one by one.
all_of :
    (a b c d e f g h i j k l m : Bool)
    → (a && b && c && d && e && f && g && h && i && j && k && l && m) ≡ true
    → (a ≡ true)
      × (b ≡ true)
      × (c ≡ true)
      × (d ≡ true)
      × (e ≡ true)
      × (f ≡ true)
      × (g ≡ true)
      × (h ≡ true)
      × (i ≡ true)
      × (j ≡ true)
      × (k ≡ true)
      × (l ≡ true)
      × (m ≡ true)
all_of a b c d e f g h i j k l m p = (
  ground arith,
  ground arith,
  ground arith,
  ground arith,
  ground arith,
  ground arith,
  ground arith,
  ground arith,
  ground arith,
  ground arith,
  ground arith,
  ground arith,
  ground arith,
)

pub both : (a b : Bool) → (a && b) ≡ true → (a ≡ true) × (b ≡ true)
both a b p = (ground arith, ground arith)

pub tests :
    (returns (begin_transfer connection run) ≡ true)
    × (returns pass_1 ≡ true)
    × (returns (deserialize_packet_view (some (first_of sent_1.1)) (length (first_of sent_1.1)))
        ≡ true)
    × (waits serve_2 ≡ true)
    × (all_bytes (first_of sent_1.1) ≡ true)
    × (returns pass_3 ≡ true)
    × (all_bytes ack_bytes ≡ true)
    × (all_acked sent_3.0.window ≡ true)
    × (is_filled sent_1.1 ≡ true)
    × (is_filled (answers serve_2) ≡ true)
    × (acked_at sent_3.0.window 0 ≡ true)
    × (in_flight sent_1.0.window ≡ true)
    × (not (all_acked progress_0.window) ≡ true)
tests = all_of _ _ _ _ _ _ _ _ _ _ _ _ _ succeeds

pub begins_well : begin_transfer connection run ≡ ok progress_0
begins_well = ok-value no_progress (begin_transfer connection run) (tests.0)

pub same : IsSameTransfer connection transfer
same = record {
  source = (refl, omega arith, unfold chunk_count in refl);
  chunks = refl;
  chunk_sizes = refl;
  datagrams = omega arith;
  sessions = refl;
  session_fits = omega arith;
  bits = omega arith;
}

abbrev pub world_0 : World
world_0 = record { progress = progress_0; session = session_0; upstream = []; downstream = [] }

pub beginning : IsBeginning connection transfer run world_0
beginning = record { begun = begins_well; opened = (0, refl); starts = tt; replies = tt }

abbrev world_1 : World
world_1 = record world_0 { progress = sent_1.0; upstream = bytes_of sent_1.1 ++ [] }

abbrev world_2 : World
world_2 = record world_1 {
  session = session_or session_0 serve_2;
  downstream = bytes_of (answers serve_2) ++ [];
}

abbrev pub world_3 : World
world_3 = record world_2 { progress = sent_3.0; upstream = bytes_of sent_3.1 ++ world_2.upstream }

sending-Step : Step connection transfer world_0 world_1
sending-Step =
    passes quiet_pass sent_1.0 sent_1.1 (record { before = tt; meanwhile = tt; behind = tt })
      (ok-value (progress_0, []) pass_1 (tests.1))

serving-Step : Step connection transfer world_1 world_2
serving-Step =
    serves client (first_of sent_1.1) (event_of (first_of sent_1.1)) (session_or session_0 serve_2)
      (answers serve_2)
      (record {
        are_bytes = All-all_bytes (first_of sent_1.1) (tests.4);
        was_sent = λ e. Memᴰ-first_of sent_1.1 [] (tests.8);
      })
      (ok-value no_packet _ (tests.2)) refl (ok-waiting session_0 serve_2 (tests.3))

heard : Gets (Arrives server world_2.downstream) hearing_pass
heard = record {
  before = (
    record {
      are_bytes = All-all_bytes ack_bytes (tests.6);
      was_sent = λ e. Memᴰ-first_of (answers serve_2) [] (tests.9);
    },
    (tt, tt),
  );
  meanwhile = tt;
  behind = tt;
}

hearing-Step : Step connection transfer world_2 world_3
hearing-Step =
    passes hearing_pass sent_3.0 sent_3.1 heard (ok-value (progress_0, []) pass_3 (tests.5))

pub reach : Reach connection transfer world_0 world_3
reach = later (later (later begins sending-Step) serving-Step) hearing-Step
