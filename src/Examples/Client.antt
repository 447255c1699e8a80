-- ===== src/Examples/Client.antt =====
-- Calls of the functions of src/client.cpp.
use ee542_lab2_fast_reliable.Common.{
  ℕ, zero, ◌≤◌, ◌<◌, ◌≡◌, ◌≢◌, ◌⊎◌, inl, inr, refl, List, [], ◌∷◌, ◌++◌, Option, none, some, Bool,
  true, false, ◌&&◌, min, arith, Result, ok, err, Exception, length, take, All,
}
use ee542_lab2_fast_reliable.Net.{Endpoint, Datagram, make_header, send_packet}
use ee542_lab2_fast_reliable.Net.Wire.{make_header-IsSendable, deserialize_packet_view-send_packet}
use ee542_lab2_fast_reliable.Protocol.Types.{
  ok_status, start_ack, complete_ack, data_chunk, StartPayload, CompleteAckPayload,
}
use ee542_lab2_fast_reliable.Protocol.Header.{deserialize_packet_view}
use ee542_lab2_fast_reliable.Protocol.Header.RoundTrip.{as_received}
use ee542_lab2_fast_reliable.Protocol.Payloads.{serialize_start_ack, serialize_complete_ack}
use ee542_lab2_fast_reliable.Protocol.Sizes.{chunk_count}
use ee542_lab2_fast_reliable.Reliability.State.{SenderWindow, fresh_window}
use ee542_lab2_fast_reliable.Reliability.Sender.{select_next_packet, check_timeouts, all_acked}
use ee542_lab2_fast_reliable.Reliability.Sender.Window.{acked_at}
use ee542_lab2_fast_reliable.Reliability.Sender.History.{IsLive, fresh_window-IsLive}
use ee542_lab2_fast_reliable.Client.Receiving.{drain_acks, Turn, received}
use ee542_lab2_fast_reliable.Client.Sending.{
  Connection, Progress, Pass, rto, pass_once, send_data_packet, Transferring, running, transfer,
}
use ee542_lab2_fast_reliable.Client.Sending.Gather.{send_data_packet-send_packet}
use ee542_lab2_fast_reliable.Client.Sending.Chunk.{IsConnection}
use ee542_lab2_fast_reliable.Client.Sending.Passing.{
  GoesWell, Succeeds, Transmits, IsReady, pass_once-Succeeds,
}
use ee542_lab2_fast_reliable.Client.Control.{
  Run, begin_transfer, Attempt, Ended, unfinished, reported, propose, handshake, accept_start,
  run_client,
}
use ee542_lab2_fast_reliable.Client.Control.Handshake.{handshake_attempts}
use ee542_lab2_fast_reliable.Client.Control.Proposal.{validate_start-propose}
use ee542_lab2_fast_reliable.Client.Control.Report.{run_client_reported}
use ee542_lab2_fast_reliable.Server.Start.{validate_start}
use ee542_lab2_fast_reliable.Examples.Transfer.{
  both, connection, server, value_or, ok-value, returns, quiet_pass, hearing_pass, no_progress,
}

abbrev starting : Progress
starting = record no_progress { window = fresh_window 1 4 8192 0; next_window_sample = 100_000_000 }

pub connection-IsConnection : IsConnection connection
connection-IsConnection = record {
  file = omega arith;
  counted = unfold chunk_count in refl;
  datagrams = omega arith;
  session_fits = omega arith;
}

pub quiet_pass-GoesWell : GoesWell quiet_pass
quiet_pass-GoesWell = record { before = tt; meanwhile = tt; behind = tt }

starting-IsLive : IsLive 1 4 8192 0 starting.window
starting-IsLive = fresh_window-IsLive 1 4 8192 0 (omega arith) (omega arith)

pass_once-Succeeds_example :
    (drained : SenderWindow) × (drain_acks server 5 [] starting.window ≡ ok drained)
    × IsReady connection 0 drained
    × Succeeds
        (Transmits connection 0 (select_next_packet (check_timeouts drained 0 rto)).0)
        (pass_once connection quiet_pass starting)
pass_once-Succeeds_example =
    pass_once-Succeeds connection connection-IsConnection 0 quiet_pass starting quiet_pass-GoesWell
      (starting-IsLive, λ j h. absurd (omega arith))

abbrev silent_attempt : ℕ → Attempt
silent_attempt n = record { begin = 0; turns = [] }

abbrev request : Datagram
request = record { destination = server; bytes = 1 ∷ [] }

handshake_attempts_example :
    let r = handshake server start_ack 5 accept_start request 2 silent_attempt in
    All (λ d. d ≡ request) r.sent
    × (length r.sent ≤ 2)
    × (min 1 2 ≤ length r.sent)
    × ((length r.sent ≡ 2) ⊎ (r.result ≢ ok none))
handshake_attempts_example =
    handshake_attempts server start_ack 5 accept_start request 2 silent_attempt

abbrev proposal : StartPayload
proposal = record {
  file_size = 3000;
  chunk_size = 1448;
  total_chunks = 3;
  window_chunks = 5794;
  ack_bitmap_bits = 8192;
  ack_interval_ms = 10;
}

proposed : propose 1500 3000 ≡ ok proposal
unfolding propose chunk_count ee542_lab2_fast_reliable.Protocol.Sizes.chunk_size_for_mtu
    ee542_lab2_fast_reliable.Client.Control.window_chunks_for
proposed = refl

validate_start-propose_example : validate_start 1500 proposal ≡ ok true
validate_start-propose_example = validate_start-propose 1500 3000 proposal proposed

send_data_packet-send_packet_example :
    send_data_packet server (make_header data_chunk 5 0) (some (10 ∷ 20 ∷ 30 ∷ [])) 2
    ≡ send_packet server (make_header data_chunk 5 0) (take 2 (10 ∷ 20 ∷ 30 ∷ []))
send_data_packet-send_packet_example =
    send_data_packet-send_packet server (make_header data_chunk 5 0) (10 ∷ 20 ∷ 30 ∷ []) 2
      (omega arith)

abbrev data_datagram : Datagram
data_datagram = value_or request (send_packet server (make_header data_chunk 5 0) (10 ∷ 20 ∷ []))

-- The answers that the server gives at the two ends of a transfer of one byte.
abbrev start_answer : Datagram
start_answer = value_or request (
    send_packet server (make_header start_ack 5 0) (
      serialize_start_ack (record {
        status = ok_status;
        accepted_window_chunks = 5794;
        accepted_bitmap_bits = 8192;
        accepted_ack_interval_ms = 10;
      })))

abbrev complete_answer : Datagram
complete_answer = value_or request (
    send_packet server (make_header complete_ack 5 1) (
      serialize_complete_ack (record {
        status = ok_status;
        received_chunks = 1;
        received_bytes = 1;
        receiver_transfer_time_us = 0;
      })))

abbrev attempt_with : Datagram → ℕ → Attempt
attempt_with d n = record {
  begin = 0;
  turns = record { now = 0; poll_start = 0; poll_end = 0; ready = received server d.bytes } ∷ [];
}

abbrev whole_run : Run
whole_run = record {
  session_id = 5;
  start_attempt = attempt_with start_answer;
  begin = 0;
  sample_begin = 0;
  passes = quiet_pass ∷ hearing_pass ∷ [];
  end = 0;
  complete_attempt = attempt_with complete_answer;
}

abbrev reports : Result Exception Ended → Bool
reports (ok (reported p completed)) = true
reports (ok (unfinished p)) = false
reports (err e) = false

abbrev progress_of : Result Exception Ended → Progress
progress_of (ok (reported p completed)) = p
progress_of (ok (unfinished p)) = p
progress_of (err e) = starting

abbrev nothing_completed : CompleteAckPayload
nothing_completed = record {
  status = ok_status;
  received_chunks = 0;
  received_bytes = 0;
  receiver_transfer_time_us = 0;
}

abbrev completed_of : Result Exception Ended → CompleteAckPayload
completed_of (ok (reported p completed)) = completed
completed_of (ok (unfinished p)) = nothing_completed
completed_of (err e) = nothing_completed

ok-reported :
    (r : Result Exception Ended)
    → reports r ≡ true
    → r ≡ ok (reported (progress_of r) (completed_of r))
ok-reported (ok (reported p completed)) h = refl
ok-reported (ok (unfinished p)) h = absurd (cc)
ok-reported (err e) h = absurd (cc)

abbrev result : Result Exception Ended
result = run_client 1500 server (10 ∷ []) whole_run

runs_well :
    (returns (send_packet server (make_header data_chunk 5 0) (10 ∷ 20 ∷ [])) && reports result)
    ≡ true
unfolding ee542_lab2_fast_reliable.Chunks.chunk_offset ee542_lab2_fast_reliable.Chunks.chunk_length
    ee542_lab2_fast_reliable.Client.Control.random_session_id
    ee542_lab2_fast_reliable.Client.Control.window_chunks_for
    ee542_lab2_fast_reliable.Client.Control.propose
    ee542_lab2_fast_reliable.Client.Control.accept_start
    ee542_lab2_fast_reliable.Client.Control.accept_complete
    ee542_lab2_fast_reliable.Client.Control.accept_response
    ee542_lab2_fast_reliable.Client.Control.again ee542_lab2_fast_reliable.Client.Control.handshake
    ee542_lab2_fast_reliable.Client.Control.check_accepted
    ee542_lab2_fast_reliable.Client.Control.check_completed
    ee542_lab2_fast_reliable.Client.Control.start_transfer
    ee542_lab2_fast_reliable.Client.Control.connection_of
    ee542_lab2_fast_reliable.Client.Control.first_progress
    ee542_lab2_fast_reliable.Client.Control.begin_transfer
    ee542_lab2_fast_reliable.Client.Control.complete_transfer
    ee542_lab2_fast_reliable.Client.Control.report
    ee542_lab2_fast_reliable.Client.Control.finish_run
    ee542_lab2_fast_reliable.Client.Control.end_run
    ee542_lab2_fast_reliable.Client.Control.run_client
    ee542_lab2_fast_reliable.Client.Diagnostics.add
    ee542_lab2_fast_reliable.Client.Diagnostics.sample_round
    ee542_lab2_fast_reliable.Client.Diagnostics.count_sample
    ee542_lab2_fast_reliable.Client.Diagnostics.add64
    ee542_lab2_fast_reliable.Client.Diagnostics.sample
    ee542_lab2_fast_reliable.Client.Diagnostics.begin_no_send
    ee542_lab2_fast_reliable.Client.Diagnostics.end_no_send
    ee542_lab2_fast_reliable.Client.Diagnostics.count_idle
    ee542_lab2_fast_reliable.Client.Receiving.same_type
    ee542_lab2_fast_reliable.Client.Receiving.expected_packet
    ee542_lab2_fast_reliable.Client.Receiving.take_packet
    ee542_lab2_fast_reliable.Client.Receiving.take_ready
    ee542_lab2_fast_reliable.Client.Receiving.add_poll
    ee542_lab2_fast_reliable.Client.Receiving.end_turn
    ee542_lab2_fast_reliable.Client.Receiving.receive_expected
    ee542_lab2_fast_reliable.Client.Receiving.applied_ack
    ee542_lab2_fast_reliable.Client.Receiving.apply_ack
    ee542_lab2_fast_reliable.Client.Receiving.apply_ack_packet
    ee542_lab2_fast_reliable.Client.Receiving.apply_expected
    ee542_lab2_fast_reliable.Client.Receiving.drain_acks
    ee542_lab2_fast_reliable.Client.Receiving.end_wait
    ee542_lab2_fast_reliable.Client.Receiving.wait_for_ack
    ee542_lab2_fast_reliable.Client.Sending.send_data_packet
    ee542_lab2_fast_reliable.Client.Sending.payload_of
    ee542_lab2_fast_reliable.Client.Sending.pointer_of
    ee542_lab2_fast_reliable.Client.Sending.payload_size_of
    ee542_lab2_fast_reliable.Client.Sending.data_header
    ee542_lab2_fast_reliable.Client.Sending.send_chunk
    ee542_lab2_fast_reliable.Client.Sending.count_sent
    ee542_lab2_fast_reliable.Client.Sending.window_blocked
    ee542_lab2_fast_reliable.Client.Sending.end_idle ee542_lab2_fast_reliable.Client.Sending.idle
    ee542_lab2_fast_reliable.Client.Sending.take_slot
    ee542_lab2_fast_reliable.Client.Sending.transmit
    ee542_lab2_fast_reliable.Client.Sending.take_sample
    ee542_lab2_fast_reliable.Client.Sending.decide ee542_lab2_fast_reliable.Client.Sending.pass_once
    ee542_lab2_fast_reliable.Client.Sending.with_sent
    ee542_lab2_fast_reliable.Client.Sending.next_pass
    ee542_lab2_fast_reliable.Client.Sending.transfer ee542_lab2_fast_reliable.Common.Bits.has_bit
    ee542_lab2_fast_reliable.Common.Bits.set_bit ee542_lab2_fast_reliable.Common.Int.◌+ℤ◌
    ee542_lab2_fast_reliable.Common.for_range ee542_lab2_fast_reliable.Common.for_down
    ee542_lab2_fast_reliable.Common.advance ee542_lab2_fast_reliable.Common.inc32
    ee542_lab2_fast_reliable.Common.dec32 ee542_lab2_fast_reliable.Common.inc64
    ee542_lab2_fast_reliable.Net.same_endpoint ee542_lab2_fast_reliable.Net.make_header
    ee542_lab2_fast_reliable.Net.send_packet ee542_lab2_fast_reliable.Protocol.Bytes.write_loop
    ee542_lab2_fast_reliable.Protocol.Bytes.write_u16
    ee542_lab2_fast_reliable.Protocol.Bytes.write_u32
    ee542_lab2_fast_reliable.Protocol.Bytes.write_u64
    ee542_lab2_fast_reliable.Protocol.Bytes.read_loop
    ee542_lab2_fast_reliable.Protocol.Bytes.read_u16
    ee542_lab2_fast_reliable.Protocol.Bytes.read_u32
    ee542_lab2_fast_reliable.Protocol.Bytes.read_u64
    ee542_lab2_fast_reliable.Protocol.Header.valid_packet_type
    ee542_lab2_fast_reliable.Protocol.Header.write_header
    ee542_lab2_fast_reliable.Protocol.Header.serialize_packet_header
    ee542_lab2_fast_reliable.Protocol.Header.copy_to
    ee542_lab2_fast_reliable.Protocol.Header.copy_payload
    ee542_lab2_fast_reliable.Protocol.Header.is_null
    ee542_lab2_fast_reliable.Protocol.Header.serialize_packet
    ee542_lab2_fast_reliable.Protocol.Header.read_header
    ee542_lab2_fast_reliable.Protocol.Header.check_header
    ee542_lab2_fast_reliable.Protocol.Header.deserialize_packet_view
    ee542_lab2_fast_reliable.Protocol.Header.deserialize_packet
    ee542_lab2_fast_reliable.Protocol.Payloads.serialize_start
    ee542_lab2_fast_reliable.Protocol.Payloads.read_start
    ee542_lab2_fast_reliable.Protocol.Payloads.deserialize_start
    ee542_lab2_fast_reliable.Protocol.Payloads.serialize_start_ack
    ee542_lab2_fast_reliable.Protocol.Payloads.read_start_ack
    ee542_lab2_fast_reliable.Protocol.Payloads.deserialize_start_ack
    ee542_lab2_fast_reliable.Protocol.Payloads.write_ack
    ee542_lab2_fast_reliable.Protocol.Payloads.serialize_ack
    ee542_lab2_fast_reliable.Protocol.Payloads.read_ack
    ee542_lab2_fast_reliable.Protocol.Payloads.deserialize_ack
    ee542_lab2_fast_reliable.Protocol.Payloads.serialize_complete_ack
    ee542_lab2_fast_reliable.Protocol.Payloads.read_complete_ack
    ee542_lab2_fast_reliable.Protocol.Payloads.deserialize_complete_ack
    ee542_lab2_fast_reliable.Protocol.Sizes.chunk_size_for_mtu
    ee542_lab2_fast_reliable.Protocol.Sizes.chunk_count
    ee542_lab2_fast_reliable.Reliability.Bitmap.bitmap_bit
    ee542_lab2_fast_reliable.Reliability.Bitmap.set_bitmap_bit
    ee542_lab2_fast_reliable.Reliability.Receiver.new_receiver
    ee542_lab2_fast_reliable.Reliability.Receiver.is_received
    ee542_lab2_fast_reliable.Reliability.Receiver.has_received
    ee542_lab2_fast_reliable.Reliability.Receiver.store_received
    ee542_lab2_fast_reliable.Reliability.Receiver.mark_received
    ee542_lab2_fast_reliable.Reliability.Receiver.complete
    ee542_lab2_fast_reliable.Reliability.Receiver.snapshot_bits
    ee542_lab2_fast_reliable.Reliability.Receiver.snapshot_round
    ee542_lab2_fast_reliable.Reliability.Receiver.make_ack_snapshot
    ee542_lab2_fast_reliable.Reliability.Sender.can_send_new
    ee542_lab2_fast_reliable.Reliability.Sender.store_selected
    ee542_lab2_fast_reliable.Reliability.Sender.select_retransmission
    ee542_lab2_fast_reliable.Reliability.Sender.select_new
    ee542_lab2_fast_reliable.Reliability.Sender.select_or_new
    ee542_lab2_fast_reliable.Reliability.Sender.select_next_packet
    ee542_lab2_fast_reliable.Reliability.Sender.mark_sent
    ee542_lab2_fast_reliable.Reliability.Sender.store_acked
    ee542_lab2_fast_reliable.Reliability.Sender.mark_acked
    ee542_lab2_fast_reliable.Reliability.Sender.store_queued
    ee542_lab2_fast_reliable.Reliability.Sender.queue_retransmission
    ee542_lab2_fast_reliable.Reliability.Sender.is_acked_at
    ee542_lab2_fast_reliable.Reliability.Sender.record_advance
    ee542_lab2_fast_reliable.Reliability.Sender.advance_base
    ee542_lab2_fast_reliable.Reliability.Sender.ack_prefix
    ee542_lab2_fast_reliable.Reliability.Sender.sack_round
    ee542_lab2_fast_reliable.Reliability.Sender.bits_to_scan
    ee542_lab2_fast_reliable.Reliability.Sender.ack_bitmap
    ee542_lab2_fast_reliable.Reliability.Sender.wants_fast_retransmit
    ee542_lab2_fast_reliable.Reliability.Sender.scan_in_flight
    ee542_lab2_fast_reliable.Reliability.Sender.scan_round
    ee542_lab2_fast_reliable.Reliability.Sender.scan_evidence
    ee542_lab2_fast_reliable.Reliability.Sender.process_ack
    ee542_lab2_fast_reliable.Reliability.Sender.timeout_round
    ee542_lab2_fast_reliable.Reliability.Sender.check_timeouts
    ee542_lab2_fast_reliable.Reliability.Sender.all_acked
    ee542_lab2_fast_reliable.Reliability.Sender.state
    ee542_lab2_fast_reliable.Reliability.Sender.retransmit_pending
    ee542_lab2_fast_reliable.Reliability.State.new_sender
    ee542_lab2_fast_reliable.Reliability.State.chunk_at
    ee542_lab2_fast_reliable.Reliability.State.put_chunk
    ee542_lab2_fast_reliable.Server.send_start_ack ee542_lab2_fast_reliable.Server.send_ack
    ee542_lab2_fast_reliable.Server.ack_interval ee542_lab2_fast_reliable.Server.new_session
    ee542_lab2_fast_reliable.Server.expected_size ee542_lab2_fast_reliable.Server.copy_chunk
    ee542_lab2_fast_reliable.Server.store_chunk ee542_lab2_fast_reliable.Server.record_data
    ee542_lab2_fast_reliable.Server.expect_ack ee542_lab2_fast_reliable.Server.should_send_ack
    ee542_lab2_fast_reliable.Server.acknowledge ee542_lab2_fast_reliable.Server.answer_data
    ee542_lab2_fast_reliable.Server.handle_data ee542_lab2_fast_reliable.Server.receiver_time_us
    ee542_lab2_fast_reliable.Server.completion ee542_lab2_fast_reliable.Server.send_complete_ack
    ee542_lab2_fast_reliable.Server.finish ee542_lab2_fast_reliable.Server.handle_complete
    ee542_lab2_fast_reliable.Server.is_of_session ee542_lab2_fast_reliable.Server.reply
    ee542_lab2_fast_reliable.Server.handle_start ee542_lab2_fast_reliable.Server.handle_type
    ee542_lab2_fast_reliable.Server.handle_packet ee542_lab2_fast_reliable.Server.with_sent
    ee542_lab2_fast_reliable.Server.go_on ee542_lab2_fast_reliable.Server.serve
runs_well = refl

run_client_reported_example :
    (payload : StartPayload) × (propose 1500 1 ≡ ok payload)
    × ((j : ℕ) → j < payload.total_chunks → acked_at (progress_of result).window j ≡ true)
    × ((completed_of result).received_chunks ≡ payload.total_chunks)
    × ((completed_of result).received_bytes ≡ 1)
run_client_reported_example =
    run_client_reported 1500 server (10 ∷ []) whole_run (progress_of result) (completed_of result)
      (ok-reported result ((both _ _ runs_well).1))

deserialize_packet_view-send_packet_example :
    (data_datagram.destination ≡ server)
    × (deserialize_packet_view (some data_datagram.bytes) (length data_datagram.bytes)
        ≡ ok (record {
          header = as_received (make_header data_chunk 5 0) 2;
          payload = 10 ∷ 20 ∷ [];
          payload_size = 2;
        }))
deserialize_packet_view-send_packet_example =
    deserialize_packet_view-send_packet server (make_header data_chunk 5 0) (10 ∷ 20 ∷ [])
      data_datagram (make_header-IsSendable data_chunk 5 0 (omega arith) (omega arith))
      (omega arith)
      (ok-value request (send_packet server (make_header data_chunk 5 0) (10 ∷ 20 ∷ []))
        ((both _ _ runs_well).0))
