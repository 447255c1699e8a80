-- ===== src/Examples/System.antt =====
-- A file of one byte, sent by the functions of src/client.cpp to those of src/server.cpp: its end.
use ee542_lab2_fast_reliable.Common.{
  ℕ, ◌≡◌, refl, List, [], ◌∷◌, ◌++◌, Option, none, some, Bool, true, false, arith, Result, ok, err,
  Exception, length, ltb, ◌&&◌, All, IsByte,
}
use ee542_lab2_fast_reliable.Net.{Endpoint, Datagram, make_header, same_endpoint, send_packet}
use ee542_lab2_fast_reliable.Protocol.Types.{PacketType, complete_ack, PacketView}
use ee542_lab2_fast_reliable.Reliability.State.{fresh_window}
use ee542_lab2_fast_reliable.Client.Diagnostics.{no_diagnostics}
use ee542_lab2_fast_reliable.Protocol.Header.{deserialize_packet_view}
use ee542_lab2_fast_reliable.Reliability.Sender.{all_acked}
use ee542_lab2_fast_reliable.Reliability.Receiver
use ee542_lab2_fast_reliable.Client.Receiving.{expected_packet, would_block, datagram}
use ee542_lab2_fast_reliable.Client.Sending.{Connection, Progress, Pass, pass_once}
use ee542_lab2_fast_reliable.Client.Control.{
  Run, Attempt, begin_transfer, accept_complete, check_completed,
}
use ee542_lab2_fast_reliable.Server.{
  completion, Transfer, Session, Received, Outcome, waiting, finished, new_session, handle_packet,
}
use ee542_lab2_fast_reliable.Protocol.Sizes.{chunk_count}
use ee542_lab2_fast_reliable.System.Delivery.{has_received-acked_at, all_acked-same_file}
use ee542_lab2_fast_reliable.System.Completion.{complete-reported}
use ee542_lab2_fast_reliable.Examples.Transfer.{
  returns, connection, transfer, same, run, world_0, world_3, beginning, reach, tests, value_or,
  ok-value, no_packet, event_of, server, both,
}

has_received-acked_at_example : Receiver.has_received world_3.session.tracker 0 ≡ true
has_received-acked_at_example =
    has_received-acked_at connection transfer same run world_0 world_3 0 beginning reach (tests.10)

all_acked-same_file_example :
    (Receiver.complete world_3.session.tracker ≡ true) × (world_3.session.output ≡ 10 ∷ [])
all_acked-same_file_example =
    all_acked-same_file connection transfer same run world_0 world_3 beginning reach (tests.7)

abbrev complete_datagram : Datagram
complete_datagram =
    value_or (record { destination = server; bytes = [] })
      (send_packet server (make_header PacketType.complete 5 1) [])

sent_well :
    (returns (send_packet server (make_header PacketType.complete 5 1) [])
      && returns
          (deserialize_packet_view (some complete_datagram.bytes) (length complete_datagram.bytes)))
    ≡ true
unfolding ee542_lab2_fast_reliable.Chunks.chunk_offset ee542_lab2_fast_reliable.Chunks.chunk_length
    ee542_lab2_fast_reliable.Client.Control.random_session_id
    ee542_lab2_fast_reliable.Client.Control.accept_start
    ee542_lab2_fast_reliable.Client.Control.accept_complete
    ee542_lab2_fast_reliable.Client.Control.accept_response
    ee542_lab2_fast_reliable.Client.Control.again
    ee542_lab2_fast_reliable.Client.Control.check_accepted
    ee542_lab2_fast_reliable.Client.Control.check_completed
    ee542_lab2_fast_reliable.Client.Control.start_transfer
    ee542_lab2_fast_reliable.Client.Control.connection_of
    ee542_lab2_fast_reliable.Client.Control.first_progress
    ee542_lab2_fast_reliable.Client.Control.begin_transfer
    ee542_lab2_fast_reliable.Client.Control.complete_transfer
    ee542_lab2_fast_reliable.Client.Control.report
    ee542_lab2_fast_reliable.Client.Control.finish_run
    ee542_lab2_fast_reliable.Client.Control.end_run
    ee542_lab2_fast_reliable.Client.Control.run_client
    ee542_lab2_fast_reliable.Client.Diagnostics.add
    ee542_lab2_fast_reliable.Client.Diagnostics.sample_round
    ee542_lab2_fast_reliable.Client.Diagnostics.count_sample
    ee542_lab2_fast_reliable.Client.Diagnostics.add64
    ee542_lab2_fast_reliable.Client.Diagnostics.sample
    ee542_lab2_fast_reliable.Client.Diagnostics.begin_no_send
    ee542_lab2_fast_reliable.Client.Diagnostics.end_no_send
    ee542_lab2_fast_reliable.Client.Diagnostics.count_idle
    ee542_lab2_fast_reliable.Client.Receiving.same_type
    ee542_lab2_fast_reliable.Client.Receiving.expected_packet
    ee542_lab2_fast_reliable.Client.Receiving.take_packet
    ee542_lab2_fast_reliable.Client.Receiving.take_ready
    ee542_lab2_fast_reliable.Client.Receiving.add_poll
    ee542_lab2_fast_reliable.Client.Receiving.end_turn
    ee542_lab2_fast_reliable.Client.Receiving.receive_expected
    ee542_lab2_fast_reliable.Client.Receiving.applied_ack
    ee542_lab2_fast_reliable.Client.Receiving.apply_ack
    ee542_lab2_fast_reliable.Client.Receiving.apply_ack_packet
    ee542_lab2_fast_reliable.Client.Receiving.apply_expected
    ee542_lab2_fast_reliable.Client.Receiving.drain_acks
    ee542_lab2_fast_reliable.Client.Receiving.end_wait
    ee542_lab2_fast_reliable.Client.Receiving.wait_for_ack
    ee542_lab2_fast_reliable.Client.Sending.send_data_packet
    ee542_lab2_fast_reliable.Client.Sending.payload_of
    ee542_lab2_fast_reliable.Client.Sending.pointer_of
    ee542_lab2_fast_reliable.Client.Sending.payload_size_of
    ee542_lab2_fast_reliable.Client.Sending.data_header
    ee542_lab2_fast_reliable.Client.Sending.send_chunk
    ee542_lab2_fast_reliable.Client.Sending.count_sent
    ee542_lab2_fast_reliable.Client.Sending.window_blocked
    ee542_lab2_fast_reliable.Client.Sending.end_idle ee542_lab2_fast_reliable.Client.Sending.idle
    ee542_lab2_fast_reliable.Client.Sending.take_slot
    ee542_lab2_fast_reliable.Client.Sending.transmit
    ee542_lab2_fast_reliable.Client.Sending.take_sample
    ee542_lab2_fast_reliable.Client.Sending.decide ee542_lab2_fast_reliable.Client.Sending.pass_once
    ee542_lab2_fast_reliable.Client.Sending.with_sent
    ee542_lab2_fast_reliable.Client.Sending.next_pass
    ee542_lab2_fast_reliable.Client.Sending.transfer ee542_lab2_fast_reliable.Common.Bits.has_bit
    ee542_lab2_fast_reliable.Common.Bits.set_bit ee542_lab2_fast_reliable.Common.Int.◌+ℤ◌
    ee542_lab2_fast_reliable.Common.for_range ee542_lab2_fast_reliable.Common.for_down
    ee542_lab2_fast_reliable.Common.advance ee542_lab2_fast_reliable.Common.inc32
    ee542_lab2_fast_reliable.Common.dec32 ee542_lab2_fast_reliable.Common.inc64
    ee542_lab2_fast_reliable.Net.same_endpoint ee542_lab2_fast_reliable.Net.make_header
    ee542_lab2_fast_reliable.Net.send_packet ee542_lab2_fast_reliable.Protocol.Bytes.write_loop
    ee542_lab2_fast_reliable.Protocol.Bytes.write_u16
    ee542_lab2_fast_reliable.Protocol.Bytes.write_u32
    ee542_lab2_fast_reliable.Protocol.Bytes.write_u64
    ee542_lab2_fast_reliable.Protocol.Bytes.read_loop
    ee542_lab2_fast_reliable.Protocol.Bytes.read_u16
    ee542_lab2_fast_reliable.Protocol.Bytes.read_u32
    ee542_lab2_fast_reliable.Protocol.Bytes.read_u64
    ee542_lab2_fast_reliable.Protocol.Header.valid_packet_type
    ee542_lab2_fast_reliable.Protocol.Header.write_header
    ee542_lab2_fast_reliable.Protocol.Header.serialize_packet_header
    ee542_lab2_fast_reliable.Protocol.Header.copy_to
    ee542_lab2_fast_reliable.Protocol.Header.copy_payload
    ee542_lab2_fast_reliable.Protocol.Header.is_null
    ee542_lab2_fast_reliable.Protocol.Header.serialize_packet
    ee542_lab2_fast_reliable.Protocol.Header.read_header
    ee542_lab2_fast_reliable.Protocol.Header.check_header
    ee542_lab2_fast_reliable.Protocol.Header.deserialize_packet_view
    ee542_lab2_fast_reliable.Protocol.Header.deserialize_packet
    ee542_lab2_fast_reliable.Protocol.Payloads.read_start
    ee542_lab2_fast_reliable.Protocol.Payloads.read_start_ack
    ee542_lab2_fast_reliable.Protocol.Payloads.write_ack
    ee542_lab2_fast_reliable.Protocol.Payloads.serialize_ack
    ee542_lab2_fast_reliable.Protocol.Payloads.read_ack
    ee542_lab2_fast_reliable.Protocol.Payloads.deserialize_ack
    ee542_lab2_fast_reliable.Protocol.Sizes.chunk_size_for_mtu
    ee542_lab2_fast_reliable.Protocol.Sizes.chunk_count
    ee542_lab2_fast_reliable.Reliability.Bitmap.bitmap_bit
    ee542_lab2_fast_reliable.Reliability.Bitmap.set_bitmap_bit
    ee542_lab2_fast_reliable.Reliability.Receiver.new_receiver
    ee542_lab2_fast_reliable.Reliability.Receiver.is_received
    ee542_lab2_fast_reliable.Reliability.Receiver.has_received
    ee542_lab2_fast_reliable.Reliability.Receiver.store_received
    ee542_lab2_fast_reliable.Reliability.Receiver.mark_received
    ee542_lab2_fast_reliable.Reliability.Receiver.complete
    ee542_lab2_fast_reliable.Reliability.Receiver.snapshot_bits
    ee542_lab2_fast_reliable.Reliability.Receiver.snapshot_round
    ee542_lab2_fast_reliable.Reliability.Receiver.make_ack_snapshot
    ee542_lab2_fast_reliable.Reliability.Sender.can_send_new
    ee542_lab2_fast_reliable.Reliability.Sender.store_selected
    ee542_lab2_fast_reliable.Reliability.Sender.select_retransmission
    ee542_lab2_fast_reliable.Reliability.Sender.select_new
    ee542_lab2_fast_reliable.Reliability.Sender.select_or_new
    ee542_lab2_fast_reliable.Reliability.Sender.select_next_packet
    ee542_lab2_fast_reliable.Reliability.Sender.mark_sent
    ee542_lab2_fast_reliable.Reliability.Sender.store_acked
    ee542_lab2_fast_reliable.Reliability.Sender.mark_acked
    ee542_lab2_fast_reliable.Reliability.Sender.store_queued
    ee542_lab2_fast_reliable.Reliability.Sender.queue_retransmission
    ee542_lab2_fast_reliable.Reliability.Sender.is_acked_at
    ee542_lab2_fast_reliable.Reliability.Sender.record_advance
    ee542_lab2_fast_reliable.Reliability.Sender.advance_base
    ee542_lab2_fast_reliable.Reliability.Sender.ack_prefix
    ee542_lab2_fast_reliable.Reliability.Sender.sack_round
    ee542_lab2_fast_reliable.Reliability.Sender.bits_to_scan
    ee542_lab2_fast_reliable.Reliability.Sender.ack_bitmap
    ee542_lab2_fast_reliable.Reliability.Sender.wants_fast_retransmit
    ee542_lab2_fast_reliable.Reliability.Sender.scan_in_flight
    ee542_lab2_fast_reliable.Reliability.Sender.scan_round
    ee542_lab2_fast_reliable.Reliability.Sender.scan_evidence
    ee542_lab2_fast_reliable.Reliability.Sender.process_ack
    ee542_lab2_fast_reliable.Reliability.Sender.timeout_round
    ee542_lab2_fast_reliable.Reliability.Sender.check_timeouts
    ee542_lab2_fast_reliable.Reliability.Sender.all_acked
    ee542_lab2_fast_reliable.Reliability.Sender.state
    ee542_lab2_fast_reliable.Reliability.Sender.retransmit_pending
    ee542_lab2_fast_reliable.Reliability.State.new_sender
    ee542_lab2_fast_reliable.Reliability.State.chunk_at
    ee542_lab2_fast_reliable.Reliability.State.put_chunk
    ee542_lab2_fast_reliable.Server.send_start_ack ee542_lab2_fast_reliable.Server.send_ack
    ee542_lab2_fast_reliable.Server.ack_interval ee542_lab2_fast_reliable.Server.new_session
    ee542_lab2_fast_reliable.Server.expected_size ee542_lab2_fast_reliable.Server.copy_chunk
    ee542_lab2_fast_reliable.Server.store_chunk ee542_lab2_fast_reliable.Server.record_data
    ee542_lab2_fast_reliable.Server.expect_ack ee542_lab2_fast_reliable.Server.should_send_ack
    ee542_lab2_fast_reliable.Server.acknowledge ee542_lab2_fast_reliable.Server.answer_data
    ee542_lab2_fast_reliable.Server.handle_data ee542_lab2_fast_reliable.Server.receiver_time_us
    ee542_lab2_fast_reliable.Server.completion ee542_lab2_fast_reliable.Server.finish
    ee542_lab2_fast_reliable.Server.handle_complete ee542_lab2_fast_reliable.Server.is_of_session
    ee542_lab2_fast_reliable.Server.reply ee542_lab2_fast_reliable.Server.handle_start
    ee542_lab2_fast_reliable.Server.handle_type ee542_lab2_fast_reliable.Server.handle_packet
    ee542_lab2_fast_reliable.Server.with_sent ee542_lab2_fast_reliable.Server.go_on
    ee542_lab2_fast_reliable.Server.serve ee542_lab2_fast_reliable.Server.TimeWait.late_answer
    ee542_lab2_fast_reliable.Server.TimeWait.late_reply
    ee542_lab2_fast_reliable.Server.TimeWait.answer_late
sent_well = refl

complete-reported_example :
    (reply : Datagram) × (packet : PacketView) × (handle_packet transfer
        (event_of complete_datagram.bytes)
        world_3.session
      ≡ ok (finished world_3.session (completion transfer world_3.session) (reply ∷ [])))
    × (expected_packet server complete_ack 5 server reply.bytes ≡ some packet)
    × (accept_complete packet ≡ ok (some (completion transfer world_3.session)))
    × (check_completed 1 1 (some (completion transfer world_3.session))
        ≡ ok (completion transfer world_3.session))
unfolding same_endpoint
complete-reported_example =
    complete-reported connection transfer same run world_0 world_3 complete_datagram
      (event_of complete_datagram.bytes) server beginning reach (tests.7)
      (ok-value (record { destination = server; bytes = [] }) _ ((both _ _ sent_well).0))
      (ok-value no_packet _ ((both _ _ sent_well).1)) refl (λ some_bytes. refl) refl
