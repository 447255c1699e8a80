-- ===== src/Examples/Reliability.antt =====
-- A transfer of five chunks, run by the functions of src/reliability.cpp.
use ee542_lab2_fast_reliable.Common.{
  ℕ, ◌+◌, ◌≡◌, ◌↔◌, ◌≤◌, ◌<◌, ◌⊎◌, refl, List, [], ◌∷◌, some, none, true, false, ◌&&◌, ◌||◌, ltb,
  arith, ok, err, logic_error, length, inc32, advance, for_range, for_down,
}
use ee542_lab2_fast_reliable.Common.Bits.{has_bit, set_bit}
use ee542_lab2_fast_reliable.Common.Counting.{count_below}
use ee542_lab2_fast_reliable.Protocol.Types.{AckPayload}
use ee542_lab2_fast_reliable.Reliability.Bitmap.{bitmap_bit, set_bitmap_bit, IsBitmap}
use ee542_lab2_fast_reliable.Reliability.Receiver.{
  ReceiverTracker, new_receiver, is_received, has_received, store_received, mark_received, complete,
  make_ack_snapshot, snapshot_bits, snapshot_round,
}
use ee542_lab2_fast_reliable.Reliability.Receiver.Tracking.{
  IsTracking, new_receiver-IsTracking, mark_received-IsTracking, has_received-mark_received,
  complete_iff,
}
use ee542_lab2_fast_reliable.Reliability.Receiver.Snapshot.{make_ack_snapshot_bits}
use ee542_lab2_fast_reliable.Reliability.Agreement.{acked_at-process_ack-make_ack_snapshot}
use ee542_lab2_fast_reliable.Reliability.Sender.{
  can_send_new, store_selected, select_retransmission, select_new, select_or_new,
  select_next_packet, mark_sent, store_acked, mark_acked, store_queued, queue_retransmission,
  is_acked_at, record_advance, advance_base, ack_prefix, sack_round, bits_to_scan, ack_bitmap,
  wants_fast_retransmit, scan_in_flight, scan_round, scan_evidence, process_ack, check_timeouts,
  all_acked,
}
use ee542_lab2_fast_reliable.Reliability.State.{
  SenderWindow, SendDecision, fresh_window, new_sender, chunk_at, put_chunk,
}
use ee542_lab2_fast_reliable.Reliability.Sender.Window.{acked_at, pending_at}
use ee542_lab2_fast_reliable.Reliability.Sender.Sack.{ack_covers}
use ee542_lab2_fast_reliable.Reliability.Sender.Advance.{IsSettled, IsTimed}
use ee542_lab2_fast_reliable.Reliability.Sender.Process.{
  acked_at-process_ack, process_ack-IsSettled, process_ack-IsTimed, process_ack_three,
}
use ee542_lab2_fast_reliable.Reliability.Sender.Timeouts.{timed_out, pending_at-check_timeouts}
use ee542_lab2_fast_reliable.Reliability.Sender.Select.{
  Retransmits, SendsNew, SendsNothing, select_next_packet_cases,
}
use ee542_lab2_fast_reliable.Reliability.Sender.Sent.{Sent, mark_sent_cases}
use ee542_lab2_fast_reliable.Reliability.Sender.History.{
  Call, selects, sends, step, run, IsLive, run-new_sender, new_sender_iff, all_acked_iff,
}

-- Chunks 1, 2 and 3 have arrived.
abbrev tracker : ReceiverTracker
tracker = (mark_received (mark_received (mark_received (new_receiver 5) 1).0 3).0 2).0

tracker-IsTracking : IsTracking tracker
tracker-IsTracking = mark_received-IsTracking _ 2 (
    mark_received-IsTracking _ 3
      (mark_received-IsTracking _ 1 (new_receiver-IsTracking 5 (omega arith))))

mark_received-IsTracking_example : IsTracking (mark_received tracker 0).0
mark_received-IsTracking_example = mark_received-IsTracking tracker 0 tracker-IsTracking

has_received-mark_received_example :
    (has_received (mark_received tracker 0).0 0 ≡ true) × ((mark_received tracker 0).1 ≡ true)
unfolding mark_received has_received is_received new_receiver store_received
has_received-mark_received_example = has_received-mark_received tracker 0 0

complete_iff_example :
    ((complete tracker ≡ true)
      ↔ ((j : ℕ) → j < length tracker.received → has_received tracker j ≡ true))
    × ((complete tracker ≡ true) ↔ (tracker.cumulative_ack ≡ length tracker.received))
complete_iff_example = complete_iff tracker tracker-IsTracking

make_ack_snapshot_bits_example :
    let snapshot = make_ack_snapshot tracker 16 in
    (length snapshot.bitmap ≡ 2) × IsBitmap snapshot.bitmap × (bitmap_bit snapshot.bitmap 3 ≡ true)
unfolding mark_received has_received is_received new_receiver store_received advance
make_ack_snapshot_bits_example = make_ack_snapshot_bits tracker 16 3 tracker-IsTracking

-- All five chunks have been sent, the last one at time 5.
abbrev calls : List Call
calls =
    selects
    ∷ sends 0 1
    ∷ selects
    ∷ sends 1 2
    ∷ selects
    ∷ sends 2 3
    ∷ selects
    ∷ sends 3 4
    ∷ selects
    ∷ sends 4 5
    ∷ []

abbrev window : SenderWindow
window = run (fresh_window 5 5 8 0) calls

run-new_sender_example : IsLive 5 5 8 0 window
unfolding new_sender
run-new_sender_example = run-new_sender 5 5 8 0 (fresh_window 5 5 8 0) calls (omega arith) refl

window-IsLive : IsLive 5 5 8 0 window
unfolding new_sender
window-IsLive = run-new_sender 5 5 8 0 (fresh_window 5 5 8 0) calls (omega arith) refl

new_sender_iff_example :
    (new_sender 5 5 8 0 ≡ ok (fresh_window 5 5 8 0))
    ↔ ((0 < 5) × (5 ≤ 8) × (fresh_window 5 5 8 0 ≡ fresh_window 5 5 8 0))
new_sender_iff_example = new_sender_iff 5 5 8 0 (fresh_window 5 5 8 0)

all_acked_iff_example :
    (all_acked window ≡ true) ↔ ((j : ℕ) → j < window.total_chunks → acked_at window j ≡ true)
all_acked_iff_example = all_acked_iff window window-IsLive.valid window-IsLive.settled

abbrev snapshot : AckPayload
snapshot = make_ack_snapshot tracker 16

acked_at-process_ack-make_ack_snapshot_example : acked_at (process_ack window snapshot 9) 2 ≡ (
    acked_at window 2
    || (has_received tracker 2
        && ltb 2 (tracker.cumulative_ack + 16)
        && ltb 2 window.next_sequence))
acked_at-process_ack-make_ack_snapshot_example =
    acked_at-process_ack-make_ack_snapshot window tracker 16 9 2 window-IsLive.valid
      tracker-IsTracking

acked_at-process_ack_example :
    acked_at (process_ack window snapshot 9) 2
    ≡ (acked_at window 2 || (ack_covers snapshot 2 && ltb 2 window.next_sequence))
acked_at-process_ack_example = acked_at-process_ack window snapshot 9 window-IsLive.valid 2

process_ack-IsSettled_example : IsSettled (process_ack window snapshot 9)
process_ack-IsSettled_example = process_ack-IsSettled window snapshot 9 window-IsLive.valid

process_ack-IsTimed_example : IsTimed 0 (process_ack window snapshot 9)
process_ack-IsTimed_example =
    process_ack-IsTimed window snapshot 9 window-IsLive.valid 0 window-IsLive.timed

-- The three later chunks make chunk 0 pending.
pending_after : pending_at (process_ack window snapshot 9) 0 ≡ true
unfolding run step process_ack mark_received new_receiver store_received is_received advance
    make_ack_snapshot snapshot_bits snapshot_round bitmap_bit set_bitmap_bit select_next_packet
    mark_sent chunk_at put_chunk can_send_new store_selected select_retransmission select_new
    select_or_new store_acked mark_acked store_queued queue_retransmission is_acked_at
    record_advance advance_base ack_prefix sack_round bits_to_scan ack_bitmap wants_fast_retransmit
    scan_in_flight scan_round scan_evidence for_range for_down inc32 has_bit set_bit
pending_after = refl

process_ack_three_example :
    (pending_at window 0 ≡ true)
    ⊎ (count_below (acked_at (process_ack window snapshot 9)) 1 + 3
        ≤ count_below
            (acked_at (process_ack window snapshot 9))
            (process_ack window snapshot 9).next_sequence)
process_ack_three_example = process_ack_three window snapshot 9 window-IsLive.valid 0 pending_after

pending_at-check_timeouts_example :
    pending_at (check_timeouts window 600 500) 3
    ≡ (pending_at window 3 || timed_out window 600 500 3)
pending_at-check_timeouts_example = pending_at-check_timeouts window 600 500 3 window-IsLive.valid

select_next_packet_cases_example :
    ((d : SendDecision) × (w' : SenderWindow) × (select_next_packet window ≡ (some d, w'))
      × Retransmits window d w')
    ⊎ ((d : SendDecision) × (w' : SenderWindow) × (select_next_packet window ≡ (some d, w'))
        × SendsNew window d w')
    ⊎ ((w' : SenderWindow) × (select_next_packet window ≡ (none, w')) × SendsNothing window w')
select_next_packet_cases_example = select_next_packet_cases window window-IsLive.valid

mark_sent_cases_example :
    ((w' : SenderWindow) × (mark_sent window 2 7 ≡ ok w')
      × (2 < window.next_sequence)
      × (acked_at window 2 ≡ false)
      × Sent window 2 7 w')
    ⊎ ((mark_sent window 2 7 ≡ err (logic_error "cannot mark an unselected or ACKed chunk as sent"))
        × ((window.next_sequence ≤ 2) ⊎ (acked_at window 2 ≡ true)))
mark_sent_cases_example = mark_sent_cases window 2 7 window-IsLive.valid
