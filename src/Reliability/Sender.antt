-- ===== src/Reliability/Sender.antt =====
-- The methods of `SenderWindow`, src/reliability.cpp.
pub mod Window
pub mod Ack
pub mod Sack
pub mod Queue
pub mod Scan
pub mod Process
pub mod Timeouts
pub mod Select
pub mod Sent
pub mod History
pub mod Marks
pub mod Issued
pub mod Due
pub mod Advance
use ee542_lab2_fast_reliable.Common.{
  ℕ, suc, ◌+◌, ◌-◌, ◌*◌, ◌/◌, List, [], ◌∷◌, ◌++◌, Option, none, some, Bool, true, false, not, ◌&&◌,
  ◌||◌, min, ltb, leb, ◌==◌, if◌then◌else◌, Result, ok, err, Exception, invalid_argument,
  logic_error, out_of_range, set, get_or, length, replicate, inc32, dec32, inc64, advance,
  for_range, for_down,
}
use ee542_lab2_fast_reliable.Common.Int.{ℤ, pos, sub_ℕ, ◌+ℤ◌, max_ℤ}
use ee542_lab2_fast_reliable.Reliability.State.{
  PacketState, unsent, in_flight, acked, SendDecision, ChunkState, new_chunk, SenderWindow,
  is_in_flight, is_acked, chunk_at, put_chunk,
}
use ee542_lab2_fast_reliable.Protocol.Types.{AckPayload, fast_retransmit_threshold, default_rto_ms}
use ee542_lab2_fast_reliable.Reliability.Bitmap.{bitmap_bit}

unfoldable pub can_send_new : SenderWindow → Bool
can_send_new w =
    ltb w.next_sequence w.total_chunks
    && ltb w.outstanding_chunks w.logical_window_chunks
    && ltb w.next_sequence (w.base + w.sack_coverage_chunks)

-- What the loop of `select_next_packet` stores for the chunk that it picks.
unfoldable pub store_selected : SenderWindow → ℕ → List ℕ → SenderWindow
unfolding put_chunk
store_selected w sequence rest =
    put_chunk (record w { retransmission_queue = rest }) sequence
      (record (chunk_at w sequence) {
        retransmit_pending = false;
        fast_retransmit_pending = false;
        fast_retransmitted = true;
        retransmit_evidence = (chunk_at w sequence).latest_later_acked;
      })

-- The loop of `select_next_packet` over the queue, given as the list that is left.
unfoldable pub select_retransmission : List ℕ → SenderWindow → Option SendDecision × SenderWindow
select_retransmission [] w = (none, record w { retransmission_queue = [] })
select_retransmission (sequence ∷ rest) w =
    let chunk = chunk_at w sequence in
    let more = select_retransmission rest w in
    if is_in_flight chunk.state && chunk.retransmit_pending
    then (
      some (record {
        sequence = sequence;
        retransmission = true;
        fast_retransmission = chunk.fast_retransmit_pending;
      }),
      store_selected w sequence rest,
    )
    else more

unfoldable pub select_new : SenderWindow → Option SendDecision × SenderWindow
select_new w =
    if can_send_new w
    then (
      some (record {
        sequence = w.next_sequence;
        retransmission = false;
        fast_retransmission = false;
      }),
      record w {
        next_sequence = inc32 w.next_sequence;
        outstanding_chunks = inc32 w.outstanding_chunks;
      },
    )
    else (none, w)

unfoldable pub select_or_new :
    Option SendDecision × SenderWindow → Option SendDecision × SenderWindow
select_or_new (some decision, w) = (some decision, w)
select_or_new (none, w) = select_new w

unfoldable pub select_next_packet : SenderWindow → Option SendDecision × SenderWindow
unfolding select_or_new
select_next_packet w = select_or_new (select_retransmission w.retransmission_queue w)

unfoldable pub mark_sent : SenderWindow → ℕ → ℕ → Result Exception SenderWindow
unfolding put_chunk
mark_sent w sequence send_time =
    if leb w.next_sequence sequence || is_acked (chunk_at w sequence).state
    then err (logic_error "cannot mark an unselected or ACKed chunk as sent")
    else ok (
        put_chunk w sequence
          (record (chunk_at w sequence) { state = in_flight; last_sent_time = send_time }))

-- What `mark_acked` stores behind its guards.
unfoldable pub store_acked : SenderWindow → ℕ → SenderWindow
unfolding put_chunk
store_acked w sequence =
    put_chunk (record w { outstanding_chunks = dec32 w.outstanding_chunks }) sequence
      (record (chunk_at w sequence) {
        state = acked;
        retransmit_pending = false;
        fast_retransmit_pending = false;
      })

unfoldable pub mark_acked : SenderWindow → ℕ → SenderWindow
mark_acked w sequence =
    if leb w.next_sequence sequence || leb w.total_chunks sequence
    then w
    else if is_acked (chunk_at w sequence).state
    then w
    else store_acked w sequence

-- What `queue_retransmission` stores behind its guard.
unfoldable pub store_queued : SenderWindow → ℕ → Bool → SenderWindow
unfolding put_chunk
store_queued w sequence fast_retransmit =
    let chunk = chunk_at w sequence in
    put_chunk (record w { retransmission_queue = w.retransmission_queue ++ sequence ∷ [] }) sequence
      (record chunk {
        retransmit_pending = true;
        fast_retransmit_pending = fast_retransmit;
        fast_retransmitted = if fast_retransmit then true else chunk.fast_retransmitted;
      })

unfoldable pub queue_retransmission : SenderWindow → ℕ → Bool → SenderWindow
queue_retransmission w sequence fast_retransmit =
    if not (is_in_flight (chunk_at w sequence).state) || (chunk_at w sequence).retransmit_pending
    then w
    else store_queued w sequence fast_retransmit

-- The test of `advance_base`'s loop.
unfoldable pub is_acked_at : SenderWindow → ℕ → Bool
is_acked_at w sequence = ltb sequence w.total_chunks && is_acked (chunk_at w sequence).state

-- The bookkeeping of a base that moved.
unfoldable pub record_advance : SenderWindow → ℕ → ℕ → SenderWindow
record_advance w new_base now =
    let stall_time = sub_ℕ now w.last_base_advance_time in
    record w {
      base = new_base;
      last_base_advance_time = now;
      base_advancement_events = inc64 w.base_advancement_events;
      total_base_stall_time = w.total_base_stall_time +ℤ stall_time;
      longest_base_stall_time = max_ℤ w.longest_base_stall_time stall_time;
    }

-- `total_chunks + 1` rounds are enough for the loop.
unfoldable pub advance_base : SenderWindow → ℕ → SenderWindow
unfolding record_advance
advance_base w now =
    let new_base = advance (w.total_chunks + 1) (is_acked_at w) w.base in
    if new_base == w.base then w else record_advance w new_base now

-- The loop over the cumulative prefix.
unfoldable pub ack_prefix : AckPayload → SenderWindow → SenderWindow
ack_prefix ack w =
    let prefix_end = min (min ack.cumulative_ack w.total_chunks) w.next_sequence in
    for_range (prefix_end - w.base) w.base (λ sequence w'. mark_acked w' sequence) w

-- One round of the loop over the bitmap.
unfoldable pub sack_round : AckPayload → ℕ → SenderWindow → SenderWindow
sack_round ack bit w =
    let sequence = ack.bitmap_base + bit in
    if not (bitmap_bit ack.bitmap bit)
    then w
    else if ltb sequence w.total_chunks && ltb sequence w.next_sequence
    then mark_acked w sequence
    else w

unfoldable pub bits_to_scan : AckPayload → SenderWindow → ℕ
bits_to_scan ack w =
    let available_bits = min ack.bitmap_bits (length ack.bitmap * 8) in
    let sequence_limit = min (min ack.largest_received_plus_one w.total_chunks) w.next_sequence in
    if ltb ack.bitmap_base sequence_limit
    then min available_bits (sequence_limit - ack.bitmap_base)
    else 0

unfoldable pub ack_bitmap : AckPayload → SenderWindow → SenderWindow
ack_bitmap ack w = for_range (bits_to_scan ack w) 0 (sack_round ack) w

-- 250 ms, in nanoseconds.
abbrev pub repeated_fast_retransmit_delay : ℕ
repeated_fast_retransmit_delay = default_rto_ms / 2 * 1_000_000

-- The conditions of a fast retransmission, on the chunk as it was before the scan.
unfoldable pub wants_fast_retransmit : ChunkState → ℕ → ℕ → Bool
wants_fast_retransmit chunk later_acked now =
    ltb chunk.latest_later_acked later_acked
    && leb chunk.retransmit_evidence later_acked
    && leb fast_retransmit_threshold (later_acked - chunk.retransmit_evidence)
    && (not chunk.fast_retransmitted
        || leb (chunk.last_sent_time + repeated_fast_retransmit_delay) now)

-- The scan's branch on a chunk in flight.
unfoldable pub scan_in_flight : ℕ → ℕ → ℕ → SenderWindow → SenderWindow
unfolding put_chunk
scan_in_flight now sequence later_acked w =
    let chunk = chunk_at w sequence in
    let seen = put_chunk w sequence (record chunk { latest_later_acked = later_acked }) in
    if wants_fast_retransmit chunk later_acked now
    then queue_retransmission seen sequence true
    else seen

-- One round of the scan from the newest chunk down; the state is the window and `later_acked`.
unfoldable pub scan_round : ℕ → ℕ → SenderWindow × ℕ → SenderWindow × ℕ
scan_round now sequence (w, later_acked) = elim (chunk_at w sequence).state [
  | acked ↦ (w, inc32 later_acked)
  | in_flight ↦ (scan_in_flight now sequence later_acked w, later_acked)
  | unsent ↦ (w, later_acked)
]

unfoldable pub scan_evidence : ℕ → SenderWindow → SenderWindow
scan_evidence now w = (for_down (w.next_sequence - w.base) w.base (scan_round now) (w, 0)).0

unfoldable pub process_ack : SenderWindow → AckPayload → ℕ → SenderWindow
process_ack w ack now = scan_evidence now (advance_base (ack_bitmap ack (ack_prefix ack w)) now)

-- One round of `check_timeouts`; `rto` is in nanoseconds.
unfoldable pub timeout_round : ℕ → ℕ → ℕ → SenderWindow → SenderWindow
timeout_round now rto sequence w =
    let chunk = chunk_at w sequence in
    if is_in_flight chunk.state
      && not chunk.retransmit_pending
      && leb (chunk.last_sent_time + rto) now
    then queue_retransmission w sequence false
    else w

unfoldable pub check_timeouts : SenderWindow → ℕ → ℕ → SenderWindow
check_timeouts w now rto = for_range (w.next_sequence - w.base) w.base (timeout_round now rto) w

unfoldable pub all_acked : SenderWindow → Bool
all_acked w = w.base == w.total_chunks

unfoldable pub state : SenderWindow → ℕ → Result Exception PacketState
state w sequence =
    if leb w.total_chunks sequence
    then err (out_of_range "chunk sequence is outside the transfer")
    else ok (chunk_at w sequence).state

unfoldable pub retransmit_pending : SenderWindow → ℕ → Bool
retransmit_pending w sequence =
    if leb w.total_chunks sequence then false else (chunk_at w sequence).retransmit_pending
