-- ===== src/Reliability/Receiver.antt =====
-- `ReceiverTracker` of src/reliability.cpp.
pub mod Tracking
pub mod Snapshot
use ee542_lab2_fast_reliable.Common.{
  ℕ, suc, ◌+◌, ◌-◌, List, Bool, true, false, not, ◌&&◌, ◌||◌, min, max, ltb, leb, ◌==◌,
  if◌then◌else◌, set, get_or, length, replicate, inc32, advance, for_range,
}
use ee542_lab2_fast_reliable.Protocol.Types.{AckPayload}
use ee542_lab2_fast_reliable.Protocol.Payloads.{bitmap_bytes}
use ee542_lab2_fast_reliable.Reliability.Bitmap.{set_bitmap_bit}

pub record ReceiverTracker : Type 0 where
  pub received : List ℕ
  pub received_count : ℕ
  pub cumulative_ack : ℕ
  pub largest_received_plus_one : ℕ

unfoldable pub new_receiver : ℕ → ReceiverTracker
new_receiver total_chunks = record {
  received = replicate total_chunks 0;
  received_count = 0;
  cumulative_ack = 0;
  largest_received_plus_one = 0;
}

-- `sequence < received_.size() && received_[sequence] != 0`, also the loop's test.
unfoldable pub is_received : List ℕ → ℕ → Bool
is_received received sequence =
    ltb sequence (length received) && not (get_or received sequence 0 == 0)

unfoldable pub has_received : ReceiverTracker → ℕ → Bool
has_received t sequence = is_received t.received sequence

-- The state behind the guard of `mark_received`; `length + 1` rounds are enough for the loop.
unfoldable pub store_received : ReceiverTracker → ℕ → ReceiverTracker
store_received t sequence =
    let received = set t.received sequence 1 in
    record {
      received = received;
      received_count = inc32 t.received_count;
      cumulative_ack = advance (length received + 1) (is_received received) t.cumulative_ack;
      largest_received_plus_one = max t.largest_received_plus_one (inc32 sequence);
    }

unfoldable pub mark_received : ReceiverTracker → ℕ → ReceiverTracker × Bool
mark_received t sequence =
    if leb (length t.received) sequence || not (get_or t.received sequence 0 == 0)
    then (t, false)
    else (store_received t sequence, true)

unfoldable pub complete : ReceiverTracker → Bool
complete t = t.received_count == length t.received

-- The bits that the snapshot looks at.
unfoldable pub snapshot_bits : ReceiverTracker → ℕ → ℕ
snapshot_bits t bitmap_bits =
    let sequence_limit = min t.largest_received_plus_one (length t.received) in
    if ltb t.cumulative_ack sequence_limit
    then min bitmap_bits (sequence_limit - t.cumulative_ack)
    else 0

-- One round of the snapshot's loop.
unfoldable pub snapshot_round : ReceiverTracker → ℕ → List ℕ → List ℕ
snapshot_round t bit bitmap =
    if not (get_or t.received (t.cumulative_ack + bit) 0 == 0)
    then set_bitmap_bit bitmap bit
    else bitmap

unfoldable pub make_ack_snapshot : ReceiverTracker → ℕ → AckPayload
make_ack_snapshot t bitmap_bits = record {
  cumulative_ack = t.cumulative_ack;
  largest_received_plus_one = t.largest_received_plus_one;
  bitmap_base = t.cumulative_ack;
  bitmap_bits = bitmap_bits;
  bitmap =
      for_range (snapshot_bits t bitmap_bits) 0 (snapshot_round t)
        (replicate (bitmap_bytes bitmap_bits) 0);
}
