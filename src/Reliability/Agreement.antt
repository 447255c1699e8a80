-- ===== src/Reliability/Agreement.antt =====
-- A snapshot of the receiver's tracker, processed by the sender's window.
use ee542_lab2_fast_reliable.Common.{
  ℕ, ◌+◌, ◌-◌, ◌*◌, ◌≡◌, inl, inr, ◌&&◌, ◌||◌, min, ltb, arith, Bool-cases, length,
}
use ee542_lab2_fast_reliable.Reliability.Receiver.{ReceiverTracker, has_received, make_ack_snapshot}
use ee542_lab2_fast_reliable.Reliability.Receiver.Tracking.{IsTracking}
use ee542_lab2_fast_reliable.Reliability.Receiver.Snapshot.{make_ack_snapshot_bits}
use ee542_lab2_fast_reliable.Reliability.Sender.{process_ack}
use ee542_lab2_fast_reliable.Reliability.State.{SenderWindow}
use ee542_lab2_fast_reliable.Reliability.Sender.Window.{acked_at, IsWindow}
use ee542_lab2_fast_reliable.Reliability.Sender.Sack.{ack_covers}
use ee542_lab2_fast_reliable.Reliability.Sender.Process.{acked_at-process_ack}

-- A snapshot covers the received chunks up to the end of its bitmap, and no others.
pub ack_covers-make_ack_snapshot :
    (t : ReceiverTracker) (bits j : ℕ)
    → IsTracking t
    → ack_covers (make_ack_snapshot t bits) j
      ≡ (has_received t j && ltb j (t.cumulative_ack + bits))
unfolding make_ack_snapshot
ack_covers-make_ack_snapshot t bits j v = elim (Bool-cases (ltb j t.cumulative_ack)) [
  | inl e ↦ ground (arith, v.gap.passed j)
  | inr e ↦
      let (size, _, bit) = make_ack_snapshot_bits t bits (j - t.cumulative_ack) v in
      let back : t.cumulative_ack + (j - t.cumulative_ack) ≡ j = ground arith in
      let whole : min bits (length (make_ack_snapshot t bits).bitmap * 8) ≡ bits =
        omega (arith, size) in
      rw (whole, bit, back) (ground (arith, v.bounded j))
]

-- For a well-formed window and a well-formed tracker: after the window has processed a snapshot of
-- the tracker with `bits` bitmap bits, a chunk is acknowledged exactly if it was before, or the
-- tracker has received it, its number is below the tracker's cumulative ACK plus `bits`, and the
-- window has selected it.
pub acked_at-process_ack-make_ack_snapshot :
    (w : SenderWindow) (t : ReceiverTracker) (bits now j : ℕ)
    → IsWindow w
    → IsTracking t
    → acked_at (process_ack w (make_ack_snapshot t bits) now) j ≡ (
        acked_at w j
        || (has_received t j && ltb j (t.cumulative_ack + bits) && ltb j w.next_sequence))
acked_at-process_ack-make_ack_snapshot w t bits now j v k = ground (
  arith,
  acked_at-process_ack w (make_ack_snapshot t bits) now v j,
  ack_covers-make_ack_snapshot t bits j k,
)
