-- ===== src/Reliability/Receiver/Snapshot.antt =====
-- `make_ack_snapshot` of src/reliability.cpp.
use ee542_lab2_fast_reliable.Common.{
  ℕ, ◌+◌, ◌/◌, ◌≤◌, ◌<◌, ◌≡◌, ◌∙◌, List, Bool, not, ◌&&◌, inl, inr, arith, ltb, ◌==◌, if◌then◌else◌,
  Bool-cases, get_or, length, replicate, length-replicate, for_range_inv,
}
use ee542_lab2_fast_reliable.Protocol.Payloads.{bitmap_bytes}
use ee542_lab2_fast_reliable.Reliability.Bitmap.{
  bitmap_bit, IsBitmap, replicate-IsBitmap, bitmap_bit-replicate, length-set_bitmap_bit,
  set_bitmap_bit-IsBitmap, bitmap_bit-set_bitmap_bit,
}
use ee542_lab2_fast_reliable.Reliability.Receiver.{
  ReceiverTracker, is_received, has_received, snapshot_bits, snapshot_round, make_ack_snapshot,
}
use ee542_lab2_fast_reliable.Reliability.Receiver.Tracking.{IsTracking}

abbrev stored : ReceiverTracker → ℕ → Bool
stored t i = not (get_or t.received (t.cumulative_ack + i) 0 == 0)

-- After `k` rounds the bitmap holds the first `k` bits.
abbrev Filled : ReceiverTracker → ℕ → ℕ → List ℕ → Type 0
Filled t bits k bitmap =
    (length bitmap ≡ bitmap_bytes bits)
    × IsBitmap bitmap
    × ((i : ℕ) → bitmap_bit bitmap i ≡ (ltb i k && stored t i))

snapshot_round-Filled :
    (t : ReceiverTracker) (bits k : ℕ) (bitmap : List ℕ)
    → k < bits
    → Filled t bits k bitmap
    → Filled t bits (k + 1) (snapshot_round t k bitmap)
unfolding snapshot_round
snapshot_round-Filled t bits k bitmap h (size, bytes, filled) = elim (Bool-cases (stored t k)) [
  | inl e ↦
      let fits : k / 8 < length bitmap = omega arith in
      rw e (
        omega (arith, length-set_bitmap_bit bitmap k),
        set_bitmap_bit-IsBitmap bitmap k fits bytes,
        λ i.
            ground (arith, bitmap_bit-set_bitmap_bit bitmap k fits bytes i, filled i, at_bit k i e),
      )
  | inr e ↦ rw e (size, bytes, λ i. ground (arith, filled i, at_bit k i e))
]
  where
    at_bit :
        (k i : ℕ) {b : Bool}
        → stored t k ≡ b
        → (ltb i (k + 1) && stored t i) ≡ (if k == i then b else ltb i k && stored t i)
    at_bit k i {b} e = elim (Bool-cases (k == i)) [
      | inl s ↦ let same : k ≡ i = ground arith in rw (← same) (ground arith)
      | inr s ↦ ground arith
    ]

snapshot_bits-le : (t : ReceiverTracker) (bits : ℕ) → snapshot_bits t bits ≤ bits
unfolding snapshot_bits
snapshot_bits-le t bits = ground arith

-- The bits that the loop leaves out are those of chunks that have not been received.
scanned :
    (t : ReceiverTracker) (bits i : ℕ)
    → IsTracking t
    → (ltb i (snapshot_bits t bits) && stored t i)
      ≡ (ltb i bits && has_received t (t.cumulative_ack + i))
unfolding snapshot_bits has_received is_received
scanned t bits i v = ground (arith, v.bounded (t.cumulative_ack + i))

-- For a well-formed tracker: the snapshot's bitmap has the bytes that its bit count needs, all of
-- them below 256, and bit `i` is set exactly if `i` is below the bit count and the chunk `i` above
-- the cumulative ACK has been received.
pub make_ack_snapshot_bits :
    (t : ReceiverTracker) (bits i : ℕ)
    → IsTracking t
    → let ack = make_ack_snapshot t bits in
      (length ack.bitmap ≡ bitmap_bytes bits)
      × IsBitmap ack.bitmap
      × (bitmap_bit ack.bitmap i ≡ (ltb i bits && has_received t (t.cumulative_ack + i)))
unfolding make_ack_snapshot
make_ack_snapshot_bits t bits i v =
    let n = snapshot_bits t bits in
    let (size, bytes, filled) =
      for_range_inv (Filled t bits) (snapshot_round t) 0 n
        (λ k bitmap b h f.
          snapshot_round-Filled t bits k bitmap (omega (arith, snapshot_bits-le t bits)) f)
        n 0 (replicate (bitmap_bytes bits) 0) (omega arith) (omega arith)
        (
          length-replicate {A = ℕ} (bitmap_bytes bits) 0,
          replicate-IsBitmap (bitmap_bytes bits),
          λ j. ground (arith, bitmap_bit-replicate (bitmap_bytes bits) j),
        ) in
    (size, bytes, filled i ∙ scanned t bits i v)
