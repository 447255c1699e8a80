-- ===== src/Reliability/Sender/Sack.antt =====
-- What an ACK acknowledges: the loops over its cumulative prefix and over its bitmap.
use ee542_lab2_fast_reliable.Common.{
  ℕ, ◌+◌, ◌-◌, ◌*◌, ◌≤◌, ◌<◌, ◌≡◌, inl, inr, refl, Bool, true, false, ◌&&◌, ◌||◌, ltb, leb, ◌==◌,
  arith, Bool-cases, min, length, for_range, for_range_inv,
}
use ee542_lab2_fast_reliable.Protocol.Types.{AckPayload}
use ee542_lab2_fast_reliable.Reliability.Bitmap.{bitmap_bit}
use ee542_lab2_fast_reliable.Reliability.Sender.{
  mark_acked, ack_prefix, sack_round, bits_to_scan, ack_bitmap,
}
use ee542_lab2_fast_reliable.Reliability.State.{SenderWindow}
use ee542_lab2_fast_reliable.Reliability.Sender.Window.{
  in_flight_at, acked_at, pending_at, IsWindow, SameFrame, SameFrame-refl, SameFrame-trans,
}
use ee542_lab2_fast_reliable.Reliability.Sender.Ack.{
  in_flight_at-mark_acked, acked_at-mark_acked, pending_at-mark_acked, mark_acked-IsWindow,
  mark_acked-SameFrame,
}

-- After some rounds the chunks that pass `seen` have been acknowledged besides those of `w`.
pub record Acknowledged (w w' : SenderWindow) (seen : ℕ → Bool) : Type 0 where
  pub valid : IsWindow w'
  pub frame : SameFrame w w'
  pub marks : (j : ℕ) → acked_at w' j ≡ (acked_at w j || seen j)
  pub pendings : (j : ℕ) → pending_at w' j ≡ true → pending_at w j ≡ true
  pub issued :
      (j : ℕ)
      → (in_flight_at w j || acked_at w j) ≡ true
      → (in_flight_at w' j || acked_at w' j) ≡ true

mark_acked-Acknowledged :
    (w w' : SenderWindow) (seen seen' : ℕ → Bool) (s : ℕ)
    → s < w.next_sequence
    → ((j : ℕ) → seen' j ≡ (seen j || s == j))
    → Acknowledged w w' seen
    → Acknowledged w (mark_acked w' s) seen'
mark_acked-Acknowledged w w' seen seen' s sent more a = record {
  valid = mark_acked-IsWindow w' s a.valid;
  frame = SameFrame-trans a.frame (mark_acked-SameFrame w' s);
  marks =
      λ j. ground (arith, acked_at-mark_acked w' s j a.valid, a.marks j, more j, a.frame.next_eq);
  pendings = λ j p. a.pendings j (pending_at-mark_acked w' s j a.valid p);
  issued = λ j p. in_flight_at-mark_acked w' s j a.valid (a.issued j p);
}

skip-Acknowledged :
    (w w' : SenderWindow) (seen seen' : ℕ → Bool)
    → ((j : ℕ) → seen' j ≡ seen j)
    → Acknowledged w w' seen
    → Acknowledged w w' seen'
skip-Acknowledged w w' seen seen' same a = record {
  valid = a.valid;
  frame = a.frame;
  marks = λ j. rw (same j) (a.marks j);
  pendings = a.pendings;
  issued = a.issued;
}

start-Acknowledged :
    (w : SenderWindow) (seen : ℕ → Bool)
    → IsWindow w
    → ((j : ℕ) → seen j ≡ false)
    → Acknowledged w w seen
start-Acknowledged w seen v none = record {
  valid = v;
  frame = SameFrame-refl w;
  marks = λ j. ground (arith, none j);
  pendings = λ j p. p;
  issued = λ j p. p;
}

abbrev in_prefix : ℕ → ℕ → ℕ → Bool
in_prefix first k j = leb first j && ltb j k

in_prefix_next :
    (first k j : ℕ) → first ≤ k → in_prefix first (k + 1) j ≡ (in_prefix first k j || k == j)
in_prefix_next first k j h = ground arith

pub ack_prefix-Acknowledged :
    (w : SenderWindow) (ack : AckPayload)
    → IsWindow w
    → Acknowledged w (ack_prefix ack w) (λ j. ltb j ack.cumulative_ack && ltb j w.next_sequence)
unfolding ack_prefix
ack_prefix-Acknowledged w ack v = record {
  valid = loop.valid;
  frame = loop.frame;
  marks = λ j. ground (arith, loop.marks j, v.prefix j, v.next_le, v.fresh j);
  pendings = loop.pendings;
  issued = loop.issued;
}
  where
    rounds : ℕ
    rounds = min (min ack.cumulative_ack w.total_chunks) w.next_sequence - w.base

    loop :
        Acknowledged w
          (for_range rounds w.base (λ sequence w'. mark_acked w' sequence) w)
          (in_prefix w.base (w.base + rounds))
    loop =
        for_range_inv (λ k w'. Acknowledged w w' (in_prefix w.base k))
          (λ sequence w'. mark_acked w' sequence) w.base (w.base + rounds)
          (λ i w' b h a.
            mark_acked-Acknowledged w w' (in_prefix w.base i) (in_prefix w.base (i + 1)) i
              (omega arith) (λ j. in_prefix_next w.base i j b) a)
          rounds w.base w (omega arith) refl
          (start-Acknowledged w (in_prefix w.base w.base) v (λ j. ground arith))

-- The chunks of the first `k` bits that are set.
abbrev in_bitmap : AckPayload → ℕ → ℕ → Bool
in_bitmap ack k j =
    leb ack.bitmap_base j
    && ltb (j - ack.bitmap_base) k
    && bitmap_bit ack.bitmap (j - ack.bitmap_base)

in_bitmap_next :
    (ack : AckPayload) (k j : ℕ) {b : Bool}
    → bitmap_bit ack.bitmap k ≡ b
    → in_bitmap ack (k + 1) j ≡ (in_bitmap ack k j || (b && ack.bitmap_base + k == j))
in_bitmap_next ack k j {b} e = elim (Bool-cases (ack.bitmap_base + k == j)) [
  | inl s ↦ let here : j - ack.bitmap_base ≡ k = ground arith in rw (here, e) (ground arith)
  | inr s ↦ ground arith
]

sack_round-Acknowledged :
    (w w' : SenderWindow) (ack : AckPayload) (k : ℕ)
    → IsWindow w
    → ack.bitmap_base + k < w.next_sequence
    → Acknowledged w w' (in_bitmap ack k)
    → Acknowledged w (sack_round ack k w') (in_bitmap ack (k + 1))
unfolding sack_round
sack_round-Acknowledged w w' ack k v h a = elim (Bool-cases (bitmap_bit ack.bitmap k)) [
  | inl e ↦
      let total : ltb (ack.bitmap_base + k) w'.total_chunks ≡ true =
        ground (arith, a.frame.total_eq, v.next_le) in
      let next : ltb (ack.bitmap_base + k) w'.next_sequence ≡ true =
        ground (arith, a.frame.next_eq) in
      rw (e, total, next)
        (mark_acked-Acknowledged w w' (in_bitmap ack k) (in_bitmap ack (k + 1))
          (ack.bitmap_base + k) h (λ j. in_bitmap_next ack k j e) a)
  | inr e ↦ rw e (
      skip-Acknowledged w w' (in_bitmap ack k) (in_bitmap ack (k + 1))
        (λ j. ground (arith, in_bitmap_next ack k j e)) a)
]

-- What the bitmap of an ACK covers, up to its own bounds.
abbrev pub bitmap_covers : AckPayload → ℕ → Bool
bitmap_covers ack j =
    ltb j ack.largest_received_plus_one
    && in_bitmap ack (min ack.bitmap_bits (length ack.bitmap * 8)) j

pub ack_bitmap-Acknowledged :
    (w : SenderWindow) (ack : AckPayload)
    → IsWindow w
    → Acknowledged w (ack_bitmap ack w) (λ j. bitmap_covers ack j && ltb j w.next_sequence)
unfolding ack_bitmap
ack_bitmap-Acknowledged w ack v =
    let scanned =
      for_range_inv (λ k w'. Acknowledged w w' (in_bitmap ack k)) (sack_round ack) 0
        (bits_to_scan ack w)
        (λ i w' b h a. sack_round-Acknowledged w w' ack i v (scan_in_window i h) a)
        (bits_to_scan ack w) 0 w (omega arith) (omega arith)
        (start-Acknowledged w (in_bitmap ack 0) v (λ j. ground arith)) in
    skip-Acknowledged w _ _ _ (λ j. scanned_bits j) scanned
  where
    scan_in_window : (i : ℕ) → i < bits_to_scan ack w → ack.bitmap_base + i < w.next_sequence
    scan_in_window i h = unfold bits_to_scan in ground arith

    scanned_bits :
        (j : ℕ)
        → (bitmap_covers ack j && ltb j w.next_sequence) ≡ in_bitmap ack (bits_to_scan ack w) j
    scanned_bits j = unfold bits_to_scan in ground (arith, v.next_le)

-- Whether an ACK covers a chunk, by its cumulative number or by its bitmap.
abbrev pub ack_covers : AckPayload → ℕ → Bool
ack_covers ack j = ltb j ack.cumulative_ack || bitmap_covers ack j

pub ack-Acknowledged :
    (w : SenderWindow) (ack : AckPayload)
    → IsWindow w
    → Acknowledged w
        (ack_bitmap ack (ack_prefix ack w))
        (λ j. ack_covers ack j && ltb j w.next_sequence)
ack-Acknowledged w ack v =
    let first = ack_prefix-Acknowledged w ack v in
    let second = ack_bitmap-Acknowledged (ack_prefix ack w) ack first.valid in
    record {
      valid = second.valid;
      frame = SameFrame-trans first.frame second.frame;
      marks = λ j. ground (arith, second.marks j, first.marks j, first.frame.next_eq);
      pendings = λ j p. first.pendings j (second.pendings j p);
      issued = λ j p. second.issued j (first.issued j p);
    }
