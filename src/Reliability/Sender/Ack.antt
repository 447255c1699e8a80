-- ===== src/Reliability/Sender/Ack.antt =====
-- Marking chunks as acknowledged: the cumulative prefix and the bitmap.
use ee542_lab2_fast_reliable.Common.{
  ℕ, ◌+◌, ◌≤◌, ◌<◌, ◌≡◌, ◌⊎◌, inl, inr, refl, ap, true, false, ◌&&◌, ◌||◌, ltb, ◌==◌, arith,
  if◌then◌else◌, Bool-cases, length, length-set, get_or-set, dec32_fits,
}
use ee542_lab2_fast_reliable.Common.Counting.{count_below, count_below_gain, count_below-le}
use ee542_lab2_fast_reliable.Reliability.Sender.{store_acked, mark_acked}
use ee542_lab2_fast_reliable.Reliability.State.{SenderWindow, new_chunk, acked, chunk_at}
use ee542_lab2_fast_reliable.Reliability.Sender.Window.{
  in_flight_at, acked_at, pending_at, unacked_at, IsWindow, SameFrame, SameFrame-refl,
}

pub mark_acked_cases :
    (w : SenderWindow) (s : ℕ)
    → ((mark_acked w s ≡ w)
        × ((w.next_sequence ≤ s) ⊎ (w.total_chunks ≤ s) ⊎ (acked_at w s ≡ true)))
      ⊎ ((mark_acked w s ≡ store_acked w s) × (s < w.next_sequence) × (acked_at w s ≡ false))
unfolding mark_acked
mark_acked_cases w s = ground arith

store_acked-SameFrame : (w : SenderWindow) (s : ℕ) → SameFrame w (store_acked w s)
unfolding store_acked
store_acked-SameFrame w s = record {
  total_eq = refl;
  window_eq = refl;
  coverage_eq = refl;
  base_eq = refl;
  next_eq = refl;
  time_eq = refl;
  stall_eq = refl;
}

store_acked-queue :
    (w : SenderWindow) (s : ℕ) → (store_acked w s).retransmission_queue ≡ w.retransmission_queue
unfolding store_acked
store_acked-queue w s = refl

length-store_acked : (w : SenderWindow) (s : ℕ) → length (store_acked w s).chunks ≡ length w.chunks
unfolding store_acked
length-store_acked w s = length-set w.chunks s _

module _ (w : SenderWindow) (s : ℕ) (v : IsWindow w) (sent : s < w.next_sequence)
    (waits : acked_at w s ≡ false) where
  chunk_at-after :
      (j : ℕ)
      → chunk_at (store_acked w s) j ≡ (
          if s == j
          then record (chunk_at w s) {
            state = acked;
            retransmit_pending = false;
            fast_retransmit_pending = false;
          }
          else chunk_at w j)
  unfolding store_acked chunk_at
  chunk_at-after j = get_or-set w.chunks s j _ new_chunk (omega (arith, v.size, v.next_le))

  acked_at-after : (j : ℕ) → acked_at (store_acked w s) j ≡ (if s == j then true else acked_at w j)
  acked_at-after j = ground (arith, chunk_at-after j)

  gain :
      count_below (unacked_at w) w.next_sequence
      ≡ count_below (unacked_at (store_acked w s)) w.next_sequence + 1
  gain =
      count_below_gain (unacked_at (store_acked w s)) (unacked_at w) s w.next_sequence sent
        (ground (arith, acked_at-after s)) (ground arith) (λ i d. ground (arith, acked_at-after i))

  outstanding-after : (store_acked w s).outstanding_chunks + 1 ≡ w.outstanding_chunks
  unfolding store_acked
  outstanding-after =
      dec32_fits w.outstanding_chunks (omega (arith, v.counted, gain))
        (omega (arith, v.counted, v.fits, v.next_le, count_below-le (unacked_at w) w.next_sequence))

  frame : SameFrame w (store_acked w s)
  frame = store_acked-SameFrame w s

  store_acked-IsWindow : IsWindow (store_acked w s)
  store_acked-IsWindow = record {
    fits = omega (arith, v.fits, frame.total_eq);
    size = omega (arith, v.size, frame.total_eq, length-store_acked w s);
    covered = omega (arith, v.covered, frame.window_eq, frame.coverage_eq);
    base_le = omega (arith, v.base_le, frame.base_eq, frame.next_eq);
    next_le = omega (arith, v.next_le, frame.next_eq, frame.total_eq);
    prefix = λ i l. ground (arith, acked_at-after i, v.prefix i, frame.base_eq);
    fresh = λ i l. ground (arith, chunk_at-after i, v.fresh i, frame.next_eq);
    counted = omega (
      arith,
      outstanding-after,
      v.counted,
      gain,
      ap (count_below (unacked_at (store_acked w s))) frame.next_eq,
    );
    bounded = omega (arith, outstanding-after, v.bounded, frame.window_eq);
    span = omega (arith, v.span, frame.base_eq, frame.next_eq, frame.coverage_eq);
    queued = simp (frame.next_eq, store_acked-queue w s) v.queued;
    waiting = λ i p. ground (arith, chunk_at-after i, v.waiting i, store_acked-queue w s);
  }

-- One more chunk counts as acknowledged, if it has been selected.
pub acked_at-mark_acked :
    (w : SenderWindow) (s j : ℕ)
    → IsWindow w
    → acked_at (mark_acked w s) j ≡ (acked_at w j || (s == j && ltb s w.next_sequence))
acked_at-mark_acked w s j v = elim (mark_acked_cases w s) [
  | inl (e, why) ↦ rw e (unchanged why)
  | inr (e, sent, waits) ↦ rw e (ground (arith, acked_at-after w s v sent waits j))
]
  where
    unchanged :
        (w.next_sequence ≤ s) ⊎ (w.total_chunks ≤ s) ⊎ (acked_at w s ≡ true)
        → acked_at w j ≡ (acked_at w j || (s == j && ltb s w.next_sequence))
    unchanged why = elim (Bool-cases (s == j)) [
      | inl e ↦ let same : s ≡ j = ground arith in rw (← same) (ground (arith, v.next_le))
      | inr e ↦ ground arith
    ]

-- No chunk becomes pending.
pub pending_at-mark_acked :
    (w : SenderWindow) (s j : ℕ)
    → IsWindow w
    → pending_at (mark_acked w s) j ≡ true
    → pending_at w j ≡ true
pending_at-mark_acked w s j v = elim (mark_acked_cases w s) [
  | inl (e, why) ↦ rw e (λ p. p)
  | inr (e, sent, waits) ↦ rw e (λ p. ground (arith, chunk_at-after w s v sent waits j))
]

-- A chunk in flight stays in flight or is acknowledged.
pub in_flight_at-mark_acked :
    (w : SenderWindow) (s j : ℕ)
    → IsWindow w
    → (in_flight_at w j || acked_at w j) ≡ true
    → (in_flight_at (mark_acked w s) j || acked_at (mark_acked w s) j) ≡ true
in_flight_at-mark_acked w s j v = elim (mark_acked_cases w s) [
  | inl (e, why) ↦ rw e (λ h. h)
  | inr (e, sent, waits) ↦ rw e (λ h. ground (arith, chunk_at-after w s v sent waits j))
]

pub mark_acked-IsWindow : (w : SenderWindow) (s : ℕ) → IsWindow w → IsWindow (mark_acked w s)
mark_acked-IsWindow w s v = elim (mark_acked_cases w s) [
  | inl (e, why) ↦ rw e v
  | inr (e, sent, waits) ↦ rw e (store_acked-IsWindow w s v sent waits)
]

pub mark_acked-SameFrame : (w : SenderWindow) (s : ℕ) → SameFrame w (mark_acked w s)
mark_acked-SameFrame w s = elim (mark_acked_cases w s) [
  | inl (e, why) ↦ rw e (SameFrame-refl w)
  | inr (e, sent, waits) ↦ rw e (store_acked-SameFrame w s)
]
