-- ===== src/Reliability/Sender/Marks.antt =====
-- The acknowledged chunks of `SenderWindow` in src/reliability.cpp, which only `process_ack` changes.
use ee542_lab2_fast_reliable.Common.{ℕ, ◌<◌, ◌≡◌, inl, inr, ap, false, arith, some}
use ee542_lab2_fast_reliable.Reliability.State.{SenderWindow, SendDecision}
use ee542_lab2_fast_reliable.Reliability.Sender.{select_next_packet, check_timeouts}
use ee542_lab2_fast_reliable.Reliability.Sender.Window.{acked_at, IsWindow}
use ee542_lab2_fast_reliable.Reliability.Sender.Queue.{in_flight-lt}
use ee542_lab2_fast_reliable.Reliability.Sender.Timeouts.{check_timeouts-Requeued}
use ee542_lab2_fast_reliable.Reliability.Sender.Select.{select_next_packet_cases}

module _ (w : SenderWindow) (v : IsWindow w) where
  pub acked_at-select_next_packet : (j : ℕ) → acked_at (select_next_packet w).1 j ≡ acked_at w j
  acked_at-select_next_packet j = elim (select_next_packet_cases w v) [
    | inl (d, w', e, r) ↦ rw e (rw (r.4.same j))
    | inr (inl (d, w', e, r)) ↦ rw e (rw (r.9.0 j))
    | inr (inr (w', e, r)) ↦ rw e (rw (r.4.0 j))
  ]

  pub acked_at-check_timeouts :
      (now rto j : ℕ) → acked_at (check_timeouts w now rto) j ≡ acked_at w j
  acked_at-check_timeouts now rto j = rw ((check_timeouts-Requeued w now rto v).same j)

  -- A decision is for a chunk of the transfer.
  pub select_next_packet-lt :
      (d : SendDecision) → (select_next_packet w).0 ≡ some d → d.sequence < w.total_chunks
  select_next_packet-lt d h = elim (select_next_packet_cases w v) [
    | inl (d', w', e, r) ↦
        let same : d' ≡ d = cc (rw e at h) in
        let below = in_flight-lt w d'.sequence v r.1 in
        omega (arith, ap (λ x. x.sequence) same, v.next_le)
    | inr (inl (d', w', e, r)) ↦
        let same : d' ≡ d = cc (rw e at h) in omega (arith, ap (λ x. x.sequence) same, r.2, r.3)
    | inr (inr (w', e, r)) ↦ absurd (cc (rw e at h))
  ]

  -- It has been selected, and is not acknowledged.
  pub select_next_packet-unacked :
      (d : SendDecision)
      → (select_next_packet w).0 ≡ some d
      → (d.sequence < (select_next_packet w).1.next_sequence)
        × (acked_at (select_next_packet w).1 d.sequence ≡ false)
  select_next_packet-unacked d h = elim (select_next_packet_cases w v) [
    | inl (d', w', e, r) ↦
        let same : d' ≡ d = cc (rw e at h) in
        let below = in_flight-lt w d'.sequence v r.1 in
        rw (e, ← same)
          (omega (arith, below, r.4.frame.next_eq), ground (arith, r.1, r.4.same d'.sequence))
    | inr (inl (d', w', e, r)) ↦
        let same : d' ≡ d = cc (rw e at h) in
        rw (e, ← same)
          (
            omega (arith, r.2, r.6),
            ground (arith, r.9.0 d'.sequence, v.fresh d'.sequence (omega (arith, r.2))),
          )
    | inr (inr (w', e, r)) ↦ absurd (cc (rw e at h))
  ]
