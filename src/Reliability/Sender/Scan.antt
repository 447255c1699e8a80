-- ===== src/Reliability/Sender/Scan.antt =====
-- The scan of `process_ack` for chunks that later SACKs show to be missing.
use ee542_lab2_fast_reliable.Common.{
  ℕ, ◌+◌, ◌-◌, ◌≤◌, ◌<◌, ◌≡◌, ◌⊎◌, inl, inr, refl, true, false, arith, Bool-cases, for_down,
  for_down_inv, inc32, inc32_fits,
}
use ee542_lab2_fast_reliable.Common.Counting.{count_below, count_below_suc, count_below-le}
use ee542_lab2_fast_reliable.Reliability.Sender.{
  wants_fast_retransmit, scan_in_flight, scan_round, scan_evidence,
}
use ee542_lab2_fast_reliable.Reliability.State.{
  SenderWindow, ChunkState, PacketState, unsent, in_flight, acked, chunk_at, put_chunk,
}
use ee542_lab2_fast_reliable.Reliability.Sender.Window.{
  acked_at, in_flight_at, pending_at, IsWindow,
}
use ee542_lab2_fast_reliable.Reliability.Sender.Queue.{
  Requeued, Requeued-refl, Requeued-trans, put_chunk-Requeued, pending_at-put_chunk,
  queue_retransmission-Requeued, pending_at-queue_retransmission, in_flight-lt,
}

-- The scan's state at chunk `i`: `later` counts the acknowledged chunks from `i` on, and a chunk
-- that has become pending has three of them behind it.
record Scanned (w : SenderWindow) (i : ℕ) (s : SenderWindow × ℕ) : Type 0 where
  kept : Requeued w s.0
  later : s.1 + count_below (acked_at w) i ≡ count_below (acked_at w) w.next_sequence
  evidence :
      (j : ℕ)
      → pending_at s.0 j ≡ true
      → (pending_at w j ≡ true)
        ⊎ (count_below (acked_at w) (j + 1) + 3 ≤ count_below (acked_at w) w.next_sequence)

wants_three :
    (c : ChunkState) (later now : ℕ) → wants_fast_retransmit c later now ≡ true → 3 ≤ later
unfolding wants_fast_retransmit
wants_three c later now h = ground arith

abbrev seen : SenderWindow → ℕ → ℕ → SenderWindow
seen w s later = put_chunk w s (record (chunk_at w s) { latest_later_acked = later })

module _ (w w' : SenderWindow) (s later now : ℕ) (flies : in_flight_at w' s ≡ true)
    (a : Scanned w (s + 1) (w', later)) where
  in_range : s < w'.next_sequence
  in_range = in_flight-lt w' s a.kept.valid flies

  seen-Requeued : Requeued w' (seen w' s later)
  seen-Requeued = put_chunk-Requeued w' s _ a.kept.valid in_range refl refl

  scan_in_flight-Requeued : Requeued w' (scan_in_flight now s later w')
  unfolding scan_in_flight
  scan_in_flight-Requeued = elim (Bool-cases (wants_fast_retransmit (chunk_at w' s) later now)) [
    | inl e ↦ rw e (
        Requeued-trans seen-Requeued
          (queue_retransmission-Requeued (seen w' s later) s true seen-Requeued.valid))
    | inr e ↦ rw e seen-Requeued
  ]

  pending_at-scan_in_flight :
      (j : ℕ)
      → pending_at (scan_in_flight now s later w') j ≡ true
      → (pending_at w' j ≡ true) ⊎ ((s ≡ j) × (3 ≤ later))
  unfolding scan_in_flight
  pending_at-scan_in_flight j p = ground (
    arith,
    wants_three (chunk_at w' s) later now,
    pending_at-queue_retransmission (seen w' s later) s j true seen-Requeued.valid,
    pending_at-put_chunk w' s j (record (chunk_at w' s) { latest_later_acked = later }) a.kept.valid
        in_range refl,
  )

  not_acked : acked_at w s ≡ false
  not_acked = ground (arith, a.kept.same s)

  scan_in_flight-Scanned : Scanned w s (scan_in_flight now s later w', later)
  scan_in_flight-Scanned = record {
    kept = Requeued-trans a.kept scan_in_flight-Requeued;
    later = ground (arith, a.later, count_below_suc (acked_at w) s, not_acked);
    evidence = λ j p. elim (pending_at-scan_in_flight j p) [
      | inl old ↦ a.evidence j old
      | inr (here, three) ↦ inr (rw (← here) (omega (arith, a.later, three)))
    ];
  }

scan_round-Scanned :
    (w w' : SenderWindow) (s later now : ℕ)
    → IsWindow w
    → s < w.next_sequence
    → Scanned w (s + 1) (w', later)
    → Scanned w s (scan_round now s (w', later))
unfolding scan_round
scan_round-Scanned w w' s later now v h a = by_state (chunk_at w' s).state refl
  where
    by_state :
        (t : PacketState) → (chunk_at w' s).state ≡ t → Scanned w s (scan_round now s (w', later))
    by_state unsent e =
        rw (e, scan_round)
          (record {
            kept = a.kept;
            later = ground (arith, a.later, count_below_suc (acked_at w) s, a.kept.same s);
            evidence = a.evidence;
          })
    by_state in_flight e = rw (e, scan_round) (scan_in_flight-Scanned w w' s later now (rw e) a)
    by_state acked e =
        let one : later + 1 + count_below (acked_at w) s
            ≡ count_below (acked_at w) w.next_sequence =
          ground (arith, a.later, count_below_suc (acked_at w) s, a.kept.same s) in
        let next : inc32 later ≡ later + 1 =
          inc32_fits later
            (omega (arith, one, count_below-le (acked_at w) w.next_sequence, v.next_le, v.fits)) in
        rw (e, scan_round, next) (record { kept = a.kept; later = one; evidence = a.evidence })

scan-Scanned :
    (w : SenderWindow) (now : ℕ)
    → IsWindow w
    → Scanned w w.base (for_down (w.next_sequence - w.base) w.base (scan_round now) (w, 0))
scan-Scanned w now v =
    for_down_inv (Scanned w) (scan_round now) w.base w.next_sequence
      (λ i s b h a. scan_round-Scanned w s.0 i s.1 now v h a) (w.next_sequence - w.base)
      w.next_sequence (w, 0) (omega (arith, v.base_le)) (omega arith)
      (record { kept = Requeued-refl w v; later = omega arith; evidence = λ j p. inl p })

pub scan_evidence-Requeued :
    (w : SenderWindow) (now : ℕ) → IsWindow w → Requeued w (scan_evidence now w)
unfolding scan_evidence
scan_evidence-Requeued w now v = (scan-Scanned w now v).kept

-- A chunk that the scan makes pending has three acknowledged chunks behind it.
pub scan_evidence_three :
    (w : SenderWindow) (now j : ℕ)
    → IsWindow w
    → pending_at (scan_evidence now w) j ≡ true
    → (pending_at w j ≡ true)
      ⊎ (count_below (acked_at w) (j + 1) + 3 ≤ count_below (acked_at w) w.next_sequence)
unfolding scan_evidence
scan_evidence_three w now j v = (scan-Scanned w now v).evidence j
