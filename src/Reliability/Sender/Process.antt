-- ===== src/Reliability/Sender/Process.antt =====
-- `process_ack` of src/reliability.cpp as a whole.
use ee542_lab2_fast_reliable.Common.{
  ℕ, ◌+◌, ◌≤◌, ◌≡◌, ◌⊎◌, inl, inr, ap, true, ◌&&◌, ◌||◌, ltb, arith,
}
use ee542_lab2_fast_reliable.Common.Counting.{count_below, count_below-ext}
use ee542_lab2_fast_reliable.Protocol.Types.{AckPayload}
use ee542_lab2_fast_reliable.Reliability.Sender.{ack_prefix, ack_bitmap, advance_base, process_ack}
use ee542_lab2_fast_reliable.Reliability.State.{SenderWindow}
use ee542_lab2_fast_reliable.Reliability.Sender.Window.{
  in_flight_at, acked_at, pending_at, IsWindow,
}
use ee542_lab2_fast_reliable.Reliability.Sender.Sack.{Acknowledged, ack_covers, ack-Acknowledged}
use ee542_lab2_fast_reliable.Reliability.Sender.Queue.{Requeued}
use ee542_lab2_fast_reliable.Reliability.Sender.Advance.{
  IsSettled, IsTimed, advance_base_fields, chunk_at-advance_base, advance_base-IsWindow,
  advance_base-IsSettled, advance_base-IsTimed, Requeued-IsSettled, SameFrame-IsTimed,
}
use ee542_lab2_fast_reliable.Reliability.Sender.Scan.{scan_evidence-Requeued, scan_evidence_three}

module _ (w : SenderWindow) (ack : AckPayload) (now : ℕ) (v : IsWindow w) where
  marked : SenderWindow
  marked = ack_bitmap ack (ack_prefix ack w)

  acknowledged : Acknowledged w marked (λ j. ack_covers ack j && ltb j w.next_sequence)
  unfolding marked
  acknowledged = ack-Acknowledged w ack v

  moved : SenderWindow
  moved = advance_base marked now

  moved-IsWindow : IsWindow moved
  unfolding moved
  moved-IsWindow = advance_base-IsWindow marked now acknowledged.valid

  scanned : Requeued moved (process_ack w ack now)
  unfolding process_ack moved marked
  scanned = scan_evidence-Requeued moved now moved-IsWindow

  -- The invariant is kept.
  pub process_ack-IsWindow : IsWindow (process_ack w ack now)
  process_ack-IsWindow = scanned.valid

  pub next_sequence-process_ack : (process_ack w ack now).next_sequence ≡ w.next_sequence
  unfolding moved
  next_sequence-process_ack =
      omega
        (arith, scanned.frame.next_eq, advance_base_fields marked now, acknowledged.frame.next_eq)

  pub process_ack-Limits :
      ((process_ack w ack now).total_chunks ≡ w.total_chunks)
      × ((process_ack w ack now).logical_window_chunks ≡ w.logical_window_chunks)
      × ((process_ack w ack now).sack_coverage_chunks ≡ w.sack_coverage_chunks)
  unfolding moved
  process_ack-Limits =
      let a = acknowledged.frame in
      let f = scanned.frame in
      omega (
        arith,
        advance_base_fields marked now,
        a.total_eq,
        a.window_eq,
        a.coverage_eq,
        f.total_eq,
        f.window_eq,
        f.coverage_eq,
      )

  -- A chunk that is in flight or acknowledged is so after any ACK.
  pub issued-process_ack :
      (j : ℕ)
      → (in_flight_at w j || acked_at w j) ≡ true
      → (in_flight_at (process_ack w ack now) j || acked_at (process_ack w ack now) j) ≡ true
  unfolding moved
  issued-process_ack j h =
      ground (arith, scanned.same j, chunk_at-advance_base marked now j, acknowledged.issued j h)

  -- For a well-formed window: after any ACK a chunk is acknowledged exactly if it was before, or
  -- the ACK covers it (by its cumulative number, or by a bitmap bit that both the bit count and the
  -- bytes contain, below its largest received number) and the window has selected it.
  pub acked_at-process_ack :
      (j : ℕ)
      → acked_at (process_ack w ack now) j
        ≡ (acked_at w j || (ack_covers ack j && ltb j w.next_sequence))
  unfolding moved
  acked_at-process_ack j =
      ground (arith, scanned.same j, chunk_at-advance_base marked now j, acknowledged.marks j)

  -- For a well-formed window, whatever the ACK: afterwards the base is the first chunk that is not
  -- acknowledged, or the end of the transfer.
  pub process_ack-IsSettled : IsSettled (process_ack w ack now)
  unfolding moved
  process_ack-IsSettled =
      Requeued-IsSettled moved (process_ack w ack now) scanned
        (advance_base-IsSettled marked now acknowledged.valid)

  -- For a well-formed window whose total stall time is the signed time from `begin` to its last
  -- advance: the same holds after an ACK, at whatever time it is processed.
  pub process_ack-IsTimed : (begin : ℕ) → IsTimed begin w → IsTimed begin (process_ack w ack now)
  unfolding moved
  process_ack-IsTimed begin h =
      SameFrame-IsTimed begin moved (process_ack w ack now) scanned.frame (
        advance_base-IsTimed begin marked now
          (SameFrame-IsTimed begin w marked acknowledged.frame h))

  -- For a well-formed window: a chunk that waits for retransmission after an ACK waited before it,
  -- or at least three chunks with larger numbers are acknowledged.
  pub process_ack_three :
      (j : ℕ)
      → pending_at (process_ack w ack now) j ≡ true
      → (pending_at w j ≡ true)
        ⊎ (count_below (acked_at (process_ack w ack now)) (j + 1) + 3
            ≤ count_below (acked_at (process_ack w ack now)) (process_ack w ack now).next_sequence)
  unfolding moved
  process_ack_three j p = elim (three p) [
    | inl old ↦ inl (acknowledged.pendings j (ground (arith, chunk_at-advance_base marked now j)))
    | inr new ↦ inr (
        omega (
          arith,
          new,
          same_count (j + 1),
          same_count moved.next_sequence,
          ap (count_below (acked_at (process_ack w ack now))) scanned.frame.next_eq,
        ))
  ]
    where
      same_count :
          (n : ℕ)
          → count_below (acked_at (process_ack w ack now)) n ≡ count_below (acked_at moved) n
      same_count n = count_below-ext _ _ n (λ i l. rw (scanned.same i))

      three :
          pending_at (process_ack w ack now) j ≡ true
          → (pending_at moved j ≡ true)
            ⊎ (count_below (acked_at moved) (j + 1) + 3
                ≤ count_below (acked_at moved) moved.next_sequence)
      three = unfold process_ack moved marked in scan_evidence_three moved now j moved-IsWindow
