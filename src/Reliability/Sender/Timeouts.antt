-- ===== src/Reliability/Sender/Timeouts.antt =====
-- `check_timeouts` of src/reliability.cpp.
use ee542_lab2_fast_reliable.Common.{
  ℕ, ◌+◌, ◌-◌, ◌≤◌, ◌≡◌, ◌⊎◌, inl, inr, refl, Bool, true, false, not, ◌&&◌, ◌||◌, ◌==◌, ltb, leb,
  arith, ◌∙◌, Bool-cases, for_range_inv,
}
use ee542_lab2_fast_reliable.Reliability.Sender.{timeout_round, check_timeouts}
use ee542_lab2_fast_reliable.Reliability.State.{SenderWindow, chunk_at}
use ee542_lab2_fast_reliable.Reliability.Sender.Window.{in_flight_at, pending_at, IsWindow}
use ee542_lab2_fast_reliable.Reliability.Sender.Queue.{
  Requeued, Requeued-refl, Requeued-trans, queue_retransmission-Requeued,
  pending_at-queue_retransmission, in_flight-lt, last_sent-queue_retransmission,
}

-- A chunk in flight whose last transmission is `rto` old.
abbrev pub timed_out : SenderWindow → ℕ → ℕ → ℕ → Bool
timed_out w now rto j = in_flight_at w j && leb ((chunk_at w j).last_sent_time + rto) now

record Checked (w : SenderWindow) (now rto k : ℕ) (w' : SenderWindow) : Type 0 where
  kept : Requeued w w'
  times : (j : ℕ) → (chunk_at w' j).last_sent_time ≡ (chunk_at w j).last_sent_time
  marks :
      (j : ℕ)
      → pending_at w' j ≡ (pending_at w j || (leb w.base j && ltb j k && timed_out w now rto j))

timeout_round-Checked :
    (w w' : SenderWindow) (now rto k : ℕ)
    → w.base ≤ k
    → Checked w now rto k w'
    → Checked w now rto (k + 1) (timeout_round now rto k w')
unfolding timeout_round
timeout_round-Checked w w' now rto k b c =
    elim (Bool-cases (
      in_flight_at w' k
      && not (pending_at w' k)
      && leb ((chunk_at w' k).last_sent_time + rto) now)) [
        | inl e ↦ rw e (record {
          kept = Requeued-trans c.kept (queue_retransmission-Requeued w' k false c.kept.valid);
          times = λ j. last_sent-queue_retransmission w' k j false c.kept.valid ∙ c.times j;
          marks = λ j.
              marked j (ground (arith, c.kept.same k, c.times k))
                (ground (arith, pending_at-queue_retransmission w' k j false c.kept.valid));
        })
        | inr e ↦ rw e (record {
          kept = c.kept;
          times = c.times;
          marks = idle (ground (arith, c.kept.same k, c.times k));
        })
      ]
  where
    marked :
        (j : ℕ) {p : Bool}
        → timed_out w now rto k ≡ true
        → p ≡ (pending_at w' j || k == j)
        → p ≡ (pending_at w j || (leb w.base j && ltb j (k + 1) && timed_out w now rto j))
    marked j t e = elim (Bool-cases (k == j)) [
      | inl s ↦ let same : k ≡ j = ground arith in rw (← same) (ground arith)
      | inr s ↦ ground (arith, c.marks j)
    ]

    idle :
        (timed_out w now rto k ≡ false) ⊎ (pending_at w' k ≡ true)
        → (j : ℕ)
        → pending_at w' j
          ≡ (pending_at w j || (leb w.base j && ltb j (k + 1) && timed_out w now rto j))
    idle why j = elim (Bool-cases (k == j)) [
      | inl s ↦ let same : k ≡ j = ground arith in rw (← same) (ground (arith, c.marks k))
      | inr s ↦ ground (arith, c.marks j)
    ]

checked :
    (w : SenderWindow) (now rto : ℕ)
    → IsWindow w
    → Checked w now rto w.next_sequence (check_timeouts w now rto)
unfolding check_timeouts
checked w now rto v =
    for_range_inv (Checked w now rto) (timeout_round now rto) w.base w.next_sequence
      (λ i s b h c. timeout_round-Checked w s now rto i b c) (w.next_sequence - w.base) w.base w
      (omega arith) (omega (arith, v.base_le))
      (record { kept = Requeued-refl w v; times = λ j. refl; marks = λ j. ground arith })

pub check_timeouts-Requeued :
    (w : SenderWindow) (now rto : ℕ) → IsWindow w → Requeued w (check_timeouts w now rto)
check_timeouts-Requeued w now rto v = (checked w now rto v).kept

-- For a well-formed window: after `check_timeouts` exactly those chunks wait for retransmission
-- that waited before or are in flight with a last transmission at least `rto` old.
pub pending_at-check_timeouts :
    (w : SenderWindow) (now rto j : ℕ)
    → IsWindow w
    → pending_at (check_timeouts w now rto) j ≡ (pending_at w j || timed_out w now rto j)
pending_at-check_timeouts w now rto j v =
    ground (arith, (checked w now rto v).marks j, in_flight-lt w j v, v.prefix j)
