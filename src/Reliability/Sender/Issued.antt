-- ===== src/Reliability/Sender/Issued.antt =====
-- Selected chunks of `SenderWindow` in src/reliability.cpp that have been sent.
use ee542_lab2_fast_reliable.Common.{
  ℕ, ◌<◌, ◌≡◌, ◌||◌, ◌==◌, ==→eq, Bool, true, inl, inr, arith, some, none, Bool-cases, ok,
}
use ee542_lab2_fast_reliable.Protocol.Types.{AckPayload}
use ee542_lab2_fast_reliable.Reliability.State.{SenderWindow, SendDecision}
use ee542_lab2_fast_reliable.Reliability.Sender.{
  select_next_packet, mark_sent, process_ack, check_timeouts,
}
use ee542_lab2_fast_reliable.Reliability.Sender.Window.{acked_at, in_flight_at, IsWindow}
use ee542_lab2_fast_reliable.Reliability.Sender.Process.{
  issued-process_ack, next_sequence-process_ack,
}
use ee542_lab2_fast_reliable.Reliability.Sender.Timeouts.{check_timeouts-Requeued}
use ee542_lab2_fast_reliable.Reliability.Sender.Select.{select_next_packet_cases}
use ee542_lab2_fast_reliable.Reliability.Sender.Sent.{mark_sent_cases}

abbrev pub is_issued_at : SenderWindow → ℕ → Bool
is_issued_at w j = in_flight_at w j || acked_at w j

-- Every chunk that has been selected is in flight or acknowledged.
abbrev pub IsIssued : SenderWindow → Type 0
IsIssued w = (j : ℕ) → j < w.next_sequence → is_issued_at w j ≡ true

module _ (w : SenderWindow) (v : IsWindow w) (issued : IsIssued w) where
  pub process_ack-IsIssued : (ack : AckPayload) (now : ℕ) → IsIssued (process_ack w ack now)
  process_ack-IsIssued ack now j h =
      issued-process_ack w ack now v j
        (issued j (omega (arith, next_sequence-process_ack w ack now v)))

  pub check_timeouts-IsIssued : (now rto : ℕ) → IsIssued (check_timeouts w now rto)
  check_timeouts-IsIssued now rto j h =
      let r = check_timeouts-Requeued w now rto v in
      ground (arith, r.same j, issued j (omega (arith, r.frame.next_eq)))

  -- When nothing is selected, nothing has changed.
  pub select_none-IsIssued : (select_next_packet w).0 ≡ none → IsIssued (select_next_packet w).1
  select_none-IsIssued n = elim (select_next_packet_cases w v) [
    | inl (d, w', e, r) ↦ absurd (cc (rw e at n))
    | inr (inl (d, w', e, r)) ↦ absurd (cc (rw e at n))
    | inr (inr (w', e, (_, _, next, _, (same, _, _, _, _, _, _)))) ↦
        rw e (λ j h. ground (arith, same j, issued j (omega (arith, next))))
  ]

  -- The selected chunk aside, all are in flight or acknowledged.
  others :
      (d : SendDecision)
      → (select_next_packet w).0 ≡ some d
      → (j : ℕ) → j < (select_next_packet w).1.next_sequence
      → (d.sequence == j || is_issued_at (select_next_packet w).1 j) ≡ true
  others d n j = elim (select_next_packet_cases w v) [
    | inl (d', w', e, (_, _, _, _, r)) ↦
        rw e (λ h. ground (arith, r.same j, issued j (omega (arith, r.frame.next_eq))))
    | inr (inl (d', w', e, (_, _, at_next, _, _, _, next, _, _, (same, _, _, _, _, _, _)))) ↦
        let is_d : d' ≡ d = cc (rw e at n) in
        rw (e, ← is_d) (λ h. ground (arith, same j, at_next, next, issued j))
    | inr (inr (w', e, r)) ↦ absurd (cc (rw e at n))
  ]

  -- A selected chunk that is marked as sent.
  pub mark_sent-IsIssued :
      (d : SendDecision) (time : ℕ) (w'' : SenderWindow)
      → IsWindow (select_next_packet w).1
      → (select_next_packet w).0 ≡ some d
      → mark_sent (select_next_packet w).1 d.sequence time ≡ ok w''
      → IsIssued w''
  mark_sent-IsIssued d time w'' v' n m =
      elim (mark_sent_cases (select_next_packet w).1 d.sequence time v') [
        | inl (w3, e, _, _, (_, frame, flying, _, same, _, _)) ↦
            let is_w : w3 ≡ w'' = cc in
            rw (← is_w) (λ j h. elim (Bool-cases (d.sequence == j)) [
              | inl q ↦ ground (arith, flying, ==→eq _ _ q)
              | inr q ↦ ground (arith, same j, others d n j (omega (arith, frame.next_eq)))
            ])
        | inr (e, why) ↦ absurd (cc)
      ]
