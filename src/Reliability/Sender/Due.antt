-- ===== src/Reliability/Sender/Due.antt =====
-- When `SenderWindow` of src/reliability.cpp has something to send.
use ee542_lab2_fast_reliable.Common.{
  ℕ, ◌+◌, ◌≤◌, ◌<◌, ◌≡◌, ◌⊎◌, inl, inr, refl, ◌∙◌, true, false, ltb, Bool-cases, ltb→lt, ltb→ge,
  arith, some,
}
use ee542_lab2_fast_reliable.Common.Counting.{count_below_none}
use ee542_lab2_fast_reliable.Reliability.State.{SenderWindow, SendDecision, chunk_at}
use ee542_lab2_fast_reliable.Reliability.Sender.{
  is_acked_at, select_next_packet, check_timeouts, all_acked,
}
use ee542_lab2_fast_reliable.Reliability.Sender.Window.{
  acked_at, in_flight_at, pending_at, unacked_at, IsWindow,
}
use ee542_lab2_fast_reliable.Reliability.Sender.Queue.{Requeued}
use ee542_lab2_fast_reliable.Reliability.Sender.Issued.{IsIssued}
use ee542_lab2_fast_reliable.Reliability.Sender.Advance.{IsSettled}
use ee542_lab2_fast_reliable.Reliability.Sender.Timeouts.{
  check_timeouts-Requeued, pending_at-check_timeouts,
}
use ee542_lab2_fast_reliable.Reliability.Sender.Select.{select_next_packet_cases, SendsNothing}

-- The last transmission of every chunk in flight is `rto` old.
abbrev pub IsTimedOut : SenderWindow → ℕ → ℕ → Type 0
IsTimedOut w now rto = (j : ℕ) → in_flight_at w j ≡ true → (chunk_at w j).last_sent_time + rto ≤ now

module _ (w : SenderWindow) (now rto : ℕ) (v : IsWindow w) (s : IsSettled w) (issued : IsIssued w)
    (late : IsTimedOut w now rto) (open_window : 0 < w.logical_window_chunks)
    (rest : all_acked w ≡ false) where
  base-lt : w.base < w.total_chunks
  unfolding all_acked
  base-lt = ground (arith, rest, v.base_le, v.next_le)

  base_waits : acked_at w w.base ≡ false
  base_waits = unfold is_acked_at in ground (arith, s.stopped, base-lt)

  -- A hole at the base is due for retransmission.
  base_due : w.base < w.next_sequence → pending_at (check_timeouts w now rto) w.base ≡ true
  base_due h =
      let flying : in_flight_at w w.base ≡ true = ground (arith, issued w.base h, base_waits) in
      ground (arith, pending_at-check_timeouts w now rto w.base v, flying, late w.base flying)

  -- Without a hole nothing is outstanding, and the window is open.
  nothing_impossible : (w' : SenderWindow) → SendsNothing (check_timeouts w now rto) w' → ⊥
  nothing_impossible w' (idle, shut, _, _, _) = elim (Bool-cases (ltb w.base w.next_sequence)) [
    | inl e ↦ cc (idle w.base, base_due (ltb→lt _ _ e))
    | inr e ↦ open_at (ltb→ge _ _ e) shut
  ]
    where
      checked : SenderWindow
      checked = check_timeouts w now rto

      r : Requeued w checked
      r = check_timeouts-Requeued w now rto v

      none_outstanding : w.next_sequence ≤ w.base → checked.outstanding_chunks ≡ 0
      none_outstanding h =
          r.valid.counted
          ∙ count_below_none (unacked_at checked) checked.next_sequence (λ i l.
            ground (arith, r.valid.prefix i (omega (arith, r.frame.base_eq, r.frame.next_eq))))

      open_at :
          w.next_sequence ≤ w.base
          → (checked.total_chunks ≤ checked.next_sequence)
            ⊎ (checked.logical_window_chunks ≤ checked.outstanding_chunks)
            ⊎ (checked.base + checked.sack_coverage_chunks ≤ checked.next_sequence)
          → ⊥
      open_at n (inl h) = omega (arith, r.frame.total_eq, r.frame.next_eq, base-lt)
      open_at n (inr (inl h)) = omega (arith, r.frame.window_eq, none_outstanding n)
      open_at n (inr (inr h)) =
          omega (arith, r.frame.base_eq, r.frame.coverage_eq, r.frame.next_eq, v.covered)

  pub select_next_packet-check_timeouts :
      (d : SendDecision) × ((select_next_packet (check_timeouts w now rto)).0 ≡ some d)
  select_next_packet-check_timeouts =
      elim (select_next_packet_cases (check_timeouts w now rto)
        (check_timeouts-Requeued w now rto v).valid) [
          | inl (d, w', e, r) ↦ (d, rw e refl)
          | inr (inl (d, w', e, r)) ↦ (d, rw e refl)
          | inr (inr (w', e, r)) ↦ absurd (nothing_impossible w' r)
        ]
