-- ===== src/Reliability/Sender/History.antt =====
-- Sequences of calls on `SenderWindow` of src/reliability.cpp.
use ee542_lab2_fast_reliable.Common.{
  ℕ, ◌^◌, ◌≤◌, ◌<◌, ◌≡◌, ◌↔◌, inl, inr, refl, sym, ◌∙◌, true, List, [], ◌∷◌, arith, ltb, Bool-cases,
  length-replicate, get_or-replicate, Result, ok, err, Exception, ==→eq, eq→==, ltb→ge,
}
use ee542_lab2_fast_reliable.Common.Counting.{count_below_none}
use ee542_lab2_fast_reliable.Protocol.Types.{AckPayload}
use ee542_lab2_fast_reliable.Reliability.Sender.{
  is_acked_at, select_next_packet, mark_sent, process_ack, check_timeouts, all_acked,
}
use ee542_lab2_fast_reliable.Reliability.State.{
  SenderWindow, ChunkState, new_chunk, new_sender, fresh_window, chunk_at,
}
use ee542_lab2_fast_reliable.Reliability.Sender.Window.{acked_at, IsWindow, SameFrame}
use ee542_lab2_fast_reliable.Reliability.Sender.Queue.{Requeued}
use ee542_lab2_fast_reliable.Reliability.Sender.Advance.{
  IsSettled, IsTimed, SameFrame-IsSettled, SameFrame-IsTimed,
}
use ee542_lab2_fast_reliable.Reliability.Sender.Process.{
  process_ack-IsWindow, process_ack-IsSettled, process_ack-IsTimed, process_ack-Limits,
}
use ee542_lab2_fast_reliable.Reliability.Sender.Timeouts.{check_timeouts-Requeued}
use ee542_lab2_fast_reliable.Reliability.Sender.Select.{select_next_packet_cases, Unmoved}
use ee542_lab2_fast_reliable.Reliability.Sender.Sent.{mark_sent_cases}

pub data Call : Type 0 where
  selects : Call
  sends : ℕ → ℕ → Call
  receives : AckPayload → ℕ → Call
  checks : ℕ → ℕ → Call

-- A call that throws leaves the window as it was.
abbrev after : SenderWindow → Result Exception SenderWindow → SenderWindow
after w (ok w') = w'
after w (err e) = w

unfoldable pub step : SenderWindow → Call → SenderWindow
step w selects = (select_next_packet w).1
step w (sends sequence time) = after w (mark_sent w sequence time)
step w (receives ack now) = process_ack w ack now
step w (checks now rto) = check_timeouts w now rto

unfoldable pub run : SenderWindow → List Call → SenderWindow
run w [] = w
run w (c ∷ cs) = run (step w c) cs

-- What holds between any two calls on a window that was made at time `begin`.
pub record IsLive (total window coverage begin : ℕ) (w : SenderWindow) : Type 0 where
  pub valid : IsWindow w
  pub settled : IsSettled w
  pub timed : IsTimed begin w
  pub total_is : w.total_chunks ≡ total
  pub window_is : w.logical_window_chunks ≡ window
  pub coverage_is : w.sack_coverage_chunks ≡ coverage

module _ (total window coverage begin : ℕ) where
  SameFrame-IsLive :
      (w w' : SenderWindow)
      → IsLive total window coverage begin w
      → IsWindow w'
      → SameFrame w w'
      → ((j : ℕ) → acked_at w' j ≡ acked_at w j)
      → IsLive total window coverage begin w'
  SameFrame-IsLive w w' l v f marks = record {
    valid = v;
    settled = SameFrame-IsSettled w w' f marks l.settled;
    timed = SameFrame-IsTimed begin w w' f l.timed;
    total_is = f.total_eq ∙ l.total_is;
    window_is = f.window_eq ∙ l.window_is;
    coverage_is = f.coverage_eq ∙ l.coverage_is;
  }

  Requeued-IsLive :
      (w w' : SenderWindow)
      → IsLive total window coverage begin w
      → Requeued w w'
      → IsLive total window coverage begin w'
  Requeued-IsLive w w' l r = SameFrame-IsLive w w' l r.valid r.frame (λ j. rw (r.same j))

  Unmoved-IsLive :
      (w w' : SenderWindow)
      → IsLive total window coverage begin w
      → IsWindow w'
      → Unmoved w w'
      → IsLive total window coverage begin w'
  Unmoved-IsLive w w' l v (chunks, base, total_eq, window_eq, coverage_eq, time, stall) = record {
    valid = v;
    settled = record {
      from = omega arith;
      passed = λ j p q. same j ∙ l.settled.passed j p (omega (arith, base));
      stopped = same _ ∙ rw base l.settled.stopped;
    };
    timed = rw (stall, time) l.timed;
    total_is = total_eq ∙ l.total_is;
    window_is = window_eq ∙ l.window_is;
    coverage_is = coverage_eq ∙ l.coverage_is;
  }
    where
      same : (j : ℕ) → is_acked_at w' j ≡ is_acked_at w j
      same j = unfold is_acked_at in ground (arith, chunks j, total_eq)

  select-IsLive :
      (w : SenderWindow)
      → IsLive total window coverage begin w
      → IsLive total window coverage begin (select_next_packet w).1
  select-IsLive w l = elim (select_next_packet_cases w l.valid) [
    | inl (d, w', e, r) ↦ rw e (Requeued-IsLive w w' l r.4)
    | inr (inl (d, w', e, r)) ↦ rw e (Unmoved-IsLive w w' l r.8 r.9)
    | inr (inr (w', e, r)) ↦ rw e (Unmoved-IsLive w w' l r.3 r.4)
  ]

  pub step-IsLive :
      (w : SenderWindow) (c : Call)
      → IsLive total window coverage begin w
      → IsLive total window coverage begin (step w c)
  unfolding step
  step-IsLive w selects l = select-IsLive w l
  step-IsLive w (sends sequence time) l = elim (mark_sent_cases w sequence time l.valid) [
    | inl (w', e, _, _, (v, f, _, _, _, marks, _)) ↦ rw e (SameFrame-IsLive w w' l v f marks)
    | inr (e, why) ↦ rw e l
  ]
  step-IsLive w (receives ack now) l =
      let (t, g, c) = process_ack-Limits w ack now l.valid in
      record {
        valid = process_ack-IsWindow w ack now l.valid;
        settled = process_ack-IsSettled w ack now l.valid;
        timed = process_ack-IsTimed w ack now l.valid begin l.timed;
        total_is = t ∙ l.total_is;
        window_is = g ∙ l.window_is;
        coverage_is = c ∙ l.coverage_is;
      }
  step-IsLive w (checks now rto) l =
      Requeued-IsLive w _ l (check_timeouts-Requeued w now rto l.valid)

  run-IsLive :
      (w : SenderWindow) (cs : List Call)
      → IsLive total window coverage begin w
      → IsLive total window coverage begin (run w cs)
  unfolding run
  run-IsLive w [] l = l
  run-IsLive w (c ∷ cs) l = run-IsLive (step w c) cs (step-IsLive w c l)

-- A fresh window is live.
pub fresh_window-IsLive :
    (total window coverage now : ℕ)
    → total < 2 ^ 32
    → window ≤ coverage
    → IsLive total window coverage now (fresh_window total window coverage now)
fresh_window-IsLive total window coverage now h c = record {
  valid = record {
    fits = h;
    size = length-replicate {A = ChunkState} total new_chunk;
    covered = c;
    base_le = omega arith;
    next_le = omega arith;
    prefix = λ i l. absurd (omega arith);
    fresh = λ i l. rw (new i);
    counted = sym (count_below_none _ 0 (λ i l. absurd (omega arith)));
    bounded = omega arith;
    span = omega arith;
    queued = tt;
    waiting = λ i p. absurd (ground (arith, new i));
  };
  settled = record {
    from = omega arith;
    passed = λ j p q. absurd (omega arith);
    stopped = unfold is_acked_at in ground (arith, new 0);
  };
  timed = ground arith;
  total_is = refl;
  window_is = refl;
  coverage_is = refl;
}
  where
    new : (i : ℕ) → chunk_at (fresh_window total window coverage now) i ≡ new_chunk
    new i = unfold chunk_at in get_or-replicate {A = ChunkState} total i new_chunk

-- The constructor returns a window exactly if the window size is at least 1 and at most the SACK
-- coverage, and then the fresh one.
pub new_sender_iff :
    (total window coverage now : ℕ) (w : SenderWindow)
    → (new_sender total window coverage now ≡ ok w)
      ↔ ((0 < window) × (window ≤ coverage) × (w ≡ fresh_window total window coverage now))
unfolding new_sender
new_sender_iff total window coverage now w = (λ h. ground arith, λ h. ground arith)

-- A window that the constructor returned for fewer than 2^32 chunks is well formed after any calls
-- of `select_next_packet`, `mark_sent`, `process_ack` and `check_timeouts` in any order and with
-- any arguments: its fields agree with its chunks, at most `window` chunks are outstanding, none
-- `coverage` or more above the base has been selected, every pending chunk is in flight and queued,
-- the base is the first chunk that is not acknowledged, the total stall time is that from the
-- construction to the last advance, and the three limits are those given.
pub run-new_sender :
    (total window coverage begin : ℕ) (w : SenderWindow) (cs : List Call)
    → total < 2 ^ 32
    → new_sender total window coverage begin ≡ ok w
    → IsLive total window coverage begin (run w cs)
run-new_sender total window coverage begin w cs h e =
    let (_, c, same) = (new_sender_iff total window coverage begin w).0 e in
    run-IsLive total window coverage begin w cs
      (rw same (fresh_window-IsLive total window coverage begin h c))

-- For a well-formed window whose base is the first chunk that is not acknowledged: `all_acked`
-- holds exactly if every chunk of the transfer is acknowledged.
pub all_acked_iff :
    (w : SenderWindow)
    → IsWindow w
    → IsSettled w
    → (all_acked w ≡ true) ↔ ((j : ℕ) → j < w.total_chunks → acked_at w j ≡ true)
unfolding all_acked
all_acked_iff w v s = (
  λ e j l. v.prefix j (let end = ==→eq _ _ e in omega arith),
  λ h. elim (Bool-cases (ltb w.base w.total_chunks)) [
    | inl e ↦ absurd (unfold is_acked_at in ground (arith, s.stopped, h w.base))
    | inr e ↦ eq→== _ _ (omega (arith, v.base_le, v.next_le, ltb→ge _ _ e))
  ],
)
