-- ===== src/Reliability/Sender/Advance.antt =====
-- Advancing the base over the acknowledged chunks.
use ee542_lab2_fast_reliable.Common.{
  ℕ, ◌+◌, ◌≤◌, ◌≡◌, ◌⊎◌, inl, inr, refl, sym, ap, ◌==◌, ltb, arith, ◌∙◌, ltb→lt, ltb→ge, Bool-cases,
  ==→eq, advance, Stops, advance-Stops,
}
use ee542_lab2_fast_reliable.Common.Int.{sub_ℕ, sub_ℕ-telescope}
use ee542_lab2_fast_reliable.Reliability.Sender.{is_acked_at, record_advance, advance_base}
use ee542_lab2_fast_reliable.Reliability.State.{SenderWindow, chunk_at}
use ee542_lab2_fast_reliable.Reliability.Sender.Window.{acked_at, unacked_at, IsWindow, SameFrame}
use ee542_lab2_fast_reliable.Reliability.Sender.Queue.{Requeued}
use ee542_lab2_fast_reliable.Common.Counting.{count_below, count_below-ext}

-- The base is the first chunk that has not been acknowledged, or the end of the transfer.
abbrev pub IsSettled : SenderWindow → Type 0
IsSettled w = Stops (is_acked_at w) 0 w.base

-- The total stall time is the time from the window's construction to the last advance.
abbrev pub IsTimed : ℕ → SenderWindow → Type 0
IsTimed begin w = w.total_base_stall_time ≡ sub_ℕ w.last_base_advance_time begin

pub new_base : SenderWindow → ℕ
new_base w = advance (w.total_chunks + 1) (is_acked_at w) w.base

new_base-Stops : (w : SenderWindow) → IsWindow w → Stops (is_acked_at w) w.base (new_base w)
unfolding new_base
new_base-Stops w v =
    advance-Stops (is_acked_at w) w.total_chunks v.fits (λ j h. unfold is_acked_at in ground arith)
      (w.total_chunks + 1) w.base (omega arith)

advance_base_cases :
    (w : SenderWindow) (now : ℕ)
    → ((advance_base w now ≡ w) × (new_base w ≡ w.base))
      ⊎ (advance_base w now ≡ record_advance w (new_base w) now)
unfolding advance_base new_base
advance_base_cases w now =
    elim (Bool-cases (advance (w.total_chunks + 1) (is_acked_at w) w.base == w.base)) [
      | inl e ↦ inl (rw e, ==→eq _ _ e)
      | inr e ↦ inr (rw e)
    ]

pub advance_base_fields :
    (w : SenderWindow) (now : ℕ)
    → ((advance_base w now).base ≡ new_base w)
      × ((advance_base w now).chunks ≡ w.chunks)
      × ((advance_base w now).next_sequence ≡ w.next_sequence)
      × ((advance_base w now).total_chunks ≡ w.total_chunks)
      × ((advance_base w now).logical_window_chunks ≡ w.logical_window_chunks)
      × ((advance_base w now).sack_coverage_chunks ≡ w.sack_coverage_chunks)
      × ((advance_base w now).outstanding_chunks ≡ w.outstanding_chunks)
      × ((advance_base w now).retransmission_queue ≡ w.retransmission_queue)
advance_base_fields w now = elim (advance_base_cases w now) [
  | inl (e, same) ↦ rw e (sym same, refl, refl, refl, refl, refl, refl, refl)
  | inr e ↦ rw e (unfold record_advance in (refl, refl, refl, refl, refl, refl, refl, refl))
]

pub chunk_at-advance_base :
    (w : SenderWindow) (now j : ℕ) → chunk_at (advance_base w now) j ≡ chunk_at w j
chunk_at-advance_base w now j = elim (advance_base_cases w now) [
  | inl (e, same) ↦ rw e
  | inr e ↦ rw e (unfold record_advance chunk_at in refl)
]

module _ (w : SenderWindow) (now : ℕ) (v : IsWindow w) where
  same_test : (j : ℕ) → is_acked_at (advance_base w now) j ≡ is_acked_at w j
  unfolding is_acked_at
  same_test j = ground (arith, chunk_at-advance_base w now j, advance_base_fields w now)

  pub advance_base-IsSettled : IsSettled (advance_base w now)
  advance_base-IsSettled = record {
    from = omega arith;
    passed = λ j p q. rw (same_test j) (elim (Bool-cases (ltb j w.base)) [
      | inl e ↦ unfold is_acked_at in ground (arith, v.prefix j, v.base_le, v.next_le)
      | inr e ↦
          (new_base-Stops w v).passed j (ltb→ge _ _ e)
            (omega (arith, (advance_base_fields w now).0))
    ]);
    stopped = same_test _ ∙ rw ((advance_base_fields w now).0) (new_base-Stops w v).stopped;
  }

  new_base-le : new_base w ≤ w.next_sequence
  new_base-le = elim (Bool-cases (ltb w.next_sequence (new_base w))) [
    | inl e ↦
        let passed = (new_base-Stops w v).passed w.next_sequence v.base_le (ltb→lt _ _ e) in
        absurd (unfold is_acked_at in ground (arith, v.fresh w.next_sequence))
    | inr e ↦ ltb→ge _ _ e
  ]

  pub advance_base-IsWindow : IsWindow (advance_base w now)
  advance_base-IsWindow =
      let (base, chunks, next, total, window, coverage, count, queue) = advance_base_fields w now in
      record {
        fits = omega (arith, total, v.fits);
        size = rw chunks (omega (arith, total, v.size));
        covered = omega (arith, window, coverage, v.covered);
        base_le = omega (arith, base, next, new_base-le);
        next_le = omega (arith, next, total, v.next_le);
        prefix = λ i l. unfold is_acked_at in ground (arith, advance_base-IsSettled.passed i);
        fresh = λ i l. ground (arith, chunk_at-advance_base w now i, v.fresh i, next);
        counted = omega (
          arith,
          count,
          v.counted,
          ap (count_below (unacked_at (advance_base w now))) next,
          count_below-ext (unacked_at (advance_base w now)) (unacked_at w) w.next_sequence
              (λ i l. rw (chunk_at-advance_base w now i)),
        );
        bounded = omega (arith, count, window, v.bounded);
        span = omega (arith, next, base, coverage, v.span, (new_base-Stops w v).from);
        queued = simp (next, queue) v.queued;
        waiting = λ i p.
            simp (queue, chunk_at-advance_base w now i)
              (v.waiting i (ground (arith, chunk_at-advance_base w now i)));
      }

pub advance_base-IsTimed :
    (begin : ℕ) (w : SenderWindow) (now : ℕ) → IsTimed begin w → IsTimed begin (advance_base w now)
advance_base-IsTimed begin w now h = elim (advance_base_cases w now) [
  | inl (e, same) ↦ rw e h
  | inr e ↦
      rw e (unfold record_advance in rw h (sub_ℕ-telescope begin w.last_base_advance_time now))
]

-- A step that moves no base and acknowledges nothing leaves the base where it belongs.
pub SameFrame-IsSettled :
    (w w' : SenderWindow)
    → SameFrame w w'
    → ((j : ℕ) → acked_at w' j ≡ acked_at w j)
    → IsSettled w
    → IsSettled w'
SameFrame-IsSettled w w' f marks h = record {
  from = omega arith;
  passed = λ j p q. same j ∙ h.passed j p (omega (arith, f.base_eq));
  stopped = same _ ∙ rw f.base_eq h.stopped;
}
  where
    same : (j : ℕ) → is_acked_at w' j ≡ is_acked_at w j
    same j = unfold is_acked_at in ground (arith, marks j, f.total_eq)

pub Requeued-IsSettled : (w w' : SenderWindow) → Requeued w w' → IsSettled w → IsSettled w'
Requeued-IsSettled w w' r = SameFrame-IsSettled w w' r.frame (λ j. rw (r.same j))

pub SameFrame-IsTimed :
    (begin : ℕ) (w w' : SenderWindow) → SameFrame w w' → IsTimed begin w → IsTimed begin w'
SameFrame-IsTimed begin w w' f h = rw (f.stall_eq, f.time_eq) h
