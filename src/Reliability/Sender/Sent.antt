-- ===== src/Reliability/Sender/Sent.antt =====
-- `mark_sent` of src/reliability.cpp.
use ee542_lab2_fast_reliable.Common.{
  ℕ, ◌≤◌, ◌<◌, ◌≡◌, ◌≢◌, ◌⊎◌, sym, inl, inr, refl, true, false, ◌||◌, ◌==◌, arith, ◌∙◌, leb,
  if◌then◌else◌, Bool-cases, length-set, get_or-set, ok, err, logic_error,
}
use ee542_lab2_fast_reliable.Common.Counting.{count_below-ext}
use ee542_lab2_fast_reliable.Reliability.Sender.{mark_sent}
use ee542_lab2_fast_reliable.Reliability.State.{
  SenderWindow, ChunkState, in_flight, new_chunk, chunk_at, put_chunk,
}
use ee542_lab2_fast_reliable.Reliability.Sender.Window.{
  acked_at, in_flight_at, pending_at, unacked_at, IsWindow, SameFrame,
}

sent_chunk : SenderWindow → ℕ → ℕ → ChunkState
sent_chunk w s time = record (chunk_at w s) { state = in_flight; last_sent_time = time }

store_sent : SenderWindow → ℕ → ℕ → SenderWindow
unfolding put_chunk sent_chunk
store_sent w s time = put_chunk w s (sent_chunk w s time)

-- The chunk is in flight since `time`; no other chunk changes, and none is acknowledged.
abbrev pub Sent : SenderWindow → ℕ → ℕ → SenderWindow → Type 0
Sent w s time w' =
    IsWindow w'
    × SameFrame w w'
    × (in_flight_at w' s ≡ true)
    × ((chunk_at w' s).last_sent_time ≡ time)
    × ((j : ℕ) → s ≢ j → chunk_at w' j ≡ chunk_at w j)
    × ((j : ℕ) → acked_at w' j ≡ acked_at w j)
    × ((j : ℕ) → pending_at w' j ≡ pending_at w j)

module _ (w : SenderWindow) (s time : ℕ) (v : IsWindow w) (chosen : s < w.next_sequence)
    (waits : acked_at w s ≡ false) where
  read_sent :
      (j : ℕ)
      → chunk_at (store_sent w s time) j ≡ (if s == j then sent_chunk w s time else chunk_at w j)
  unfolding store_sent chunk_at
  read_sent j = get_or-set w.chunks s j _ new_chunk (omega (arith, v.size, v.next_le))

  store_sent-frame : SameFrame w (store_sent w s time)
  unfolding store_sent
  store_sent-frame = record {
    total_eq = refl;
    window_eq = refl;
    coverage_eq = refl;
    base_eq = refl;
    next_eq = refl;
    time_eq = refl;
    stall_eq = refl;
  }

  acked-sent : (j : ℕ) → acked_at (store_sent w s time) j ≡ acked_at w j
  unfolding sent_chunk
  acked-sent j = elim (Bool-cases (s == j)) [
    | inl e ↦ let same : s ≡ j = ground arith in rw (← same) (ground (arith, read_sent s))
    | inr e ↦ ground (arith, read_sent j)
  ]

  pending-sent : (j : ℕ) → pending_at (store_sent w s time) j ≡ pending_at w j
  unfolding sent_chunk
  pending-sent j = elim (Bool-cases (s == j)) [
    | inl e ↦ let same : s ≡ j = ground arith in rw (← same) (ground (arith, read_sent s))
    | inr e ↦ ground (arith, read_sent j)
  ]

  flying-sent : (j : ℕ) → in_flight_at (store_sent w s time) j ≡ (s == j || in_flight_at w j)
  unfolding sent_chunk
  flying-sent j = ground (arith, read_sent j)

  store_sent-IsWindow : IsWindow (store_sent w s time)
  store_sent-IsWindow = record {
    fits = unfold store_sent in v.fits;
    size = unfold store_sent in (length-set w.chunks s _ ∙ v.size);
    covered = unfold store_sent in v.covered;
    base_le = unfold store_sent in v.base_le;
    next_le = unfold store_sent in v.next_le;
    prefix = λ i l. acked-sent i ∙ v.prefix i (unfold store_sent in l);
    fresh = λ i l. ground (arith, read_sent i, v.fresh i, store_sent-frame.next_eq);
    counted =
        unfold store_sent in
        (v.counted
          ∙ count_below-ext (unacked_at w) (unacked_at (store_sent w s time)) w.next_sequence
              (λ i l. unfold store_sent in rw (acked-sent i)));
    bounded = unfold store_sent in v.bounded;
    span = unfold store_sent in v.span;
    queued = unfold store_sent in v.queued;
    waiting = λ i p.
        let old = v.waiting i (sym (pending-sent i) ∙ p) in
        (ground (arith, flying-sent i), unfold store_sent in old.1);
  }

  store_sent-Sent : Sent w s time (store_sent w s time)
  store_sent-Sent = (
    store_sent-IsWindow,
    store_sent-frame,
    ground (arith, flying-sent s),
    unfold sent_chunk in ground (arith, read_sent s),
    λ j d. ground (arith, read_sent j),
    acked-sent,
    pending-sent,
  )

-- For a well-formed window: `mark_sent` of a selected chunk that is not acknowledged puts the chunk
-- in flight since the given time, in a well-formed window in which no other chunk has changed; of
-- any other chunk it throws a logic error.
pub mark_sent_cases :
    (w : SenderWindow) (s time : ℕ)
    → IsWindow w
    → ((w' : SenderWindow) × (mark_sent w s time ≡ ok w')
        × (s < w.next_sequence)
        × (acked_at w s ≡ false)
        × Sent w s time w')
      ⊎ ((mark_sent w s time ≡ err (logic_error "cannot mark an unselected or ACKed chunk as sent"))
          × ((w.next_sequence ≤ s) ⊎ (acked_at w s ≡ true)))
unfolding mark_sent
mark_sent_cases w s time v = elim (Bool-cases (leb w.next_sequence s || acked_at w s)) [
  | inl e ↦ inr (rw e, ground arith)
  | inr e ↦
      let chosen : s < w.next_sequence = ground arith in
      let waits : acked_at w s ≡ false = ground arith in
      inl (
        store_sent w s time,
        rw e (unfold store_sent sent_chunk in refl),
        chosen,
        waits,
        store_sent-Sent w s time v chosen waits,
      )
]
