-- ===== src/Reliability/Sender/Select.antt =====
-- `select_next_packet` of src/reliability.cpp.
use ee542_lab2_fast_reliable.Common.{
  ℕ, ◌+◌, ◌≤◌, ◌<◌, ◌≡◌, ◌⊎◌, inl, inr, refl, true, false, not, ◌&&◌, ◌==◌, arith, ap,
  if◌then◌else◌, Bool-cases, length-set, get_or-set, List, [], ◌∷◌, Option, none, some, inc32,
  inc32_fits,
}
use ee542_lab2_fast_reliable.Common.Counting.{
  count_below, count_below-ext, count_below-le, count_below_suc,
}
use ee542_lab2_fast_reliable.Reliability.Sender.{
  can_send_new, store_selected, select_retransmission, select_new, select_next_packet,
}
use ee542_lab2_fast_reliable.Reliability.State.{
  SenderWindow, SendDecision, ChunkState, new_chunk, chunk_at,
}
use ee542_lab2_fast_reliable.Reliability.Sender.Window.{
  in_flight_at, pending_at, unacked_at, member, IsWindow, IsWindow-same_states, All-mono,
}
use ee542_lab2_fast_reliable.Reliability.Sender.Queue.{Requeued}

abbrev with_queue : SenderWindow → List ℕ → SenderWindow
with_queue w q = record w { retransmission_queue = q }

chunk_at-with_queue :
    (w : SenderWindow) (q : List ℕ) (j : ℕ) → chunk_at (with_queue w q) j ≡ chunk_at w j
unfolding chunk_at
chunk_at-with_queue w q j = refl

-- The base, its bookkeeping and the chunks stay as they are.
abbrev pub Unmoved : SenderWindow → SenderWindow → Type 0
Unmoved w w' =
    ((j : ℕ) → chunk_at w' j ≡ chunk_at w j)
    × (w'.base ≡ w.base)
    × (w'.total_chunks ≡ w.total_chunks)
    × (w'.logical_window_chunks ≡ w.logical_window_chunks)
    × (w'.sack_coverage_chunks ≡ w.sack_coverage_chunks)
    × (w'.last_base_advance_time ≡ w.last_base_advance_time)
    × (w'.total_base_stall_time ≡ w.total_base_stall_time)

-- The picked chunk was pending, and is no longer.
abbrev pub Retransmits : SenderWindow → SendDecision → SenderWindow → Type 0
Retransmits w d w' =
    (d.retransmission ≡ true)
    × (in_flight_at w d.sequence ≡ true)
    × (pending_at w d.sequence ≡ true)
    × ((j : ℕ) → pending_at w' j ≡ (pending_at w j && not (d.sequence == j)))
    × Requeued w w'

abbrev pub NonePending : SenderWindow → Type 0
NonePending w = (j : ℕ) → pending_at w j ≡ false

module _ (w : SenderWindow) (s : ℕ) (rest : List ℕ) (v : IsWindow (with_queue w (s ∷ rest))) where
  drop_head : pending_at w s ≡ false → IsWindow (with_queue w rest)
  drop_head idle =
      IsWindow-same_states (with_queue w (s ∷ rest)) (with_queue w rest) v
        (record {
          total_eq = refl;
          window_eq = refl;
          coverage_eq = refl;
          base_eq = refl;
          next_eq = refl;
          time_eq = refl;
          stall_eq = refl;
        })
        refl refl (λ j. unfold chunk_at in refl) v.queued.1
        (λ i p.
          ground
            (arith, v.waiting i, chunk_at-with_queue w rest i, chunk_at-with_queue w (s ∷ rest) i))

  selected_chunk : ChunkState
  selected_chunk = record (chunk_at w s) {
    retransmit_pending = false;
    fast_retransmit_pending = false;
    fast_retransmitted = true;
    retransmit_evidence = (chunk_at w s).latest_later_acked;
  }

  read_selected :
      (j : ℕ)
      → chunk_at (store_selected w s rest) j ≡ (if s == j then selected_chunk else chunk_at w j)
  unfolding store_selected chunk_at selected_chunk
  read_selected j = get_or-set w.chunks s j _ new_chunk (omega (arith, v.size, v.next_le, v.queued))

  pending-selected :
      (j : ℕ) → pending_at (store_selected w s rest) j ≡ (pending_at w j && not (s == j))
  unfolding selected_chunk
  pending-selected j = ground (arith, read_selected j)

  same-selected : (j : ℕ) → (chunk_at (store_selected w s rest) j).state ≡ (chunk_at w j).state
  unfolding selected_chunk
  same-selected j = ground (arith, read_selected j)

  still_waiting :
      (i : ℕ)
      → pending_at (store_selected w s rest) i ≡ true
      → (in_flight_at (with_queue w (s ∷ rest)) i ≡ true) × (member i rest ≡ true)
  still_waiting i p =
      ground (arith, pending-selected i, chunk_at-with_queue w (s ∷ rest) i, v.waiting i)

  selected-Requeued : Requeued w (store_selected w s rest)
  unfolding chunk_at
  selected-Requeued = record {
    valid =
        IsWindow-same_states (with_queue w (s ∷ rest)) (store_selected w s rest) v
          (unfold store_selected in
            record {
              total_eq = refl;
              window_eq = refl;
              coverage_eq = refl;
              base_eq = refl;
              next_eq = refl;
              time_eq = refl;
              stall_eq = refl;
            })
          (unfold store_selected in length-set w.chunks s _) (unfold store_selected in refl)
          (λ j. same-selected j) (unfold store_selected in v.queued.1)
          (λ i p. unfold store_selected in still_waiting i p);
    frame =
        unfold store_selected in
        record {
          total_eq = refl;
          window_eq = refl;
          coverage_eq = refl;
          base_eq = refl;
          next_eq = refl;
          time_eq = refl;
          stall_eq = refl;
        };
    same = same-selected;
  }

  idle_of_skip : (in_flight_at w s && pending_at w s) ≡ false → pending_at w s ≡ false
  idle_of_skip e = ground (arith, v.waiting s, chunk_at-with_queue w (s ∷ rest) s)

abbrev Picks : SenderWindow → Option SendDecision × SenderWindow → Type 0
Picks w r =
    ((d : SendDecision) × (w' : SenderWindow) × (r ≡ (some d, w')) × Retransmits w d w')
    ⊎ ((r ≡ (none, with_queue w [])) × NonePending w × IsWindow (with_queue w []))

select_retransmission-Picks :
    (q : List ℕ) (w : SenderWindow)
    → IsWindow (with_queue w q)
    → Picks w (select_retransmission q w)
unfolding select_retransmission
select_retransmission-Picks [] w v =
    inr (refl, λ j. ground (arith, v.waiting j, chunk_at-with_queue w [] j), v)
select_retransmission-Picks (s ∷ rest) w v =
    elim (Bool-cases (in_flight_at w s && pending_at w s)) [
      | inl e ↦ rw e (
          inl (
            _,
            store_selected w s rest,
            refl,
            (
              refl,
              ground arith,
              ground arith,
              pending-selected w s rest v,
              selected-Requeued w s rest v,
            ),
          ))
      | inr e ↦
          rw e
            (select_retransmission-Picks rest w (drop_head w s rest v (idle_of_skip w s rest v e)))
    ]

-- A new chunk is the next one, and the window was open for it.
abbrev pub SendsNew : SenderWindow → SendDecision → SenderWindow → Type 0
SendsNew w d w' =
    NonePending w
    × (d.retransmission ≡ false)
    × (d.sequence ≡ w.next_sequence)
    × (w.next_sequence < w.total_chunks)
    × (w.outstanding_chunks < w.logical_window_chunks)
    × (w.next_sequence < w.base + w.sack_coverage_chunks)
    × (w'.next_sequence ≡ w.next_sequence + 1)
    × (w'.outstanding_chunks ≡ w.outstanding_chunks + 1)
    × IsWindow w'
    × Unmoved w w'

-- Nothing is sent only when no chunk waits for retransmission and the window is shut.
abbrev pub SendsNothing : SenderWindow → SenderWindow → Type 0
SendsNothing w w' =
    NonePending w
    × ((w.total_chunks ≤ w.next_sequence)
        ⊎ (w.logical_window_chunks ≤ w.outstanding_chunks)
        ⊎ (w.base + w.sack_coverage_chunks ≤ w.next_sequence))
    × (w'.next_sequence ≡ w.next_sequence)
    × IsWindow w'
    × Unmoved w w'

opened : SenderWindow → SenderWindow
opened w = record w {
  next_sequence = inc32 w.next_sequence;
  outstanding_chunks = inc32 w.outstanding_chunks;
}

module _ (w : SenderWindow) (v : IsWindow w) (room : w.next_sequence < w.total_chunks)
    (open_window : w.outstanding_chunks < w.logical_window_chunks)
    (near : w.next_sequence < w.base + w.sack_coverage_chunks) where
  next-opened : (opened w).next_sequence ≡ w.next_sequence + 1
  unfolding opened
  next-opened = inc32_fits w.next_sequence (omega (arith, v.fits))

  outstanding-opened : (opened w).outstanding_chunks ≡ w.outstanding_chunks + 1
  unfolding opened
  outstanding-opened =
      inc32_fits w.outstanding_chunks
        (omega (arith, v.fits, v.counted, count_below-le (unacked_at w) w.next_sequence))

  chunk-opened : (j : ℕ) → chunk_at (opened w) j ≡ chunk_at w j
  unfolding opened chunk_at
  chunk-opened j = refl

  opened-IsWindow : IsWindow (opened w)
  opened-IsWindow = record {
    fits = unfold opened in v.fits;
    size = unfold opened in v.size;
    covered = unfold opened in v.covered;
    base_le = unfold opened in omega (arith, next-opened, v.base_le);
    next_le = unfold opened in omega (arith, next-opened);
    prefix = λ i l. simp (chunk-opened i) (v.prefix i (unfold opened in l));
    fresh = λ i l. simp (chunk-opened i) (v.fresh i (omega (arith, next-opened)));
    counted = omega (
      arith,
      outstanding-opened,
      v.counted,
      ap (count_below (unacked_at (opened w))) next-opened,
      count_below-ext (unacked_at (opened w)) (unacked_at w) (w.next_sequence + 1)
          (λ i l. rw (chunk-opened i)),
      one_more,
    );
    bounded = unfold opened in omega (arith, outstanding-opened);
    span = unfold opened in omega (arith, next-opened);
    queued =
        unfold opened in
        simp next-opened (
          All-mono (λ s. s < w.next_sequence) (λ s. s < w.next_sequence + 1) w.retransmission_queue
            (λ x l. omega arith) v.queued);
    waiting = λ i p. unfold opened chunk_at in v.waiting i p;
  }
    where
      one_more :
          count_below (unacked_at w) (w.next_sequence + 1)
          ≡ count_below (unacked_at w) w.next_sequence + 1
      one_more =
          ground (arith, count_below_suc (unacked_at w) w.next_sequence, v.fresh w.next_sequence)

-- The step for a new chunk, once the queue is empty.
select_new_cases :
    (w : SenderWindow)
    → IsWindow w
    → NonePending w
    → ((d : SendDecision) × (w' : SenderWindow) × (select_new w ≡ (some d, w')) × SendsNew w d w')
      ⊎ ((w' : SenderWindow) × (select_new w ≡ (none, w')) × SendsNothing w w')
unfolding select_new
select_new_cases w v idle = elim (Bool-cases (can_send_new w)) [
  | inl e ↦
      let (room, open_window, near) = can_send_true e in
      inl (
        record { sequence = w.next_sequence; retransmission = false; fast_retransmission = false },
        opened w,
        (rw e (unfold opened in refl)),
        (
          idle,
          refl,
          refl,
          room,
          open_window,
          near,
          next-opened w v room open_window near,
          outstanding-opened w v room open_window near,
          opened-IsWindow w v room open_window near,
          unfold opened chunk_at in (λ j. refl, refl, refl, refl, refl, refl, refl),
        ),
      )
  | inr e ↦
      inr (
        w,
        rw e,
        (idle, can_send_false e, refl, v, (λ j. refl, refl, refl, refl, refl, refl, refl)),
      )
]
  where
    can_send_true :
        can_send_new w ≡ true
        → (w.next_sequence < w.total_chunks)
          × (w.outstanding_chunks < w.logical_window_chunks)
          × (w.next_sequence < w.base + w.sack_coverage_chunks)
    can_send_true e = unfold can_send_new in ground arith

    can_send_false :
        can_send_new w ≡ false
        → (w.total_chunks ≤ w.next_sequence)
          ⊎ (w.logical_window_chunks ≤ w.outstanding_chunks)
          ⊎ (w.base + w.sack_coverage_chunks ≤ w.next_sequence)
    can_send_false e = unfold can_send_new in ground arith

SendsNew-with_queue :
    (w : SenderWindow) (q : List ℕ) (d : SendDecision) (w' : SenderWindow)
    → SendsNew (with_queue w q) d w'
    → SendsNew w d w'
unfolding chunk_at
SendsNew-with_queue w q d w' s = s

SendsNothing-with_queue :
    (w : SenderWindow) (q : List ℕ) (w' : SenderWindow)
    → SendsNothing (with_queue w q) w'
    → SendsNothing w w'
unfolding chunk_at
SendsNothing-with_queue w q w' s = s

-- For a well-formed window `select_next_packet` does one of three things, each leaving a well-
-- formed window: it picks a chunk that waited in flight, and the same other chunks wait as before,
-- every chunk in its state; or, with nothing waiting and room in both windows, it selects the next
-- new chunk; or, with nothing waiting and no such room, it selects nothing.
pub select_next_packet_cases :
    (w : SenderWindow)
    → IsWindow w
    → ((d : SendDecision) × (w' : SenderWindow) × (select_next_packet w ≡ (some d, w'))
        × Retransmits w d w')
      ⊎ ((d : SendDecision) × (w' : SenderWindow) × (select_next_packet w ≡ (some d, w'))
          × SendsNew w d w')
      ⊎ ((w' : SenderWindow) × (select_next_packet w ≡ (none, w')) × SendsNothing w w')
unfolding select_next_packet
select_next_packet_cases w v = elim (select_retransmission-Picks w.retransmission_queue w v) [
  | inl (d, w', e, picked) ↦ inl (d, w', rw e, picked)
  | inr (e, idle, valid) ↦
      elim (select_new_cases (with_queue w []) valid
        (λ j. ground (arith, idle j, chunk_at-with_queue w [] j))) [
          | inl (d, w', e', sends) ↦ inr (inl (d, w', rw e e', SendsNew-with_queue w [] d w' sends))
          | inr (w', e', sends) ↦ inr (inr (w', rw e e', SendsNothing-with_queue w [] w' sends))
        ]
]
