-- ===== src/Reliability/Sender/Queue.antt =====
-- Queueing a retransmission.
use ee542_lab2_fast_reliable.Common.{
  ℕ, ◌<◌, ◌≡◌, ◌⊎◌, inl, inr, refl, Bool, true, false, ◌&&◌, ◌||◌, ◌==◌, arith, ◌∙◌, if◌then◌else◌,
  Bool-cases, length-set, get_or-set, [], ◌∷◌, ◌++◌, ltb,
}
use ee542_lab2_fast_reliable.Reliability.Sender.{store_queued, queue_retransmission}
use ee542_lab2_fast_reliable.Reliability.State.{
  SenderWindow, ChunkState, new_chunk, chunk_at, put_chunk,
}
use ee542_lab2_fast_reliable.Reliability.Sender.Window.{
  in_flight_at, pending_at, member, IsWindow, SameFrame, SameFrame-refl, SameFrame-trans,
  IsWindow-same_states, member_last, member-append, All-append_one,
}

-- A chunk in flight has been selected.
pub in_flight-lt :
    (w : SenderWindow) (s : ℕ) → IsWindow w → in_flight_at w s ≡ true → s < w.next_sequence
in_flight-lt w s v h = elim (Bool-cases (ltb s w.next_sequence)) [
  | inl e ↦ ground arith
  | inr e ↦ absurd (ground (arith, v.fresh s))
]

pub queue_retransmission_cases :
    (w : SenderWindow) (s : ℕ) (fast : Bool)
    → ((queue_retransmission w s fast ≡ w) × ((in_flight_at w s ≡ false) ⊎ (pending_at w s ≡ true)))
      ⊎ ((queue_retransmission w s fast ≡ store_queued w s fast)
          × (in_flight_at w s ≡ true)
          × (pending_at w s ≡ false))
unfolding queue_retransmission
queue_retransmission_cases w s fast = ground arith

-- The window after a loop that queues retransmissions: valid, and the chunks' states are the same.
pub record Requeued (w w' : SenderWindow) : Type 0 where
  pub valid : IsWindow w'
  pub frame : SameFrame w w'
  pub same : (j : ℕ) → (chunk_at w' j).state ≡ (chunk_at w j).state

pub Requeued-refl : (w : SenderWindow) → IsWindow w → Requeued w w
Requeued-refl w v = record { valid = v; frame = SameFrame-refl w; same = λ j. refl }

pub Requeued-trans : {a b c : SenderWindow} → Requeued a b → Requeued b c → Requeued a c
Requeued-trans p q = record {
  valid = q.valid;
  frame = SameFrame-trans p.frame q.frame;
  same = λ j. q.same j ∙ p.same j;
}

-- A chunk is rewritten with its state and its pending mark kept.
pub put_chunk-Requeued :
    (w : SenderWindow) (s : ℕ) (c : ChunkState)
    → IsWindow w
    → s < w.next_sequence
    → c.state ≡ (chunk_at w s).state
    → c.retransmit_pending ≡ (chunk_at w s).retransmit_pending
    → Requeued w (put_chunk w s c)
put_chunk-Requeued w s c v sent state pending = record {
  valid =
      IsWindow-same_states w (put_chunk w s c) v frame (unfold put_chunk in length-set w.chunks s c)
        (unfold put_chunk in refl) same (unfold put_chunk in v.queued)
        (λ i p. unfold put_chunk in v.waiting i (ground (arith, read i)));
  frame = frame;
  same = same;
}
  where
    read : (j : ℕ) → chunk_at (put_chunk w s c) j ≡ (if s == j then c else chunk_at w j)
    read j =
        unfold chunk_at put_chunk in
        get_or-set w.chunks s j c new_chunk (omega (arith, v.size, v.next_le))

    frame : SameFrame w (put_chunk w s c)
    frame =
        unfold put_chunk in
        record {
          total_eq = refl;
          window_eq = refl;
          coverage_eq = refl;
          base_eq = refl;
          next_eq = refl;
          time_eq = refl;
          stall_eq = refl;
        }

    same : (j : ℕ) → (chunk_at (put_chunk w s c) j).state ≡ (chunk_at w j).state
    same j = ground (arith, read j)

pub pending_at-put_chunk :
    (w : SenderWindow) (s j : ℕ) (c : ChunkState)
    → IsWindow w
    → s < w.next_sequence
    → c.retransmit_pending ≡ (chunk_at w s).retransmit_pending
    → pending_at (put_chunk w s c) j ≡ pending_at w j
unfolding put_chunk chunk_at
pending_at-put_chunk w s j c v sent same =
    ground (arith, get_or-set w.chunks s j c new_chunk (omega (arith, v.size, v.next_le)))

module _ (w : SenderWindow) (s : ℕ) (fast : Bool) (v : IsWindow w)
    (flies : in_flight_at w s ≡ true) where
  sent : s < w.next_sequence
  sent = in_flight-lt w s v flies

  queued_chunk : ChunkState
  queued_chunk = record (chunk_at w s) {
    retransmit_pending = true;
    fast_retransmit_pending = fast;
    fast_retransmitted = if fast then true else (chunk_at w s).fast_retransmitted;
  }

  read_queued :
      (j : ℕ) → chunk_at (store_queued w s fast) j ≡ (if s == j then queued_chunk else chunk_at w j)
  unfolding store_queued chunk_at queued_chunk
  read_queued j = get_or-set w.chunks s j _ new_chunk (omega (arith, v.size, v.next_le, sent))

  chunk_at-queued :
      (j : ℕ)
      → ((chunk_at (store_queued w s fast) j).state ≡ (chunk_at w j).state)
        × (pending_at (store_queued w s fast) j ≡ (s == j || pending_at w j))
  unfolding queued_chunk
  chunk_at-queued j = ground (arith, read_queued j)

  store_queued-frame : SameFrame w (store_queued w s fast)
  unfolding store_queued
  store_queued-frame = record {
    total_eq = refl;
    window_eq = refl;
    coverage_eq = refl;
    base_eq = refl;
    next_eq = refl;
    time_eq = refl;
    stall_eq = refl;
  }

  queue_eq : (store_queued w s fast).retransmission_queue ≡ w.retransmission_queue ++ s ∷ []
  unfolding store_queued
  queue_eq = refl

  still_waiting :
      (i : ℕ)
      → pending_at (store_queued w s fast) i ≡ true
      → (in_flight_at w i ≡ true) × (member i (w.retransmission_queue ++ s ∷ []) ≡ true)
  still_waiting i p = elim (Bool-cases (s == i)) [
    | inl e ↦
        let same : s ≡ i = ground arith in rw (← same) (flies, member_last s w.retransmission_queue)
    | inr e ↦
        let old = v.waiting i (ground (arith, chunk_at-queued i)) in
        (old.0, member-append i w.retransmission_queue (s ∷ []) old.1)
  ]

  store_queued-Requeued : Requeued w (store_queued w s fast)
  store_queued-Requeued = record {
    valid =
        IsWindow-same_states w (store_queued w s fast) v store_queued-frame
          (unfold store_queued in length-set w.chunks s _) (unfold store_queued in refl)
          (λ j. (chunk_at-queued j).0)
          (simp queue_eq (All-append_one _ w.retransmission_queue s v.queued sent))
          (λ i p. simp queue_eq (still_waiting i p));
    frame = store_queued-frame;
    same = λ j. (chunk_at-queued j).0;
  }

pub queue_retransmission-Requeued :
    (w : SenderWindow) (s : ℕ) (fast : Bool)
    → IsWindow w
    → Requeued w (queue_retransmission w s fast)
queue_retransmission-Requeued w s fast v = elim (queue_retransmission_cases w s fast) [
  | inl (e, why) ↦ rw e (Requeued-refl w v)
  | inr (e, flies, idle) ↦ rw e (store_queued-Requeued w s fast v flies)
]

-- Afterwards a chunk in flight is pending, and no other chunk's mark has changed.
pub pending_at-queue_retransmission :
    (w : SenderWindow) (s j : ℕ) (fast : Bool)
    → IsWindow w
    → pending_at (queue_retransmission w s fast) j
      ≡ (pending_at w j || (s == j && in_flight_at w s))
pending_at-queue_retransmission w s j fast v = elim (queue_retransmission_cases w s fast) [
  | inl (e, why) ↦ rw e (elim (Bool-cases (s == j)) [
    | inl t ↦ let same : s ≡ j = ground arith in rw (← same) (ground arith)
    | inr t ↦ ground arith
  ])
  | inr (e, flies, idle) ↦ rw e (ground (arith, chunk_at-queued w s fast v flies j))
]

pub last_sent-queue_retransmission :
    (w : SenderWindow) (s j : ℕ) (fast : Bool)
    → IsWindow w
    → (chunk_at (queue_retransmission w s fast) j).last_sent_time ≡ (chunk_at w j).last_sent_time
last_sent-queue_retransmission w s j fast v = elim (queue_retransmission_cases w s fast) [
  | inl (e, why) ↦ rw e
  | inr (e, flies, idle) ↦
      rw e (unfold queued_chunk in ground (arith, read_queued w s fast v flies j))
]
