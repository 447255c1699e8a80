-- ===== src/Reliability/Sender/Window.antt =====
-- The invariant of the sender's window.
use ee542_lab2_fast_reliable.Common.{
  ℕ, ◌+◌, ◌^◌, ◌≤◌, ◌<◌, ◌≡◌, refl, ap, ◌∙◌, arith, List, [], ◌∷◌, ◌++◌, Bool, true, false, not,
  ◌||◌, ◌==◌, All, length,
}
use ee542_lab2_fast_reliable.Common.Counting.{count_below, count_below-ext}
use ee542_lab2_fast_reliable.Reliability.State.{
  SenderWindow, unsent, is_acked, is_in_flight, chunk_at,
}

abbrev pub acked_at : SenderWindow → ℕ → Bool
acked_at w i = is_acked (chunk_at w i).state

abbrev pub in_flight_at : SenderWindow → ℕ → Bool
in_flight_at w i = is_in_flight (chunk_at w i).state

abbrev pub pending_at : SenderWindow → ℕ → Bool
pending_at w i = (chunk_at w i).retransmit_pending

abbrev pub unacked_at : SenderWindow → ℕ → Bool
unacked_at w i = not (acked_at w i)

abbrev pub member : ℕ → List ℕ → Bool
member i [] = false
member i (x ∷ xs) = x == i || member i xs

pub record IsWindow (w : SenderWindow) : Type 0 where
  pub fits : w.total_chunks < 2 ^ 32
  pub size : length w.chunks ≡ w.total_chunks
  pub covered : w.logical_window_chunks ≤ w.sack_coverage_chunks
  pub base_le : w.base ≤ w.next_sequence
  pub next_le : w.next_sequence ≤ w.total_chunks
  pub prefix : (i : ℕ) → i < w.base → acked_at w i ≡ true
  pub fresh : (i : ℕ) → w.next_sequence ≤ i → (chunk_at w i).state ≡ unsent
  pub counted : w.outstanding_chunks ≡ count_below (unacked_at w) w.next_sequence
  pub bounded : w.outstanding_chunks ≤ w.logical_window_chunks
  pub span : w.next_sequence ≤ w.base + w.sack_coverage_chunks
  pub queued : All (λ s. s < w.next_sequence) w.retransmission_queue
  pub waiting :
      (i : ℕ)
      → pending_at w i ≡ true
      → (in_flight_at w i ≡ true) × (member i w.retransmission_queue ≡ true)

-- What the loops over chunks leave alone.
pub record SameFrame (w w' : SenderWindow) : Type 0 where
  pub total_eq : w'.total_chunks ≡ w.total_chunks
  pub window_eq : w'.logical_window_chunks ≡ w.logical_window_chunks
  pub coverage_eq : w'.sack_coverage_chunks ≡ w.sack_coverage_chunks
  pub base_eq : w'.base ≡ w.base
  pub next_eq : w'.next_sequence ≡ w.next_sequence
  pub time_eq : w'.last_base_advance_time ≡ w.last_base_advance_time
  pub stall_eq : w'.total_base_stall_time ≡ w.total_base_stall_time

pub SameFrame-refl : (w : SenderWindow) → SameFrame w w
SameFrame-refl w = record {
  total_eq = refl;
  window_eq = refl;
  coverage_eq = refl;
  base_eq = refl;
  next_eq = refl;
  time_eq = refl;
  stall_eq = refl;
}

pub SameFrame-trans : {a b c : SenderWindow} → SameFrame a b → SameFrame b c → SameFrame a c
SameFrame-trans p q = record {
  total_eq = q.total_eq ∙ p.total_eq;
  window_eq = q.window_eq ∙ p.window_eq;
  coverage_eq = q.coverage_eq ∙ p.coverage_eq;
  base_eq = q.base_eq ∙ p.base_eq;
  next_eq = q.next_eq ∙ p.next_eq;
  time_eq = q.time_eq ∙ p.time_eq;
  stall_eq = q.stall_eq ∙ p.stall_eq;
}

-- A step that changes no chunk's state and not the count keeps the invariant, if the new queue
-- holds every pending chunk and only selected ones.
pub IsWindow-same_states :
    (w w' : SenderWindow)
    → IsWindow w
    → SameFrame w w'
    → length w'.chunks ≡ length w.chunks
    → w'.outstanding_chunks ≡ w.outstanding_chunks
    → ((j : ℕ) → (chunk_at w' j).state ≡ (chunk_at w j).state)
    → All (λ s. s < w.next_sequence) w'.retransmission_queue
    → ((i : ℕ)
        → pending_at w' i ≡ true
        → (in_flight_at w i ≡ true) × (member i w'.retransmission_queue ≡ true))
    → IsWindow w'
IsWindow-same_states w w' v f size count same queued waiting = record {
  fits = omega (arith, v.fits, f.total_eq);
  size = omega (arith, v.size, size, f.total_eq);
  covered = omega (arith, v.covered, f.window_eq, f.coverage_eq);
  base_le = omega (arith, v.base_le, f.base_eq, f.next_eq);
  next_le = omega (arith, v.next_le, f.next_eq, f.total_eq);
  prefix = λ i l. rw (same i) (v.prefix i (omega (arith, f.base_eq)));
  fresh = λ i l. same i ∙ v.fresh i (omega (arith, f.next_eq));
  counted = omega (
    arith,
    count,
    v.counted,
    ap (count_below (unacked_at w')) f.next_eq,
    count_below-ext (unacked_at w') (unacked_at w) w.next_sequence (λ i l. rw (same i)),
  );
  bounded = omega (arith, count, v.bounded, f.window_eq);
  span = omega (arith, v.span, f.base_eq, f.next_eq, f.coverage_eq);
  queued = simp f.next_eq queued;
  waiting = λ i p. (rw (same i) (waiting i p).0, (waiting i p).1);
}

pub member_last : (i : ℕ) (xs : List ℕ) → member i (xs ++ i ∷ []) ≡ true
member_last i [] = ground arith
member_last i (x ∷ xs) = ground (arith, member_last i xs)

pub member-append : (i : ℕ) (xs ys : List ℕ) → member i xs ≡ true → member i (xs ++ ys) ≡ true
member-append i [] ys h = cc
member-append i (x ∷ xs) ys h = ground (arith, member-append i xs ys)

pub All-append_one {κ} :
    (P : ℕ → Type κ) (xs : List ℕ) (x : ℕ) → All P xs → P x → All P (xs ++ x ∷ [])
All-append_one P [] x h p = (p, h)
All-append_one P (y ∷ xs) x h p = (h.0, All-append_one P xs x h.1 p)

pub All-mono {ℓ κ} :
    (P : ℕ → Type ℓ) (Q : ℕ → Type κ) (xs : List ℕ) → ((x : ℕ) → P x → Q x) → All P xs → All Q xs
All-mono P Q [] f h = tt
All-mono P Q (x ∷ xs) f h = (f x h.0, All-mono P Q xs f h.1)
