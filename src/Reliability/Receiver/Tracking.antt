-- ===== src/Reliability/Receiver/Tracking.antt =====
-- `mark_received` of src/reliability.cpp, and the fields of the tracker.
use ee542_lab2_fast_reliable.Common.{
  ℕ, ◌+◌, ◌-◌, ◌^◌, ◌≤◌, ◌<◌, ◌≡◌, ◌↔◌, ◌⊎◌, inl, inr, refl, sym, ap, ◌∙◌, true, false, not, ◌&&◌,
  ◌||◌, max, ltb, leb, ◌==◌, if◌then◌else◌, Bool-cases, ltb→lt, ltb→ge, ==→eq, eq→==, arith, set,
  get_or, get_or-set, length, length-set, length-replicate, get_or-replicate, inc32_fits, Stops,
  advance-Stops,
}
use ee542_lab2_fast_reliable.Common.Counting.{
  count_below, count_below_gain, count_below_none, count_below_all, count_below_full,
  count_below-le,
}
use ee542_lab2_fast_reliable.Reliability.Receiver.{
  ReceiverTracker, new_receiver, is_received, has_received, store_received, mark_received, complete,
}

-- The fields against the set of received chunks: its size, its first gap and its end.
pub record IsTracking (t : ReceiverTracker) : Type 0 where
  pub fits : length t.received < 2 ^ 32
  pub counted : t.received_count ≡ count_below (has_received t) (length t.received)
  pub gap : Stops (has_received t) 0 t.cumulative_ack
  pub bounded : (j : ℕ) → has_received t j ≡ true → j < t.largest_received_plus_one
  pub reached :
      (t.largest_received_plus_one ≡ 0) ⊎ (has_received t (t.largest_received_plus_one - 1) ≡ true)

pub has_received-lt :
    (t : ReceiverTracker) (j : ℕ) → has_received t j ≡ true → j < length t.received
unfolding has_received is_received
has_received-lt t j h = ground arith

-- A new chunk joins the set and no other leaves it.
has_received-store_received :
    (t : ReceiverTracker) (s j : ℕ)
    → s < length t.received
    → has_received (store_received t s) j ≡ (if s == j then true else has_received t j)
unfolding has_received is_received store_received
has_received-store_received t s j h =
    ground (arith, get_or-set t.received s j 1 0 h, length-set t.received s 1)

-- Outside the transfer, or a second time, nothing changes.
pub mark_received_cases :
    (t : ReceiverTracker) (s : ℕ)
    → ((mark_received t s ≡ (t, false)) × ((length t.received ≤ s) ⊎ (has_received t s ≡ true)))
      ⊎ ((mark_received t s ≡ (store_received t s, true))
          × (s < length t.received)
          × (has_received t s ≡ false))
unfolding mark_received has_received is_received
mark_received_cases t s =
    elim (Bool-cases (leb (length t.received) s || not (get_or t.received s 0 == 0))) [
      | inl e ↦ inl (rw e, ground arith)
      | inr e ↦ inr (rw e, ground arith, ground arith)
    ]

-- After `mark_received` a chunk has been received exactly if it was before or is the one given and
-- within the transfer; the call answers true exactly if that chunk was within the transfer and new.
pub has_received-mark_received :
    (t : ReceiverTracker) (s j : ℕ)
    → (has_received (mark_received t s).0 j
        ≡ (ltb s (length t.received) && (s == j) || has_received t j))
      × ((mark_received t s).1 ≡ (ltb s (length t.received) && not (has_received t s)))
has_received-mark_received t s j = elim (mark_received_cases t s) [
  | inl (e, seen) ↦ rw e (ground arith)
  | inr (e, within, new) ↦ rw e (ground (arith, has_received-store_received t s j))
]

module _ (t : ReceiverTracker) (s : ℕ) (v : IsTracking t) (within : s < length t.received)
    (new : has_received t s ≡ false) where
  after : ReceiverTracker
  after = store_received t s

  has_received-after : (j : ℕ) → has_received after j ≡ (if s == j then true else has_received t j)
  unfolding after
  has_received-after j = has_received-store_received t s j within

  kept : (j : ℕ) → has_received t j ≡ true → has_received after j ≡ true
  kept j h = ground (arith, has_received-after j)

  length-after : length after.received ≡ length t.received
  unfolding after store_received
  length-after = length-set t.received s 1

  largest-after : after.largest_received_plus_one ≡ max t.largest_received_plus_one (s + 1)
  unfolding after store_received
  largest-after = rw (inc32_fits s (omega (arith, v.fits)))

  count-after : after.received_count ≡ t.received_count + 1
  unfolding after store_received
  count-after = inc32_fits t.received_count (
      omega (
        arith,
        v.fits,
        v.counted,
        count_below_gain (has_received t) (has_received after) s (length t.received) within new
            (ground (arith, has_received-after s)) (λ i d. ground (arith, has_received-after i)),
        count_below-le (has_received after) (length t.received),
      ))

  counted-after : after.received_count ≡ count_below (has_received after) (length after.received)
  counted-after = omega (
    arith,
    count-after,
    v.counted,
    ap (count_below (has_received after)) length-after,
    count_below_gain (has_received t) (has_received after) s (length t.received) within new
        (ground (arith, has_received-after s)) (λ i d. ground (arith, has_received-after i)),
  )

  gap-after : Stops (has_received after) 0 after.cumulative_ack
  gap-after = record {
    from = omega arith;
    passed = λ j p q. elim (Bool-cases (ltb j t.cumulative_ack)) [
      | inl e ↦ kept j (v.gap.passed j p (ltb→lt _ _ e))
      | inr e ↦ loop.passed j (ltb→ge _ _ e) q
    ];
    stopped = loop.stopped;
  }
    where
      loop : Stops (has_received after) t.cumulative_ack after.cumulative_ack
      loop =
          unfold after has_received store_received in
          advance-Stops (is_received (set t.received s 1)) (length (set t.received s 1))
            (omega (arith, v.fits, length-set t.received s 1)) (λ j h. has_received-lt after j h)
            (length (set t.received s 1) + 1) t.cumulative_ack (omega arith)

  bounded-after : (j : ℕ) → has_received after j ≡ true → j < after.largest_received_plus_one
  bounded-after j h = ground (arith, has_received-after j, largest-after, v.bounded j)

  reached-after :
      (after.largest_received_plus_one ≡ 0)
      ⊎ (has_received after (after.largest_received_plus_one - 1) ≡ true)
  reached-after = elim (Bool-cases (ltb s t.largest_received_plus_one)) [
    | inl e ↦
        let same : after.largest_received_plus_one ≡ t.largest_received_plus_one =
          omega (arith, ltb→lt _ _ e, largest-after) in
        simp same (elim v.reached [ inl z ↦ inl z | inr r ↦ inr (kept _ r) ])
    | inr e ↦
        let same : after.largest_received_plus_one ≡ s + 1 =
          omega (arith, ltb→ge _ _ e, largest-after) in
        let last : s + 1 - 1 ≡ s = omega arith in
        inr (simp (same, last) (ground (arith, has_received-after s)))
  ]

  store_received-IsTracking : IsTracking after
  store_received-IsTracking = record {
    fits = rw length-after v.fits;
    counted = counted-after;
    gap = gap-after;
    bounded = bounded-after;
    reached = reached-after;
  }

-- `mark_received` keeps a tracker well formed, whatever the chunk: the count is the number of
-- chunks received, the cumulative ACK is the first chunk missing, and the largest received number
-- is one above the last chunk received, or 0.
pub mark_received-IsTracking :
    (t : ReceiverTracker) (s : ℕ) → IsTracking t → IsTracking (mark_received t s).0
mark_received-IsTracking t s v = elim (mark_received_cases t s) [
  | inl (e, seen) ↦ rw e v
  | inr (e, within, new) ↦ rw e (unfold after in store_received-IsTracking t s v within new)
]

pub new_receiver-IsTracking : (total : ℕ) → total < 2 ^ 32 → IsTracking (new_receiver total)
new_receiver-IsTracking total h =
    unfold new_receiver in
    record {
      fits = rw (length-replicate {A = ℕ} total 0) h;
      counted = sym (count_below_none _ _ (λ i l. empty i));
      gap = record {
        from = omega arith;
        passed = λ j p q. absurd (omega arith);
        stopped = empty 0;
      };
      bounded = λ j e. absurd (ground (arith, empty j));
      reached = inl refl;
    }
  where
    empty : (j : ℕ) → has_received (new_receiver total) j ≡ false
    empty j =
        unfold new_receiver has_received is_received in
        ground (arith, get_or-replicate {A = ℕ} total j 0)

-- For a well-formed tracker: `complete` holds exactly if every chunk has been received, and exactly
-- if the cumulative ACK is the number of chunks.
pub complete_iff :
    (t : ReceiverTracker)
    → IsTracking t
    → ((complete t ≡ true) ↔ ((j : ℕ) → j < length t.received → has_received t j ≡ true))
      × ((complete t ≡ true) ↔ (t.cumulative_ack ≡ length t.received))
unfolding complete
complete_iff t v = ((all, full), (at_end, from_end))
  where
    all : (complete t ≡ true) → (j : ℕ) → j < length t.received → has_received t j ≡ true
    all h = count_below_full (has_received t) (length t.received) (sym v.counted ∙ ==→eq _ _ h)

    full : ((j : ℕ) → j < length t.received → has_received t j ≡ true) → complete t ≡ true
    full h = eq→== _ _ (v.counted ∙ count_below_all (has_received t) (length t.received) h)

    within : t.cumulative_ack ≤ length t.received
    within = elim (Bool-cases (ltb (length t.received) t.cumulative_ack)) [
      | inl e ↦ absurd (
          omega (
            arith,
            has_received-lt t (length t.received)
                (v.gap.passed (length t.received) (omega arith) (ltb→lt _ _ e)),
          ))
      | inr e ↦ ltb→ge _ _ e
    ]

    at_end : (complete t ≡ true) → t.cumulative_ack ≡ length t.received
    at_end h = elim (Bool-cases (ltb t.cumulative_ack (length t.received))) [
      | inl e ↦ cc (v.gap.stopped, all h t.cumulative_ack (ltb→lt _ _ e))
      | inr e ↦ omega (arith, within, ltb→ge _ _ e)
    ]

    from_end : (t.cumulative_ack ≡ length t.received) → complete t ≡ true
    from_end e = full (λ j l. v.gap.passed j (omega arith) (omega (arith, e)))
