-- ===== src/Client/Sending/Passing.antt =====
-- A pass of the loop of `run_client` in src/client.cpp in which no system call fails.
use ee542_lab2_fast_reliable.Common.{
  ℕ, ◌≡◌, refl, List, [], ◌∷◌, Option, none, some, ltb, Bool-cases, inl, inr, arith, All, Result,
  ok, ◌>>=◌, Exception,
}
use ee542_lab2_fast_reliable.Net.{Datagram}
use ee542_lab2_fast_reliable.Protocol.Types.{ack, PacketView, AckPayload}
use ee542_lab2_fast_reliable.Reliability.State.{SenderWindow, SendDecision}
use ee542_lab2_fast_reliable.Reliability.Sender.{select_next_packet, mark_sent, check_timeouts}
use ee542_lab2_fast_reliable.Reliability.Sender.Window.{IsWindow}
use ee542_lab2_fast_reliable.Reliability.Sender.Sent.{mark_sent_cases}
use ee542_lab2_fast_reliable.Reliability.Sender.Marks.{
  select_next_packet-lt, select_next_packet-unacked,
}
use ee542_lab2_fast_reliable.Reliability.Sender.Issued.{
  IsIssued, process_ack-IsIssued, check_timeouts-IsIssued, select_none-IsIssued, mark_sent-IsIssued,
}
use ee542_lab2_fast_reliable.Reliability.Sender.History.{
  IsLive, step, selects, sends, receives, checks, step-IsLive,
}
use ee542_lab2_fast_reliable.Client.Diagnostics.{TimingStats, begin_no_send}
use ee542_lab2_fast_reliable.Client.Receiving.{
  Ready, poll_timed_out, poll_interrupted, poll_failed, receive_interrupted, receive_failed,
  received, Turn, take_packet, take_ready, add_poll, end_turn, receive_expected, expected_packet,
  applied_ack, apply_ack, apply_ack_packet, apply_expected, Drained, would_block, interrupted,
  failed, datagram, drain_acks, end_wait, wait_for_ack,
}
use ee542_lab2_fast_reliable.Client.Sending.{
  Connection, Progress, Pass, send_chunk, end_idle, idle, transmit, take_sample, decide, rto,
  pass_once,
}
use ee542_lab2_fast_reliable.Client.Sending.Chunk.{IsConnection, send_chunk-ok}

-- `recvfrom` does not fail, but for `EINTR` and an empty socket.
abbrev pub DrainsWell : Drained → Type 0
DrainsWell would_block = Unit
DrainsWell interrupted = Unit
DrainsWell failed = ⊥
DrainsWell (datagram source bytes now) = Unit

abbrev pub ReadsWell : Ready → Type 0
ReadsWell poll_timed_out = Unit
ReadsWell poll_interrupted = Unit
ReadsWell poll_failed = ⊥
ReadsWell receive_interrupted = Unit
ReadsWell receive_failed = ⊥
ReadsWell (received source bytes) = Unit

-- No system call of a pass fails.
pub record GoesWell (pass : Pass) : Type 0 where
  pub before : All DrainsWell pass.drained
  pub meanwhile : All (λ turn. ReadsWell turn.ready) pass.turns
  pub behind : All DrainsWell pass.drained_after

-- The call returns, and its result has the property.
abbrev pub Succeeds {ℓ κ} : {A : Type ℓ} → (A → Type κ) → Result Exception A → Type (ℓ ⊔ κ)
Succeeds {A = A} P r = (a : A) × (r ≡ ok a) × P a

pub Succeeds->>= {ℓ ℓ' κ κ'} :
    {A : Type ℓ} {B : Type ℓ'} (P : A → Type κ) (Q : B → Type κ') (r : Result Exception A)
    (f : A → Result Exception B)
    → Succeeds P r
    → ((a : A) → P a → Succeeds Q (f a))
    → Succeeds Q (r >>= f)
Succeeds->>= P Q r f (a, e, p) next = rw e (next a p)

module _ (c : Connection) (begin : ℕ) where
  abbrev pub Live : SenderWindow → Type 0
  Live w = IsLive c.total_chunks c.accepted_window_chunks c.accepted_bitmap_bits begin w

  pub apply_expected-Live :
      (packet : Option PacketView) (now : ℕ) (w : SenderWindow)
      → Live w
      → Live (apply_expected packet now w)
  unfolding apply_expected apply_ack_packet step
  apply_expected-Live none now w l = l
  apply_expected-Live (some packet) now w l = go (applied_ack packet)
    where
      go : (applied : Option AckPayload) → Live (apply_ack applied now w)
      go none = unfold apply_ack in l
      go (some payload) = unfold apply_ack in step-IsLive _ _ _ begin w (receives payload now) l

  apply_expected-IsIssued :
      (packet : Option PacketView) (now : ℕ) (w : SenderWindow)
      → IsWindow w
      → IsIssued w
      → IsIssued (apply_expected packet now w)
  unfolding apply_expected apply_ack_packet
  apply_expected-IsIssued none now w v issued = issued
  apply_expected-IsIssued (some packet) now w v issued = go (applied_ack packet)
    where
      go : (applied : Option AckPayload) → IsIssued (apply_ack applied now w)
      go none = unfold apply_ack in issued
      go (some payload) = unfold apply_ack in process_ack-IsIssued w v issued payload now

  -- Between two passes.
  abbrev pub IsReady : SenderWindow → Type 0
  IsReady w = Live w × IsIssued w

  apply_expected-IsReady :
      (packet : Option PacketView) (now : ℕ) (w : SenderWindow)
      → IsReady w
      → IsReady (apply_expected packet now w)
  apply_expected-IsReady packet now w (l, issued) =
      (apply_expected-Live packet now w l, apply_expected-IsIssued packet now w l.valid issued)

  drain_acks-Succeeds :
      (turns : List Drained) (w : SenderWindow)
      → All DrainsWell turns
      → IsReady w
      → Succeeds IsReady (drain_acks c.server c.session_id turns w)
  unfolding drain_acks
  drain_acks-Succeeds [] w g l = (w, refl, l)
  drain_acks-Succeeds (would_block ∷ turns) w g l = (w, refl, l)
  drain_acks-Succeeds (interrupted ∷ turns) w g l = drain_acks-Succeeds turns w g.1 l
  drain_acks-Succeeds (failed ∷ turns) w g l = absurd (g.0)
  drain_acks-Succeeds (datagram source bytes now ∷ turns) w g l =
      drain_acks-Succeeds turns _ g.1
        (apply_expected-IsReady (expected_packet c.server ack c.session_id source bytes) now w l)

  abbrev Anything : Option PacketView × Option TimingStats → Type 0
  Anything r = Unit

  take_ready-Succeeds :
      (ready : Ready) (stats : Option TimingStats)
      (later : Option TimingStats → Result Exception (Option PacketView × Option TimingStats))
      → ReadsWell ready
      → Succeeds Anything (later stats)
      → Succeeds Anything (end_turn (take_ready c.server ack c.session_id ready) stats later)
  unfolding take_ready end_turn
  take_ready-Succeeds poll_timed_out stats later g h = (_, refl, tt)
  take_ready-Succeeds poll_interrupted stats later g h = h
  take_ready-Succeeds poll_failed stats later g h = absurd g
  take_ready-Succeeds receive_interrupted stats later g h = h
  take_ready-Succeeds receive_failed stats later g h = absurd g
  take_ready-Succeeds (received source bytes) stats later g h =
      go (expected_packet c.server ack c.session_id source bytes)
    where
      go :
          (packet : Option PacketView)
          → Succeeds Anything (end_turn (take_packet packet) stats later)
      go none = unfold take_packet in h
      go (some packet) = unfold take_packet in (_, refl, tt)

  receive_expected-Succeeds :
      (deadline : ℕ) (turns : List Turn) (stats : Option TimingStats)
      → All (λ turn. ReadsWell turn.ready) turns
      → Succeeds Anything (receive_expected c.server ack c.session_id deadline turns stats)
  unfolding receive_expected
  receive_expected-Succeeds deadline [] stats g = (_, refl, tt)
  receive_expected-Succeeds deadline (turn ∷ turns) stats g =
      elim (Bool-cases (ltb turn.now deadline)) [
        | inl e ↦ rw e (
            take_ready-Succeeds turn.ready (add_poll turn stats)
              (λ s. receive_expected c.server ack c.session_id deadline turns s) g.0
              (receive_expected-Succeeds deadline turns (add_poll turn stats) g.1))
        | inr e ↦ rw e (_, refl, tt)
      ]

  wait_for_ack-Succeeds :
      (start : ℕ) (turns : List Turn) (now : ℕ) (w : SenderWindow) (stats : TimingStats)
      → All (λ turn. ReadsWell turn.ready) turns
      → IsReady w
      → Succeeds (λ r. IsReady r.0) (wait_for_ack c.server c.session_id start turns now w stats)
  unfolding wait_for_ack end_wait
  wait_for_ack-Succeeds start turns now w stats g l =
      Succeeds->>= Anything (λ r. IsReady r.0) _ (end_wait now w stats)
        (receive_expected-Succeeds _ turns (some stats) g)
        (λ r q. (_, refl, apply_expected-IsReady r.0 now w l))

  -- What a pass does once the window has chosen: nothing is sent, or the chosen chunk is.
  abbrev pub Transmits : Option SendDecision → Progress × List Datagram → Type 0
  Transmits none (p, datagrams) = IsReady p.window × (datagrams ≡ [])
  Transmits (some decision) (p, datagrams) =
      IsReady p.window × ((d : Datagram) × (send_chunk c decision ≡ ok d) × (datagrams ≡ d ∷ []))

  idle-Succeeds :
      (pass : Pass) (p : Progress)
      → GoesWell pass
      → IsReady p.window
      → Succeeds (Transmits none) (idle c pass p)
  unfolding idle end_idle
  idle-Succeeds pass p g l =
      let blocked : Progress = record p {
        diagnostics = begin_no_send p.diagnostics pass.idle_start;
      } in
      Succeeds->>= (λ r. IsReady r.0) (Transmits none) _ (end_idle c pass blocked)
        (wait_for_ack-Succeeds pass.wait_start pass.turns pass.ack_time p.window
          blocked.diagnostics.poll_wait g.meanwhile l)
        (λ r q. (_, refl, (q, refl)))

  -- A chunk that has just been chosen can be marked as sent.
  mark_sent-selected :
      (w : SenderWindow) (decision : SendDecision) (time : ℕ)
      → IsReady w
      → (select_next_packet w).0 ≡ some decision
      → Succeeds IsReady (mark_sent (select_next_packet w).1 decision.sequence time)
  unfolding step
  mark_sent-selected w decision time (l, issued) e =
      let w' = (select_next_packet w).1 in
      let l' : Live w' = step-IsLive _ _ _ begin w selects l in
      let (below, waits) = select_next_packet-unacked w l.valid decision e in
      elim (mark_sent_cases w' decision.sequence time l'.valid) [
        | inl (w'', marked, _, _, _) ↦
            let next = step-IsLive _ _ _ begin w' (sends decision.sequence time) l' in
            let sent = mark_sent-IsIssued w l.valid issued decision time w'' l'.valid e marked in
            (w'', marked, (rw marked at next, sent))
        | inr (thrown, inl why) ↦ absurd (omega arith)
        | inr (thrown, inr why) ↦ absurd (cc)
      ]

module _ (c : Connection) (v : IsConnection c) (begin : ℕ) where
  transmit-Succeeds :
      (pass : Pass) (decision : SendDecision) (p : Progress) (w : SenderWindow)
      → GoesWell pass
      → IsReady c begin w
      → (select_next_packet w).0 ≡ some decision
      → p.window ≡ (select_next_packet w).1
      → Succeeds (Transmits c begin (some decision)) (transmit c pass decision p)
  unfolding transmit
  transmit-Succeeds pass decision p w g l e at_p =
      let (live, _) = l in
      let below = select_next_packet-lt w live.valid decision e in
      let (d, sent) =
        send_chunk-ok c v decision (omega (arith, live.total_is))
          (omega (arith, live.valid.fits, live.total_is)) in
      let marks : Succeeds (IsReady c begin) (mark_sent p.window decision.sequence pass.sent_time) =
        rw at_p (mark_sent-selected c begin w decision pass.sent_time l e) in
      Succeeds->>= (λ d'. send_chunk c decision ≡ ok d') (Transmits c begin (some decision)) _ _
        (d, sent, sent)
        (λ d' sent'.
          Succeeds->>= (IsReady c begin) (Transmits c begin (some decision)) _ _ marks (λ marked l'.
            Succeeds->>= (IsReady c begin) (Transmits c begin (some decision)) _ _
              (drain_acks-Succeeds c begin pass.drained_after marked g.behind l')
              (λ drained l''. (_, refl, (l'', (d', sent', refl))))))

  decide-Succeeds :
      (pass : Pass) (p : Progress) (w : SenderWindow)
      → GoesWell pass
      → IsReady c begin w
      → (selected : Option SendDecision × SenderWindow) → select_next_packet w ≡ selected
      → Succeeds (Transmits c begin selected.0) (decide c pass p selected)
  unfolding decide step
  decide-Succeeds pass p w g (l, issued) (none, window) e =
      let next = step-IsLive _ _ _ begin w selects l in
      let kept = select_none-IsIssued w l.valid issued (rw e refl) in
      idle-Succeeds c begin pass (record p { window = window }) g
        (rw (step, e) at next, rw e at kept)
  decide-Succeeds pass p w g l (some decision, window) e =
      transmit-Succeeds pass decision (record p { window = window }) w g l (rw e refl) (rw e refl)

  -- For a connection with the sizes that the client computes and a live window in which every
  -- selected chunk is in flight or acknowledged: a pass in which no system call fails throws
  -- nothing and leaves such a window; it sends the chunk that the window selects after its ACKs are
  -- drained and its timeouts checked, or nothing if the window selects none.
  pub pass_once-Succeeds :
      (pass : Pass) (p : Progress)
      → GoesWell pass
      → IsReady c begin p.window
      → (drained : SenderWindow) × (drain_acks c.server c.session_id pass.drained p.window
          ≡ ok drained)
        × IsReady c begin drained
        × Succeeds
            (Transmits c begin
              (select_next_packet (check_timeouts drained pass.timeout_time rto)).0)
            (pass_once c pass p)
  unfolding pass_once step
  pass_once-Succeeds pass p g l =
      let (drained, e, l') = drain_acks-Succeeds c begin pass.drained p.window g.before l in
      let checked = check_timeouts drained pass.timeout_time rto in
      let l'' : IsReady c begin checked = (
        step-IsLive _ _ _ begin drained (checks pass.timeout_time rto) (l'.0),
        check_timeouts-IsIssued drained (l'.0.valid) (l'.1) pass.timeout_time rto,
      ) in
      let decided =
        decide-Succeeds pass (take_sample pass (record p { window = checked })) checked g l''
          (select_next_packet checked) refl in
      (drained, e, l', rw e decided)
