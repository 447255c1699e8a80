-- ===== src/Client/Sending/Keeps.antt =====
-- What the loop of `run_client` in src/client.cpp leaves true of its window, pass by pass.
use ee542_lab2_fast_reliable.Common.{
  ℕ, ◌≡◌, refl, List, [], ◌∷◌, Option, none, some, true, ltb, Bool-cases, inl, inr, All, Result, ok,
  err, ◌>>=◌, Exception, Returns, Returns->>=,
}
use ee542_lab2_fast_reliable.Net.{Endpoint, Datagram}
use ee542_lab2_fast_reliable.Protocol.Types.{ack, PacketView}
use ee542_lab2_fast_reliable.Reliability.State.{SenderWindow, SendDecision}
use ee542_lab2_fast_reliable.Reliability.Sender.{
  select_next_packet, mark_sent, check_timeouts, all_acked,
}
use ee542_lab2_fast_reliable.Client.Diagnostics.{TimingStats, begin_no_send}
use ee542_lab2_fast_reliable.Client.Receiving.{
  Ready, poll_timed_out, poll_interrupted, poll_failed, receive_interrupted, receive_failed,
  received, Turn, take_packet, take_ready, add_poll, end_turn, receive_expected, expected_packet,
  apply_expected, Drained, would_block, interrupted, failed, datagram, drain_acks, end_wait,
  wait_for_ack,
}
use ee542_lab2_fast_reliable.Client.Sending.{
  Connection, Progress, Pass, send_chunk, end_idle, idle, take_slot, transmit, take_sample,
  count_sent, decide, rto, pass_once, Transferring, running, transferred, with_sent, next_pass,
  transfer,
}

-- What arrives in a turn of `drain_acks`, and in a turn of `receive_expected`.
abbrev pub Drains {κ} : (Endpoint → List ℕ → Type κ) → Drained → Type κ
Drains Arrives (datagram source bytes now) = Arrives source bytes
Drains Arrives would_block = Unit {κ}
Drains Arrives interrupted = Unit {κ}
Drains Arrives failed = Unit {κ}

abbrev pub Reads {κ} : (Endpoint → List ℕ → Type κ) → Ready → Type κ
Reads Arrives (received source bytes) = Arrives source bytes
Reads Arrives poll_timed_out = Unit {κ}
Reads Arrives poll_interrupted = Unit {κ}
Reads Arrives poll_failed = Unit {κ}
Reads Arrives receive_interrupted = Unit {κ}
Reads Arrives receive_failed = Unit {κ}

-- All datagrams of a pass.
pub record Gets {κ} (Arrives : Endpoint → List ℕ → Type κ) (pass : Pass) : Type κ where
  pub before : All (Drains Arrives) pass.drained
  pub meanwhile : All (λ turn. Reads Arrives turn.ready) pass.turns
  pub behind : All (Drains Arrives) pass.drained_after

-- A property of windows that the calls of a pass keep, for datagrams with the property `Arrives`.
pub record IsKept {ℓ κ} (c : Connection) (P : SenderWindow → Type ℓ)
    (Arrives : Endpoint → List ℕ → Type κ) : Type (ℓ ⊔ κ) where
  pub hears :
      (w : SenderWindow) (source : Endpoint) (bytes : List ℕ) (now : ℕ)
      → Arrives source bytes
      → P w
      → P (apply_expected (expected_packet c.server ack c.session_id source bytes) now w)
  pub checks : (w : SenderWindow) (now : ℕ) → P w → P (check_timeouts w now rto)
  pub selects : (w : SenderWindow) → P w → P (select_next_packet w).1
  pub sends : (w : SenderWindow) (sequence time : ℕ) → P w → Returns P (mark_sent w sequence time)

-- What a pass sends: nothing, or a chunk that it selected.
pub data Sends {ℓ} (c : Connection) (P : SenderWindow → Type ℓ) : List Datagram → Type ℓ where
  no_chunk : Sends c P []
  one_chunk :
      (w : SenderWindow) (decision : SendDecision) (d : Datagram)
      → P w
      → (select_next_packet w).0 ≡ some decision
      → send_chunk c decision ≡ ok d
      → Sends c P (d ∷ [])

-- The loop, when it ends or goes on.
abbrev pub Ends {ℓ} : (SenderWindow → Type ℓ) → Transferring → Type ℓ
Ends P (running p datagrams) = P p.window
Ends P (transferred p datagrams) = P p.window × (all_acked p.window ≡ true)

module _ {ℓ κ} (c : Connection) (P : SenderWindow → Type ℓ) (Arrives : Endpoint → List ℕ → Type κ)
    (kept : IsKept c P Arrives) where
  drain_acks-Keeps :
      (turns : List Drained) (w : SenderWindow)
      → All (Drains Arrives) turns
      → P w
      → Returns P (drain_acks c.server c.session_id turns w)
  unfolding drain_acks
  drain_acks-Keeps [] w a p = p
  drain_acks-Keeps (would_block ∷ turns) w a p = p
  drain_acks-Keeps (interrupted ∷ turns) w a p = drain_acks-Keeps turns w a.1 p
  drain_acks-Keeps (failed ∷ turns) w a p = tt
  drain_acks-Keeps (datagram source bytes now ∷ turns) w a p =
      drain_acks-Keeps turns _ a.1 (kept.hears w source bytes now a.0 p)

  -- A packet that the loop returns applies to any window as one that arrived does.
  abbrev Applies : Option PacketView → Type ℓ
  Applies packet = (w : SenderWindow) (now : ℕ) → P w → P (apply_expected packet now w)

  Applies-none : Applies none
  unfolding apply_expected
  Applies-none w now p = p

  module _ (stats : Option TimingStats)
      (later : Option TimingStats → Result Exception (Option PacketView × Option TimingStats))
      (h : Returns (λ r. Applies r.0) (later stats)) where
    take_packet-Keeps :
        (source : Endpoint) (bytes : List ℕ) (packet : Option PacketView)
        → expected_packet c.server ack c.session_id source bytes ≡ packet
        → Arrives source bytes
        → Returns (λ r. Applies r.0) (end_turn (take_packet packet) stats later)
    unfolding take_packet end_turn
    take_packet-Keeps source bytes none e a = h
    take_packet-Keeps source bytes (some packet) e a =
        λ w now p. rw e at (kept.hears w source bytes now a p)

    take_ready-Keeps :
        (ready : Ready)
        → Reads Arrives ready
        → Returns
            (λ r. Applies r.0)
            (end_turn (take_ready c.server ack c.session_id ready) stats later)
    unfolding take_ready end_turn
    take_ready-Keeps poll_timed_out a = Applies-none
    take_ready-Keeps poll_interrupted a = h
    take_ready-Keeps poll_failed a = tt
    take_ready-Keeps receive_interrupted a = h
    take_ready-Keeps receive_failed a = tt
    take_ready-Keeps (received source bytes) a =
        take_packet-Keeps source bytes (expected_packet c.server ack c.session_id source bytes) refl
          a

  receive_expected-Keeps :
      (deadline : ℕ) (turns : List Turn) (stats : Option TimingStats)
      → All (λ turn. Reads Arrives turn.ready) turns
      → Returns (λ r. Applies r.0) (receive_expected c.server ack c.session_id deadline turns stats)
  unfolding receive_expected
  receive_expected-Keeps deadline [] stats a = Applies-none
  receive_expected-Keeps deadline (turn ∷ turns) stats a =
      elim (Bool-cases (ltb turn.now deadline)) [
        | inl e ↦ rw e (
            take_ready-Keeps (add_poll turn stats)
              (λ stats'. receive_expected c.server ack c.session_id deadline turns stats')
              (receive_expected-Keeps deadline turns (add_poll turn stats) a.1) turn.ready a.0)
        | inr e ↦ rw e Applies-none
      ]

  wait_for_ack-Keeps :
      (begin : ℕ) (turns : List Turn) (now : ℕ) (w : SenderWindow) (stats : TimingStats)
      → All (λ turn. Reads Arrives turn.ready) turns
      → P w
      → Returns (λ r. P r.0) (wait_for_ack c.server c.session_id begin turns now w stats)
  unfolding wait_for_ack end_wait
  wait_for_ack-Keeps begin turns now w stats a p =
      Returns->>= (λ r. Applies r.0) (λ r. P r.0) _ (end_wait now w stats)
        (receive_expected-Keeps _ turns (some stats) a) (λ r q. q w now p)

  -- The window after a pass, and what the pass has sent.
  abbrev pub Passed : Progress × List Datagram → Type ℓ
  Passed (p, datagrams) = P p.window × Sends c P datagrams

  idle-Keeps :
      (pass : Pass) (p : Progress) → Gets Arrives pass → P p.window → Returns Passed (idle c pass p)
  unfolding idle end_idle
  idle-Keeps pass p a h =
      let blocked : Progress = record p {
        diagnostics = begin_no_send p.diagnostics pass.idle_start;
      } in
      Returns->>= (λ r. P r.0) Passed _ (end_idle c pass blocked)
        (wait_for_ack-Keeps pass.wait_start pass.turns pass.ack_time p.window
          blocked.diagnostics.poll_wait a.meanwhile h)
        (λ r q. (q, no_chunk))

  transmit-Keeps :
      (pass : Pass) (decision : SendDecision) (p : Progress) (w : SenderWindow)
      → Gets Arrives pass
      → P w
      → (select_next_packet w).0 ≡ some decision
      → P p.window
      → Returns Passed (transmit c pass decision p)
  unfolding transmit
  transmit-Keeps pass decision p w a from e h = go (send_chunk c decision) refl
    where
      go :
          (r : Result Exception Datagram)
          → send_chunk c decision ≡ r
          → Returns Passed (
              r >>= (λ d. mark_sent p.window decision.sequence pass.sent_time >>= (λ window.
                drain_acks c.server c.session_id pass.drained_after window >>= (λ drained. ok (
                  record (count_sent decision (record (take_slot pass p) { window = window })) {
                    window = drained;
                  },
                  d ∷ [],
                )))))
      go (err x) s = tt
      go (ok d) s =
          Returns->>= P Passed _ _ (kept.sends p.window decision.sequence pass.sent_time h) (λ v q.
            Returns->>= P Passed _ _ (drain_acks-Keeps pass.drained_after v a.behind q)
              (λ u r. (r, one_chunk w decision d from e s)))

  decide-Keeps :
      (pass : Pass) (p : Progress) (w : SenderWindow)
      → Gets Arrives pass
      → P w
      → (selected : Option SendDecision × SenderWindow) → select_next_packet w ≡ selected
      → Returns Passed (decide c pass p selected)
  unfolding decide
  decide-Keeps pass p w a k (none, window) e =
      idle-Keeps pass (record p { window = window }) a (rw e at (kept.selects w k))
  decide-Keeps pass p w a k (some decision, window) e =
      transmit-Keeps pass decision (record p { window = window }) w a k (rw e refl)
        (rw e at (kept.selects w k))

  pub pass_once-Keeps :
      (pass : Pass) (p : Progress)
      → Gets Arrives pass
      → P p.window
      → Returns Passed (pass_once c pass p)
  unfolding pass_once
  pass_once-Keeps pass p a h =
      Returns->>= P Passed _ _ (drain_acks-Keeps pass.drained p.window a.before h) (λ v q.
        let checked = check_timeouts v pass.timeout_time rto in
        let k : P checked = kept.checks v pass.timeout_time q in
        decide-Keeps pass (take_sample pass (record p { window = checked })) checked a k
          (select_next_packet checked) refl)

  with_sent-Keeps :
      (datagrams : List Datagram) (r : Result Exception Transferring)
      → Returns (Ends P) r
      → Returns (Ends P) (with_sent datagrams r)
  unfolding with_sent
  with_sent-Keeps datagrams (ok (running p later)) h = h
  with_sent-Keeps datagrams (ok (transferred p later)) h = h
  with_sent-Keeps datagrams (err e) h = h

  next_pass-Keeps :
      (r : Result Exception (Progress × List Datagram))
      (later : Progress → Result Exception Transferring)
      → Returns Passed r
      → ((p : Progress) → P p.window → Returns (Ends P) (later p))
      → Returns (Ends P) (next_pass r later)
  unfolding next_pass
  next_pass-Keeps (ok (p, datagrams)) later h next =
      with_sent-Keeps datagrams (later p) (next p h.0)
  next_pass-Keeps (err e) later h next = tt

  pub transfer-Keeps :
      (passes : List Pass) (p : Progress)
      → All (Gets Arrives) passes
      → P p.window
      → Returns (Ends P) (transfer c passes p)
  unfolding transfer
  transfer-Keeps [] p a h = elim (Bool-cases (all_acked p.window)) [
    | inl e ↦ rw e (h, e)
    | inr e ↦ rw e h
  ]
  transfer-Keeps (pass ∷ passes) p a h = elim (Bool-cases (all_acked p.window)) [
    | inl e ↦ rw e (h, e)
    | inr e ↦ rw e (
        next_pass-Keeps (pass_once c pass p) (λ p'. transfer c passes p')
          (pass_once-Keeps pass p a.0 h) (λ p' h'. transfer-Keeps passes p' a.1 h'))
  ]
