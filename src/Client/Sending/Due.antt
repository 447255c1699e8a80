-- ===== src/Client/Sending/Due.antt =====
-- When a pass of the loop of `run_client` in src/client.cpp sends.
use ee542_lab2_fast_reliable.Common.{
  ℕ, ◌<◌, ◌≡◌, refl, List, [], ◌∷◌, Option, none, some, false, Bool-cases, inl, inr, All, Result,
  Exception, ok, arith, ap, ◌∙◌, subst,
}
use ee542_lab2_fast_reliable.Net.{Datagram}
use ee542_lab2_fast_reliable.Protocol.Sizes.{chunk_count_iff}
use ee542_lab2_fast_reliable.Reliability.State.{SenderWindow, SendDecision}
use ee542_lab2_fast_reliable.Reliability.Sender.{all_acked}
use ee542_lab2_fast_reliable.Reliability.Sender.Due.{IsTimedOut, select_next_packet-check_timeouts}
use ee542_lab2_fast_reliable.Reliability.Sender.History.{new_sender_iff, fresh_window-IsLive}
use ee542_lab2_fast_reliable.Client.Receiving.{drain_acks}
use ee542_lab2_fast_reliable.Client.Sending.{
  Connection, Progress, Pass, rto, pass_once, Transferring, running, transferred, with_sent,
  next_pass, transfer,
}
use ee542_lab2_fast_reliable.Client.Sending.Chunk.{IsConnection}
use ee542_lab2_fast_reliable.Client.Sending.Passing.{
  IsReady, GoesWell, Succeeds, Transmits, pass_once-Succeeds,
}
use ee542_lab2_fast_reliable.Client.Control.{Run, begin_transfer}
use ee542_lab2_fast_reliable.Client.Control.Report.{begin_transfer-new_sender}

only_sent :
    (r : Result Exception (Progress × List Datagram)) (p : Progress) (a b : List Datagram)
    → r ≡ ok (p, a)
    → a ≡ b
    → r ≡ ok (p, b)
only_sent r p a b e f = e ∙ ap (λ x. ok (p, x)) f

ok_value {ℓ} : {A : Type ℓ} → (r : Result Exception A) (a b : A) → r ≡ ok a → r ≡ ok b → a ≡ b
ok_value r a b e f = cc

begun-IsReady :
    (c : Connection)
    → IsConnection c
    → (run : Run) (first : Progress) → begin_transfer c run ≡ ok first
    → IsReady c run.begin first.window × (0 < c.accepted_window_chunks)
begun-IsReady c v run first e =
    let made = begin_transfer-new_sender c run first e in
    let (some_chunk, covered, fresh) = (new_sender_iff _ _ _ _ first.window).0 made in
    let (_, small, _, _) = (chunk_count_iff _ _ _).0 v.counted in
    let live =
      fresh_window-IsLive c.total_chunks c.accepted_window_chunks c.accepted_bitmap_bits run.begin
        small covered in
    (rw fresh (live, λ j h. absurd (omega arith)), some_chunk)

-- The loop, over passes that go well.
abbrev EndsReady : Connection → ℕ → Transferring → Type 0
EndsReady c begin (running p datagrams) = IsReady c begin p.window
EndsReady c begin (transferred p datagrams) = IsReady c begin p.window

module _ (c : Connection) (v : IsConnection c) (begin : ℕ) where
  transmitted-IsReady :
      (chosen : Option SendDecision) (r : Progress × List Datagram)
      → Transmits c begin chosen r
      → IsReady c begin r.0.window
  transmitted-IsReady none r h = h.0
  transmitted-IsReady (some decision) r h = h.0

  with_sent-Succeeds :
      (datagrams : List Datagram) (r : Result Exception Transferring)
      → Succeeds (EndsReady c begin) r
      → Succeeds (EndsReady c begin) (with_sent datagrams r)
  unfolding with_sent
  with_sent-Succeeds datagrams r (running p later, e, h) = rw e (running p _, refl, h)
  with_sent-Succeeds datagrams r (transferred p later, e, h) = rw e (transferred p _, refl, h)

  transfer-Succeeds :
      (passes : List Pass) (p : Progress)
      → All GoesWell passes
      → IsReady c begin p.window
      → Succeeds (EndsReady c begin) (transfer c passes p)
  unfolding transfer
  transfer-Succeeds [] p g h = elim (Bool-cases (all_acked p.window)) [
    | inl e ↦ rw e (transferred p [], refl, h)
    | inr e ↦ rw e (running p [], refl, h)
  ]
  transfer-Succeeds (pass ∷ passes) p g h = elim (Bool-cases (all_acked p.window)) [
    | inl e ↦ rw e (transferred p [], refl, h)
    | inr e ↦
        let (w, _, _, ((p', datagrams), passed, transmits)) =
          pass_once-Succeeds c v begin pass p g.0 h in
        let later =
          transfer-Succeeds passes p' g.1 (transmitted-IsReady _ (p', datagrams) transmits) in
        rw e (
          rw passed (unfold next_pass in with_sent-Succeeds datagrams (transfer c passes p') later))
  ]

  sends_when_due :
      (pass : Pass) (p : Progress) (w : SenderWindow)
      → 0 < c.accepted_window_chunks
      → IsReady c begin p.window
      → GoesWell pass
      → drain_acks c.server c.session_id pass.drained p.window ≡ ok w
      → all_acked w ≡ false
      → IsTimedOut w pass.timeout_time rto
      → (p' : Progress) × (d : Datagram) × (pass_once c pass p ≡ ok (p', d ∷ []))
  sends_when_due pass p w window ready g drained rest late =
      let (w', e', live, ((p', datagrams), passed, transmits)) =
        pass_once-Succeeds c v begin pass p g ready in
      let same =
        ok_value (drain_acks c.server c.session_id pass.drained p.window) w' w e' drained in
      let (l, issued) : IsReady c begin w = rw same at live in
      let (decision, chosen) =
        select_next_packet-check_timeouts w pass.timeout_time rto l.valid l.settled issued late
          (omega (arith, l.window_is)) rest in
      let (_, (d, _, one)) : Transmits c begin (some decision) (p', datagrams) =
        rw (same, chosen) at transmits in
      (p', d, only_sent (pass_once c pass p) p' datagrams (d ∷ []) passed one)

  transferred-IsReady :
      (passes : List Pass) (first : Progress) (p : Progress) (sent : List Datagram)
      → All GoesWell passes
      → IsReady c begin first.window
      → transfer c passes first ≡ ok (running p sent)
      → IsReady c begin p.window
  transferred-IsReady passes first p sent well ready e =
      let (end, ended, ends) = transfer-Succeeds passes first well ready in
      let same = ok_value (transfer c passes first) end (running p sent) ended e in
      subst (EndsReady c begin) same ends

-- For a client with the sizes it computes that has begun its loop: after any passes in which no
-- system call fails, in a further such pass: if after draining the ACKs not every chunk is
-- acknowledged and the last transmission of each chunk in flight is 500 ms old when the timeouts
-- are checked, then the pass returns and sends exactly one datagram.
pub pass_once-sends :
    (c : Connection) (run : Run) (first : Progress) (passes : List Pass) (p : Progress)
    (sent : List Datagram) (pass : Pass) (w : SenderWindow)
    → IsConnection c
    → begin_transfer c run ≡ ok first
    → All GoesWell passes
    → transfer c passes first ≡ ok (running p sent)
    → GoesWell pass
    → drain_acks c.server c.session_id pass.drained p.window ≡ ok w
    → all_acked w ≡ false
    → IsTimedOut w pass.timeout_time rto
    → (p' : Progress) × (d : Datagram) × (pass_once c pass p ≡ ok (p', d ∷ []))
pass_once-sends c run first passes p sent pass w v begun well e g drained rest late =
    let (ready, window) = begun-IsReady c v run first begun in
    let here = transferred-IsReady c v run.begin passes first p sent well ready e in
    sends_when_due c v run.begin pass p w window here g drained rest late
