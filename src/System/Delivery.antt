-- ===== src/System/Delivery.antt =====
-- What a transfer between src/client.cpp and src/server.cpp has achieved when the client's loop ends.
use ee542_lab2_fast_reliable.Common.{ℕ, ◌≡◌, refl, List, [], ◌∷◌, true, arith, All, ok}
use ee542_lab2_fast_reliable.Net.{Datagram, make_header, send_packet}
use ee542_lab2_fast_reliable.Protocol.Types.{start, StartPayload}
use ee542_lab2_fast_reliable.Protocol.Payloads.{serialize_start}
use ee542_lab2_fast_reliable.Reliability.Receiver.{has_received}
use ee542_lab2_fast_reliable.Reliability.Receiver
use ee542_lab2_fast_reliable.Reliability.Receiver.Tracking.{complete_iff}
use ee542_lab2_fast_reliable.Reliability.Sender.{all_acked}
use ee542_lab2_fast_reliable.Reliability.Sender.History
use ee542_lab2_fast_reliable.Reliability.Sender.Window.{acked_at}
use ee542_lab2_fast_reliable.Reliability.Sender.History.{
  IsLive, all_acked_iff, run, run-new_sender, new_sender_iff, fresh_window-IsLive,
}
use ee542_lab2_fast_reliable.Client.Sending.{Connection}
use ee542_lab2_fast_reliable.Client.Control.{Run, begin_transfer}
use ee542_lab2_fast_reliable.Client.Control.Report.{begin_transfer-new_sender}
use ee542_lab2_fast_reliable.Server.{Transfer, Session, new_session, send_start_ack}
use ee542_lab2_fast_reliable.Server.Safety.{
  closed-IsFinished, IsFinished-same_file, new_session-IsServing,
}
use ee542_lab2_fast_reliable.System.{World, Reach}
use ee542_lab2_fast_reliable.System.Upstream.{IsSameTransfer, IsTruthful, send_packet-IsTruthful}
use ee542_lab2_fast_reliable.System.Downstream.{IsHonest, send_start_ack-IsHonest}
use ee542_lab2_fast_reliable.System.Agreed.{IsAgreed, total_fits, Reach-IsAgreed}

-- Copies of the START and of its answer, which the network may still hold.
abbrev pub IsStartCopy : Connection → List ℕ → Type 0
IsStartCopy c bytes =
    (payload : StartPayload) × (d : Datagram) × (send_packet c.server
        (make_header start c.session_id 0) (serialize_start payload)
      ≡ ok d)
    × (d.bytes ≡ bytes)

abbrev pub IsStartAckCopy : Transfer → List ℕ → Type 0
IsStartAckCopy t bytes =
    (d : Datagram) × (send_start_ack t.client t.session_id t.accepted ≡ ok d) × (d.bytes ≡ bytes)

-- Both endpoints enter their loops.
pub record IsBeginning (c : Connection) (t : Transfer) (run : Run) (a : World) : Type 0 where
  pub begun : begin_transfer c run ≡ ok a.progress
  pub opened : (now : ℕ) × (a.session ≡ new_session t now)
  pub starts : All (IsStartCopy c) a.upstream
  pub replies : All (IsStartAckCopy t) a.downstream

module _ (c : Connection) (t : Transfer) (same : IsSameTransfer c t) (run : Run) where
  beginning-IsLive :
      (first : World)
      → IsBeginning c t run first
      → IsLive c.total_chunks c.accepted_window_chunks c.accepted_bitmap_bits run.begin
          first.progress.window
  beginning-IsLive first b =
      unfold History.run in
      run-new_sender c.total_chunks c.accepted_window_chunks c.accepted_bitmap_bits run.begin
        first.progress.window [] (total_fits c t same run.begin)
        (begin_transfer-new_sender c run first.progress b.begun)

  nothing_acked :
      (first : World) (j : ℕ)
      → IsBeginning c t run first
      → acked_at first.progress.window j ≡ true
      → has_received first.session.tracker j ≡ true
  nothing_acked first j b h =
      let (_, _, fresh) =
        (new_sender_iff _ _ _ _ first.progress.window).0
          (begin_transfer-new_sender c run first.progress b.begun) in
      let empty : first.progress.window.next_sequence ≡ 0 = rw fresh refl in
      let l = beginning-IsLive first b in
      absurd (ground (arith, l.valid.fresh j (omega (arith, empty)), h))

  start-IsTruthful :
      (network : List (List ℕ)) → All (IsStartCopy c) network → All (IsTruthful c t) network
  start-IsTruthful [] h = tt
  start-IsTruthful (bytes ∷ network) ((payload, d, e, same_bytes), h) = (
    rw (← same_bytes) (
        send_packet-IsTruthful c t same start 0 (serialize_start payload) d (λ x. absurd (cc x))
          (omega arith) (unfold serialize_start in omega arith) e),
    start-IsTruthful network h,
  )

  start_ack-IsHonest :
      (s : Session) (network : List (List ℕ))
      → All (IsStartAckCopy t) network
      → All (IsHonest s.tracker) network
  start_ack-IsHonest s [] h = tt
  start_ack-IsHonest s (bytes ∷ network) ((d, e, same_bytes), h) = (
    rw (← same_bytes) (
        send_start_ack-IsHonest t.client t.session_id t.accepted s.tracker d
          (omega (arith, same.sessions, same.session_fits)) e),
    start_ack-IsHonest s network h,
  )

  beginning-IsAgreed : (first : World) → IsBeginning c t run first → IsAgreed c t run.begin first
  unfolding new_session
  beginning-IsAgreed first b = record {
    truthful = start-IsTruthful first.upstream b.starts;
    honest = start_ack-IsHonest first.session first.downstream b.replies;
    sound = (beginning-IsLive first b, λ j h. nothing_acked first j b h);
    serving = rw b.opened.1 (new_session-IsServing t c.input same.source b.opened.0);
    number = rw b.opened.1 (omega arith);
  }

  pub reached_agreement :
      (first a : World) → IsBeginning c t run first → Reach c t first a → IsAgreed c t run.begin a
  reached_agreement first a b r =
      Reach-IsAgreed c t same run.begin first a (beginning-IsAgreed first b) r

  -- In any world that a client and a server reach from the start of their loops: a chunk that is
  -- acknowledged to the client has been received by the server.
  pub has_received-acked_at :
      (first a : World) (j : ℕ)
      → IsBeginning c t run first
      → Reach c t first a
      → acked_at a.progress.window j ≡ true
      → has_received a.session.tracker j ≡ true
  has_received-acked_at first a j b r h = (reached_agreement first a b r).sound.1 j h

  -- For a client and a server that have entered their loops for one transfer: after any passes of
  -- the client, any datagrams served and any COMPLETE sent, where the network may lose, repeat and
  -- reorder what the two have sent, still holds copies of the START and its answer, and hands on
  -- anything from elsewhere, if the client's window has every chunk acknowledged, then the server's
  -- tracker is complete and the server's file is the client's, byte for byte.
  pub all_acked-same_file :
      (first a : World)
      → IsBeginning c t run first
      → Reach c t first a
      → all_acked a.progress.window ≡ true
      → (Receiver.complete a.session.tracker ≡ true) × (a.session.output ≡ c.input)
  all_acked-same_file first a b r all =
      let h = reached_agreement first a b r in
      let l = h.sound.0 in
      let every = (all_acked_iff a.progress.window l.valid l.settled).0 all in
      let whole : Receiver.complete a.session.tracker ≡ true =
        (complete_iff a.session.tracker h.serving.tracking).0.1 (λ j k.
          h.sound.1 j (every j (omega (arith, h.serving.chunks, same.chunks, l.total_is)))) in
      let done = closed-IsFinished t c.input same.source a.session h.serving whole in
      (whole, IsFinished-same_file t c.input same.source a.session _ done)
