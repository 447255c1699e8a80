-- ===== src/System/Agreed.antt =====
-- The invariant of the endpoints of src/client.cpp and src/server.cpp, whatever the network does.
use ee542_lab2_fast_reliable.Common.{
  ℕ, ◌≡◌, List, [], ◌∷◌, ◌++◌, some, true, arith, length, All, ok, IsU32, Bool-cases, inl, inr,
}
use ee542_lab2_fast_reliable.Net.{Endpoint, same_endpoint, Datagram}
use ee542_lab2_fast_reliable.Protocol.Types.{complete}
use ee542_lab2_fast_reliable.Protocol.Header.{deserialize_packet_view}
use ee542_lab2_fast_reliable.Protocol.Header.RoundTrip.{payload_size-le}
use ee542_lab2_fast_reliable.Protocol.Sizes.{chunk_count_iff}
use ee542_lab2_fast_reliable.Reliability.State.{SenderWindow}
use ee542_lab2_fast_reliable.Reliability.Sender.Marks.{select_next_packet-lt}
use ee542_lab2_fast_reliable.Reliability.Sender.History.{IsLive}
use ee542_lab2_fast_reliable.Client.Sending.{Connection, Progress, Pass, pass_once}
use ee542_lab2_fast_reliable.Client.Sending.Keeps.{
  Gets, Sends, no_chunk, one_chunk, pass_once-Keeps,
}
use ee542_lab2_fast_reliable.Server.{
  Transfer, Session, Received, is_of_session, waiting, handle_packet,
}
use ee542_lab2_fast_reliable.Server.Stored.{IsServing, IsFaithful}
use ee542_lab2_fast_reliable.Server.Safety.{handle_packet-Keeps}
use ee542_lab2_fast_reliable.System.{
  World, Arrives, bytes_of, Step, passes, serves, completes, Reach, begins, later,
}
use ee542_lab2_fast_reliable.System.Upstream.{
  IsSameTransfer, IsTruthful, send_chunk-IsTruthful, send_packet-IsTruthful,
}
use ee542_lab2_fast_reliable.System.Downstream.{IsHonest}
use ee542_lab2_fast_reliable.System.Hearing.{All-Memᴰ, IsSound, pass-IsKept}
use ee542_lab2_fast_reliable.System.Answering.{Grows, handle_packet-Replies, session_id-IsU32}

-- What holds between any two steps.
pub record IsAgreed (c : Connection) (t : Transfer) (begin : ℕ) (a : World) : Type 0 where
  pub truthful : All (IsTruthful c t) a.upstream
  pub honest : All (IsHonest a.session.tracker) a.downstream
  pub sound : IsSound c begin a.session.tracker a.progress.window
  pub serving : IsServing t c.input a.session
  pub number : IsU32 a.session.ack_number

All-map_append :
    (P : List ℕ → Type 0) (sent : List Datagram) (network : List (List ℕ))
    → All (λ d. P d.bytes) sent
    → All P network
    → All P (bytes_of sent ++ network)
All-map_append P [] network h k = k
All-map_append P (d ∷ sent) network h k = (h.0, All-map_append P sent network h.1 k)

All-Grows :
    (P Q : List ℕ → Type 0) (network : List (List ℕ))
    → ((bytes : List ℕ) → P bytes → Q bytes)
    → All P network
    → All Q network
All-Grows P Q [] f h = tt
All-Grows P Q (x ∷ xs) f h = (f x h.0, All-Grows P Q xs f h.1)

module _ (c : Connection) (t : Transfer) (same : IsSameTransfer c t) (begin : ℕ) where
  pub total_fits : IsU32 c.total_chunks
  total_fits =
      let (_, _, counted) = same.source in
      let (_, small, _, _) = (chunk_count_iff _ _ _).0 counted in omega (arith, same.chunks)

  sent-IsTruthful :
      (P : (w : SenderWindow) → Type 0)
      → ((w : SenderWindow)
          → P w
          → IsLive c.total_chunks c.accepted_window_chunks c.accepted_bitmap_bits begin w)
      → (datagrams : List Datagram) → Sends c P datagrams
      → All (λ d. IsTruthful c t d.bytes) datagrams
  sent-IsTruthful P live _ no_chunk = tt
  sent-IsTruthful P live _ (one_chunk w decision d p e s) =
      let l = live w p in
      let below = select_next_packet-lt w l.valid decision e in
      (send_chunk-IsTruthful c t same decision d (omega (arith, l.total_is)) total_fits s, tt)

  -- A pass of the client keeps the world agreed.
  passes-IsAgreed :
      (a : World) (pass : Pass) (p : Progress) (datagrams : List Datagram)
      → IsAgreed c t begin a
      → Gets (Arrives c.server a.downstream) pass
      → pass_once c pass a.progress ≡ ok (p, datagrams)
      → IsAgreed c t begin (record a { progress = p; upstream = bytes_of datagrams ++ a.upstream })
  passes-IsAgreed a pass p datagrams h g e =
      let P = IsSound c begin a.session.tracker in
      let kept = pass-IsKept c begin a.session.tracker a.downstream h.honest in
      let (sound, sends) : P p.window × Sends c P datagrams =
        rw e at
          (pass_once-Keeps c P (Arrives c.server a.downstream) kept pass a.progress g h.sound) in
      record {
        truthful =
            All-map_append (IsTruthful c t) datagrams a.upstream
              (sent-IsTruthful P (λ w s. s.0) datagrams sends) h.truthful;
        honest = h.honest;
        sound = sound;
        serving = h.serving;
        number = h.number;
      }

  -- A datagram that reaches the server is faithful, from wherever it comes.
  arrival-IsFaithful :
      (a : World) (source : Endpoint) (bytes : List ℕ) (event : Received)
      → IsAgreed c t begin a
      → Arrives t.client a.upstream source bytes
      → deserialize_packet_view (some bytes) (length bytes) ≡ ok event.packet
      → event.source ≡ source
      → IsFaithful t c.input event
  arrival-IsFaithful a source bytes event h arrives e from =
      elim (Bool-cases (is_of_session t event)) [
        | inl ours ↦
            let peer : same_endpoint source t.client ≡ true =
              rw (← from) (unfold is_of_session in ground arith) in
            All-Memᴰ (IsTruthful c t) bytes a.upstream h.truthful (arrives.was_sent peer) event e
        | inr other ↦ (payload_size-le bytes event.packet e, λ ours. absurd (cc (ours, other)))
      ]

  serves-IsAgreed :
      (a : World) (source : Endpoint) (bytes : List ℕ) (event : Received) (s : Session)
      (datagrams : List Datagram)
      → IsAgreed c t begin a
      → Arrives t.client a.upstream source bytes
      → deserialize_packet_view (some bytes) (length bytes) ≡ ok event.packet
      → event.source ≡ source
      → handle_packet t event a.session ≡ ok (waiting s datagrams)
      → IsAgreed c t begin
          (record a { session = s; downstream = bytes_of datagrams ++ a.downstream })
  serves-IsAgreed a source bytes event s datagrams h arrives e from handled =
      let faithful = arrival-IsFaithful a source bytes event h arrives e from in
      let serving : IsServing t c.input s =
        rw handled at
          (handle_packet-Keeps t c.input same.source event a.session h.serving faithful) in
      let replies =
        handle_packet-Replies c t same event a.session h.serving faithful h.number
          (session_id-IsU32 bytes event arrives.are_bytes e) in
      let (grows, number, honest) : Grows a.session.tracker s.tracker
          × IsU32 s.ack_number
          × All (λ d. IsHonest s.tracker d.bytes) datagrams =
        rw handled at replies in
      record {
        truthful = h.truthful;
        honest = All-map_append (IsHonest s.tracker) datagrams a.downstream honest (
            All-Grows (IsHonest a.session.tracker) (IsHonest s.tracker) a.downstream
              (λ b k packet payload d y r j q. grows j (k packet payload d y r j q)) h.honest);
        sound = (h.sound.0, λ j p. grows j (h.sound.1 j p));
        serving = serving;
        number = number;
      }

  Step-IsAgreed : (a b : World) → IsAgreed c t begin a → Step c t a b → IsAgreed c t begin b
  Step-IsAgreed a _ h (passes pass p datagrams g e) = passes-IsAgreed a pass p datagrams h g e
  Step-IsAgreed a _ h (serves source bytes event s datagrams arrives e from handled) =
      serves-IsAgreed a source bytes event s datagrams h arrives e from handled
  Step-IsAgreed a _ h (completes d all e) = record {
    truthful = (
      send_packet-IsTruthful c t same complete c.total_chunks [] d (λ x. absurd (cc x)) total_fits
          (omega arith) e,
      h.truthful,
    );
    honest = h.honest;
    sound = h.sound;
    serving = h.serving;
    number = h.number;
  }

  pub Reach-IsAgreed :
      (first a : World) → IsAgreed c t begin first → Reach c t first a → IsAgreed c t begin a
  Reach-IsAgreed first _ h begins = h
  Reach-IsAgreed first _ h (later {a} {b} r s) = Step-IsAgreed a b (Reach-IsAgreed first a h r) s
