-- ===== src/System.antt =====
-- The client and the server over a network that loses, repeats and reorders datagrams.
pub mod Upstream
pub mod Downstream
pub mod Hearing
pub mod Answering
pub mod Agreed
pub mod Delivery
pub mod Completion
use ee542_lab2_fast_reliable.Common.{
  ℕ, ◌≡◌, List, [], ◌∷◌, ◌++◌, true, some, All, IsByte, ok, length,
}
use mathlib.Core.List.{Memᴰ, map}
use ee542_lab2_fast_reliable.Net.{Endpoint, same_endpoint, Datagram, make_header, send_packet}
use ee542_lab2_fast_reliable.Protocol.Types.{complete, PacketView}
use ee542_lab2_fast_reliable.Protocol.Header.{deserialize_packet_view}
use ee542_lab2_fast_reliable.Reliability.Sender.{all_acked}
use ee542_lab2_fast_reliable.Server.{Transfer, Session, Received, waiting, handle_packet}
use ee542_lab2_fast_reliable.Client.Sending.{Connection, Progress, Pass, pass_once}
use ee542_lab2_fast_reliable.Client.Sending.Keeps.{Gets}

-- Both endpoints between two passes of their loops, and all bytes sent so far, to the server and to
-- the client.
pub record World : Type 0 where
  pub progress : Progress
  pub session : Session
  pub upstream : List (List ℕ)
  pub downstream : List (List ℕ)

-- A datagram from the peer is one that the peer has sent; anything may come from elsewhere.
pub record Arrives (peer : Endpoint) (network : List (List ℕ)) (source : Endpoint) (bytes : List ℕ)
    : Type 0 where
  pub are_bytes : All IsByte bytes
  pub was_sent : same_endpoint source peer ≡ true → Memᴰ bytes network

abbrev pub bytes_of : List Datagram → List (List ℕ)
bytes_of sent = map (λ d. d.bytes) sent

pub data Step (c : Connection) (t : Transfer) (a : World) : World → Type 0 where
  passes :
      (pass : Pass) (p : Progress) (sent : List Datagram)
      → Gets (Arrives c.server a.downstream) pass
      → pass_once c pass a.progress ≡ ok (p, sent)
      → Step c t a (record a { progress = p; upstream = bytes_of sent ++ a.upstream })
  serves :
      (source : Endpoint) (bytes : List ℕ) (event : Received) (s : Session) (sent : List Datagram)
      → Arrives t.client a.upstream source bytes
      → deserialize_packet_view (some bytes) (length bytes) ≡ ok event.packet
      → event.source ≡ source
      → handle_packet t event a.session ≡ ok (waiting s sent)
      → Step c t a (record a { session = s; downstream = bytes_of sent ++ a.downstream })
  completes :
      (d : Datagram)
      → all_acked a.progress.window ≡ true
      → send_packet c.server (make_header complete c.session_id c.total_chunks) [] ≡ ok d
      → Step c t a (record a { upstream = d.bytes ∷ a.upstream })

pub data Reach (c : Connection) (t : Transfer) (first : World) : World → Type 0 where
  begins : Reach c t first first
  later : {a b : World} → Reach c t first a → Step c t a b → Reach c t first b
