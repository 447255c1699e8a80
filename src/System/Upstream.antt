-- ===== src/System/Upstream.antt =====
-- What the client of src/client.cpp sends, as the server of src/server.cpp takes it.
use ee542_lab2_fast_reliable.Common.{
  ℕ, ◌^◌, ◌≤◌, ◌<◌, ◌≡◌, ◌≢◌, refl, sym, ◌∙◌, List, some, arith, length, take, get_or-drop,
  length-take, ok, IsU32,
}
use ee542_lab2_fast_reliable.Net.{Datagram, make_header, send_packet}
use ee542_lab2_fast_reliable.Protocol.Types.{PacketType, data_chunk}
use ee542_lab2_fast_reliable.Protocol.Header.{deserialize_packet_view}
use ee542_lab2_fast_reliable.Protocol.Header.RoundTrip.{as_received}
use ee542_lab2_fast_reliable.Chunks.{chunk_offset}
use ee542_lab2_fast_reliable.Reliability.State.{SendDecision}
use ee542_lab2_fast_reliable.Server.{Transfer, Received}
use ee542_lab2_fast_reliable.Server.Stored.{IsTransferOf, IsFaithful}
use ee542_lab2_fast_reliable.Server.Storing.{get_or-take}
use ee542_lab2_fast_reliable.Client.Sending.{
  Connection, payload_of, payload_size_of, data_header, send_chunk,
}
use ee542_lab2_fast_reliable.Client.Sending.Chunk.{
  IsConnection, payload_fits, data_header-IsSendable, data_header-fields, send_chunk-send_packet,
}
use ee542_lab2_fast_reliable.Net.Wire.{make_header-IsSendable, deserialize_packet_view-send_packet}

-- The client and the server are set up for the same transfer, of the client's input.
pub record IsSameTransfer (c : Connection) (t : Transfer) : Type 0 where
  pub source : IsTransferOf t c.input
  pub chunks : t.start.total_chunks ≡ c.total_chunks
  pub chunk_sizes : t.start.chunk_size ≡ c.chunk_size
  pub datagrams : c.chunk_size ≤ 65535
  pub sessions : t.session_id ≡ c.session_id
  pub session_fits : IsU32 c.session_id
  pub bits : t.accepted.accepted_bitmap_bits < 2 ^ 16

-- Whatever is decoded from these bytes does the server no harm.
abbrev pub IsTruthful : Connection → Transfer → List ℕ → Type 0
IsTruthful c t bytes =
    (event : Received)
    → deserialize_packet_view (some bytes) (length bytes) ≡ ok event.packet
    → IsFaithful t c.input event

pub IsSameTransfer-IsConnection :
    (c : Connection) (t : Transfer) → IsSameTransfer c t → IsConnection c
IsSameTransfer-IsConnection c t same =
    let (length_is, file, counted) = same.source in
    record {
      file = omega (arith, length_is);
      counted = rw (length_is, ← same.chunk_sizes, ← same.chunks) counted;
      datagrams = same.datagrams;
      session_fits = same.session_fits;
    }

module _ (c : Connection) (t : Transfer) (same : IsSameTransfer c t) where
  connected : IsConnection c
  connected = IsSameTransfer-IsConnection c t same

  -- A packet that is the chunk its number names.
  IsFaithful-chunk :
      (event : Received) (sequence : ℕ)
      → sequence < c.total_chunks
      → event.packet.header.number ≡ sequence
      → event.packet.payload ≡ take (payload_size_of c sequence) (payload_of c sequence)
      → event.packet.payload_size ≡ payload_size_of c sequence
      → payload_size_of c sequence ≤ length (payload_of c sequence)
      → IsFaithful t c.input event
  unfolding payload_of payload_size_of
  IsFaithful-chunk event sequence h number payload size fits = (
    rw payload (omega (arith, size, length-take _ _ fits)),
    λ ours type l e i k.
        rw (payload, number, same.chunk_sizes)
          (get_or-take (payload_size_of c sequence) i (payload_of c sequence) (omega (arith, size))
            ∙ get_or-drop (chunk_offset c.chunk_size sequence) c.input i 0),
  )

  pub send_chunk-IsTruthful :
      (decision : SendDecision) (d : Datagram)
      → decision.sequence < c.total_chunks
      → IsU32 c.total_chunks
      → send_chunk c decision ≡ ok d
      → IsTruthful c t d.bytes
  send_chunk-IsTruthful decision d h total e event decodes =
      let (_, small, long, _) = payload_fits c connected decision.sequence h in
      let n = payload_size_of c decision.sequence in
      let payload = take n (payload_of c decision.sequence) in
      let size : length payload ≡ n = length-take n _ long in
      let (_, decoded) =
        deserialize_packet_view-send_packet c.server (data_header c decision) payload d
          (data_header-IsSendable c connected decision (omega arith)) (omega arith)
          (sym (send_chunk-send_packet c connected decision h) ∙ e) in
      let view : event.packet ≡ record {
        header = as_received (data_header c decision) (length payload);
        payload = payload;
        payload_size = length payload;
      } =
        cc in
      let number = (data_header-fields c connected decision).1 in
      IsFaithful-chunk event decision.sequence h (rw view number) (rw view refl) (rw view size) long

  -- What is neither a chunk nor cut short is not looked at.
  pub send_packet-IsTruthful :
      (type : PacketType) (number : ℕ) (payload : List ℕ) (d : Datagram)
      → type ≢ data_chunk
      → IsU32 number
      → length payload ≤ 65535
      → send_packet c.server (make_header type c.session_id number) payload ≡ ok d
      → IsTruthful c t d.bytes
  send_packet-IsTruthful type number payload d other n l e event decodes =
      let header = make_header type c.session_id number in
      let (_, decoded) =
        deserialize_packet_view-send_packet c.server header payload d
          (make_header-IsSendable type c.session_id number same.session_fits n) l e in
      let view : event.packet ≡ record {
        header = as_received header (length payload);
        payload = payload;
        payload_size = length payload;
      } =
        cc in
      let same_type : event.packet.header.type ≡ type = rw view (unfold make_header in refl) in
      (rw view (omega arith), λ ours named. absurd (other (sym same_type ∙ named)))
