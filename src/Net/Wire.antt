-- ===== src/Net/Wire.antt =====
-- What a receiver decodes from the datagrams that src/client.cpp and src/server.cpp send.
use ee542_lab2_fast_reliable.Common.{
  ℕ, ◌≤◌, ◌≡◌, refl, List, [], some, arith, ok, length, IsU16, IsU32, bit_and,
}
use mathlib.Core.List.{append-nil}
use ee542_lab2_fast_reliable.Net.{Endpoint, make_header, Datagram, send_packet}
use ee542_lab2_fast_reliable.Protocol.Types.{PacketType, PacketHeader, flag_crc32c}
use ee542_lab2_fast_reliable.Protocol.Header.{deserialize_packet_view}
use ee542_lab2_fast_reliable.Protocol.Header.RoundTrip.{
  IsSendable, as_received, deserialize_packet_view-serialize_packet,
}

-- For a header of this protocol without the CRC flag whose fields fit their widths, and at most
-- 65535 bytes of payload: what `send_packet` hands to `sendto` goes to the given destination and
-- decodes to the header, with its two length fields set, and the payload.
pub deserialize_packet_view-send_packet :
    (destination : Endpoint) (h : PacketHeader) (payload : List ℕ) (d : Datagram)
    → IsSendable h
    → length payload ≤ 65535
    → send_packet destination h payload ≡ ok d
    → (d.destination ≡ destination)
      × (deserialize_packet_view (some d.bytes) (length d.bytes)
          ≡ ok (record {
            header = as_received h (length payload);
            payload = payload;
            payload_size = length payload;
          }))
unfolding send_packet
deserialize_packet_view-send_packet destination h payload d s l e =
    let (out, serialized, _, decoded, _) =
      deserialize_packet_view-serialize_packet h payload [] s l in
    let same : record { destination = destination; bytes = out } ≡ d = cc (rw serialized at e) in
    rw (← same) (refl, rw (append-nil out, append-nil payload) at decoded)

-- Headers as both endpoints make them can be sent.
pub flagged-IsSendable :
    (type : PacketType) (session_id number flags : ℕ)
    → IsU32 session_id
    → IsU32 number
    → IsU16 flags
    → bit_and flags flag_crc32c ≡ 0
    → IsSendable (record (make_header type session_id number) { flags = flags })
unfolding make_header
flagged-IsSendable type session_id number flags s n f e = (refl, refl, f, e, s, n, omega arith)

pub make_header-IsSendable :
    (type : PacketType) (session_id number : ℕ)
    → IsU32 session_id
    → IsU32 number
    → IsSendable (make_header type session_id number)
unfolding make_header
make_header-IsSendable type session_id number s n =
    (refl, refl, omega arith, refl, s, n, omega arith)

pub send_packet-ok :
    (destination : Endpoint) (h : PacketHeader) (payload : List ℕ)
    → IsSendable h
    → length payload ≤ 65535
    → (d : Datagram) × (send_packet destination h payload ≡ ok d)
unfolding send_packet
send_packet-ok destination h payload s l =
    let (out, serialized, _, _, _) = deserialize_packet_view-serialize_packet h payload [] s l in
    (record { destination = destination; bytes = out }, rw serialized refl)
