-- ===== src/System/Downstream.antt =====
-- What the server of src/server.cpp sends, as the client of src/client.cpp takes it.
use ee542_lab2_fast_reliable.Common.{
  ℕ, zero, suc, ◌-◌, ◌^◌, ◌≤◌, ◌<◌, ◌≡◌, ◌≢◌, ◌⊎◌, refl, sym, ◌∙◌, List, [], Option, none, some,
  true, inl, inr, arith, length, ok, IsU32,
}
use mathlib.Core.List.{append-nil}
use ee542_lab2_fast_reliable.Net.{Endpoint, Datagram, make_header}
use ee542_lab2_fast_reliable.Protocol.Types.{
  ack, start_ack, PacketView, AckPayload, flag_sack, StartAckPayload,
}
use ee542_lab2_fast_reliable.Protocol.Header.{deserialize_packet_view}
use ee542_lab2_fast_reliable.Protocol.Header.RoundTrip.{as_received}
use ee542_lab2_fast_reliable.Protocol.Payloads.{deserialize_ack, serialize_start_ack}
use ee542_lab2_fast_reliable.Protocol.Payloads.RoundTrip.{IsAck, deserialize_ack-serialize_ack}
use ee542_lab2_fast_reliable.Reliability.Receiver.{ReceiverTracker, has_received, make_ack_snapshot}
use ee542_lab2_fast_reliable.Reliability.Receiver.Tracking.{IsTracking, has_received-lt}
use ee542_lab2_fast_reliable.Reliability.Receiver.Snapshot.{make_ack_snapshot_bits}
use ee542_lab2_fast_reliable.Reliability.Sender.Sack.{ack_covers}
use ee542_lab2_fast_reliable.Reliability.Agreement.{ack_covers-make_ack_snapshot}
use ee542_lab2_fast_reliable.Client.Receiving.{applied_ack}
use ee542_lab2_fast_reliable.Server.{send_ack, send_start_ack}
use ee542_lab2_fast_reliable.Net.Wire.{
  make_header-IsSendable, flagged-IsSendable, deserialize_packet_view-send_packet,
}

-- An ACK decoded from these bytes covers only chunks that the tracker has.
abbrev pub IsHonest : ReceiverTracker → List ℕ → Type 0
IsHonest tracker bytes =
    (packet : PacketView) (payload : AckPayload)
    → deserialize_packet_view (some bytes) (length bytes) ≡ ok packet
    → packet.header.type ≡ ack
    → applied_ack packet ≡ some payload
    → (j : ℕ) → ack_covers payload j ≡ true
    → has_received tracker j ≡ true

-- The numbers of a tracker fit the fields of an ACK.
make_ack_snapshot-IsAck :
    (tracker : ReceiverTracker) (bits : ℕ)
    → IsTracking tracker
    → bits < 2 ^ 16
    → IsAck (make_ack_snapshot tracker bits)
unfolding make_ack_snapshot
make_ack_snapshot-IsAck tracker bits v h =
    let (size, _, _) = make_ack_snapshot_bits tracker bits 0 v in
    let cumulative = below tracker.cumulative_ack refl in
    (cumulative, last _ v.reached, cumulative, h, size)
  where
    last : (j : ℕ) → (j ≡ 0) ⊎ (has_received tracker (j - 1) ≡ true) → IsU32 j
    last j (inl e) = omega arith
    last j (inr e) = omega (arith, has_received-lt tracker (j - 1) e, v.fits)

    below : (n : ℕ) → tracker.cumulative_ack ≡ n → IsU32 n
    below zero e = omega arith
    below (suc n) e =
        omega
          (arith, has_received-lt tracker n (v.gap.passed n (omega arith) (omega arith)), v.fits)

deserialize_ack-applied_ack :
    (packet : PacketView) (payload : AckPayload)
    → applied_ack packet ≡ some payload
    → deserialize_ack (some packet.payload) packet.payload_size ≡ some payload
unfolding applied_ack
deserialize_ack-applied_ack packet payload e =
    go (deserialize_ack (some packet.payload) packet.payload_size) refl
  where
    go :
        (read : Option AckPayload)
        → deserialize_ack (some packet.payload) packet.payload_size ≡ read
        → deserialize_ack (some packet.payload) packet.payload_size ≡ some payload
    go none r = absurd (ground (arith, r, e))
    go (some p) r = ground (arith, r, e)

pub send_ack-IsHonest :
    (client : Endpoint) (session_id number : ℕ) (tracker : ReceiverTracker) (bits : ℕ)
    (d : Datagram)
    → IsU32 session_id
    → IsU32 number
    → IsTracking tracker
    → bits < 2 ^ 16
    → send_ack client session_id number tracker bits ≡ ok d
    → IsHonest tracker d.bytes
unfolding send_ack
send_ack-IsHonest client session_id number tracker bits d s n v h e packet payload decodes type
      applied j covers =
    let (out, serialized, size, read) =
      deserialize_ack-serialize_ack (make_ack_snapshot tracker bits) []
        (make_ack_snapshot-IsAck tracker bits v h) in
    let short : length out ≤ 65535 = unfold make_ack_snapshot in omega (arith, size) in
    let (_, decoded) =
      deserialize_packet_view-send_packet client
        (record (make_header ack session_id number) { flags = flag_sack }) out d
        (flagged-IsSendable ack session_id number flag_sack s n (omega arith) refl) short
        (rw serialized at e) in
    let view : packet ≡ record {
      header =
          as_received (record (make_header ack session_id number) { flags = flag_sack })
            (length out);
      payload = out;
      payload_size = length out;
    } =
      cc in
    let again : deserialize_ack (some out) (length out) ≡ some payload =
      rw view at (deserialize_ack-applied_ack packet payload applied) in
    let same : payload ≡ make_ack_snapshot tracker bits = cc (rw (append-nil out) at read) in
    let covered = ack_covers-make_ack_snapshot tracker bits j v in
    let known : ack_covers (make_ack_snapshot tracker bits) j ≡ true = rw same at covers in
    ground (arith, covered, known)

pub send_start_ack-IsHonest :
    (client : Endpoint) (session_id : ℕ) (response : StartAckPayload) (tracker : ReceiverTracker)
    (d : Datagram)
    → IsU32 session_id
    → send_start_ack client session_id response ≡ ok d
    → IsHonest tracker d.bytes
unfolding send_start_ack
send_start_ack-IsHonest client session_id response tracker d s e packet payload decodes type applied
      j covers =
    let size : length (serialize_start_ack response) ≡ 12 = unfold serialize_start_ack in refl in
    let (_, decoded) =
      deserialize_packet_view-send_packet client (make_header start_ack session_id 0)
        (serialize_start_ack response) d
        (make_header-IsSendable start_ack session_id 0 s (omega arith)) (omega (arith, size)) e in
    let view : packet ≡ record {
      header =
          as_received (make_header start_ack session_id 0) (length (serialize_start_ack response));
      payload = serialize_start_ack response;
      payload_size = length (serialize_start_ack response);
    } =
      cc in
    let named : packet.header.type ≡ start_ack = rw view (unfold make_header in refl) in
    absurd (start_ack-not_ack (sym named ∙ type))
  where
    start_ack-not_ack : start_ack ≢ ack
    start_ack-not_ack e = ground arith
