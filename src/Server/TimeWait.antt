-- ===== src/Server/TimeWait.antt =====
-- `time_wait` of src/server.cpp: a COMPLETE that comes again after the transfer.
use ee542_lab2_fast_reliable.Common.{
  ℕ, List, Option, none, some, Bool, true, false, ◌&&◌, ◌==◌, if◌then◌else◌, Result, ok, err, ◌>>=◌,
  Exception,
}
use ee542_lab2_fast_reliable.Net.{Endpoint, same_endpoint, Datagram}
use ee542_lab2_fast_reliable.Protocol.Types.{
  PacketType, PacketView, CompleteAckPayload, start, start_ack, data_chunk, ack, complete_ack,
}
use ee542_lab2_fast_reliable.Protocol.Types
use ee542_lab2_fast_reliable.Protocol.Header.{deserialize_packet_view}
use ee542_lab2_fast_reliable.Server.{Transfer, send_complete_ack}

abbrev pub is_complete : PacketType → Bool
is_complete Types.complete = true
is_complete start = false
is_complete start_ack = false
is_complete data_chunk = false
is_complete ack = false
is_complete complete_ack = false
is_complete Types.error = false

unfoldable pub late_answer : Result Exception Datagram → Result Exception (Option Datagram)
late_answer sent = do datagram ← sent; ok (some datagram)

unfoldable pub late_reply :
    Transfer → CompleteAckPayload → Endpoint → PacketView → Result Exception (Option Datagram)
late_reply t completed source packet =
    if same_endpoint source t.client
      && (packet.header.session_id == t.session_id)
      && is_complete packet.header.type
      && (packet.header.number == t.start.total_chunks)
      && (packet.payload_size == 0)
    then late_answer (send_complete_ack t completed)
    else ok none

-- One datagram in `time_wait`: a COMPLETE that comes again is answered again, and the wait begins
-- anew, exactly when a datagram is returned.
unfoldable pub answer_late :
    Transfer → CompleteAckPayload → Endpoint → List ℕ → ℕ → Result Exception (Option Datagram)
answer_late t completed source bytes size = elim (deserialize_packet_view (some bytes) size) [
  | ok packet ↦ late_reply t completed source packet
  | err e ↦ ok none
]
