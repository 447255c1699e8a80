-- ===== src/System/Completion.antt =====
-- The end of the transfer: the COMPLETE of src/client.cpp and the answer of src/server.cpp.
use ee542_lab2_fast_reliable.Common.{
  ℕ, ◌≡◌, refl, sym, ◌∙◌, List, [], ◌∷◌, some, true, arith, length, ok, IsU32, IsU64, ◌==◌, ==→eq,
  eq→==, Bool-cases, inl, inr, ◌≢◌, false, not, ◌&&◌,
}
use mathlib.Core.List.{append-nil}
use ee542_lab2_fast_reliable.Net.{Endpoint, same_endpoint, Datagram, make_header, send_packet}
use ee542_lab2_fast_reliable.Protocol.Types.{
  PacketHeader, PacketView, complete, complete_ack, CompleteAckPayload, ok_status,
}
use ee542_lab2_fast_reliable.Protocol.Header.{deserialize_packet_view}
use ee542_lab2_fast_reliable.Protocol.Header.RoundTrip.{as_received}
use ee542_lab2_fast_reliable.Protocol.Payloads.{serialize_complete_ack}
use ee542_lab2_fast_reliable.Protocol.Payloads.RoundTrip.{
  IsCompleteAck, deserialize_complete_ack-serialize_complete_ack,
}
use ee542_lab2_fast_reliable.Reliability.Receiver
use ee542_lab2_fast_reliable.Reliability.Receiver.Tracking.{complete_iff}
use ee542_lab2_fast_reliable.Reliability.Sender.{all_acked}
use ee542_lab2_fast_reliable.Client.Receiving.{expected_packet, same_type}
use ee542_lab2_fast_reliable.Client.Sending.{Connection}
use ee542_lab2_fast_reliable.Client.Control.{Run, accept_complete, check_completed}
use ee542_lab2_fast_reliable.Server.{
  Transfer, Session, Received, finished, is_of_session, handle_packet, handle_type, handle_complete,
  finish, completion, receiver_time_us, send_complete_ack,
}
use ee542_lab2_fast_reliable.System.{World, Reach}
use ee542_lab2_fast_reliable.Net.Wire.{
  make_header-IsSendable, send_packet-ok, deserialize_packet_view-send_packet,
}
use ee542_lab2_fast_reliable.System.Upstream.{IsSameTransfer}
use ee542_lab2_fast_reliable.System.Agreed.{total_fits}
use ee542_lab2_fast_reliable.System.Delivery.{IsBeginning, reached_agreement, all_acked-same_file}

-- The packet that a COMPLETE or its answer decodes to.
abbrev view_of : PacketHeader → List ℕ → PacketView
view_of header payload = record {
  header = as_received header (length payload);
  payload = payload;
  payload_size = length payload;
}

-- The server answers a COMPLETE that comes when it has every chunk.
handle_packet-complete :
    (t : Transfer) (event : Received) (s : Session) (d : Datagram)
    → is_of_session t event ≡ true
    → event.packet.header.type ≡ complete
    → event.packet.header.number ≡ t.start.total_chunks
    → event.packet.payload_size ≡ 0
    → (t.start.file_size ≢ 0 → event.flushed ≡ true)
    → Receiver.complete s.tracker ≡ true
    → s.tracker.cumulative_ack ≡ t.start.total_chunks
    → send_complete_ack t (completion t s) ≡ ok d
    → handle_packet t event s ≡ ok (finished s (completion t s) (d ∷ []))
unfolding handle_packet handle_type handle_complete finish is_of_session completion
handle_packet-complete t event s d ours type number size flushed whole end answer =
    let n = eq→== _ _ number in
    let z = eq→== _ _ size in
    let e = eq→== _ _ end in
    let flush : (not event.flushed && not (t.start.file_size == 0)) ≡ false =
      elim (Bool-cases (t.start.file_size == 0)) [ inl i ↦ ground arith | inr i ↦ ground arith ] in
    rw (type, ours, n, z, whole, e, flush, answer) refl

-- The client takes the answer, if it comes from the server.
expected_packet-complete_ack :
    (server source : Endpoint) (session_id number : ℕ) (payload bytes : List ℕ)
    → same_endpoint source server ≡ true
    → deserialize_packet_view (some bytes) (length bytes)
      ≡ ok (view_of (make_header complete_ack session_id number) payload)
    → expected_packet server complete_ack session_id source bytes
      ≡ some (view_of (make_header complete_ack session_id number) payload)
unfolding expected_packet same_type make_header
expected_packet-complete_ack server source session_id number payload bytes from decodes =
    let own = eq→== session_id session_id refl in rw (expected_packet, decodes, from, own) refl

accept_complete-serialize_complete_ack :
    (completed : CompleteAckPayload) (header : PacketHeader)
    → IsCompleteAck completed
    → completed.status ≡ ok_status
    → accept_complete (view_of header (serialize_complete_ack completed)) ≡ ok (some completed)
unfolding accept_complete
accept_complete-serialize_complete_ack completed header fits good =
    let (_, read) = deserialize_complete_ack-serialize_complete_ack completed [] fits in
    let again = rw (append-nil (serialize_complete_ack completed)) at read in
    rw (accept_complete, again, good) refl

completion-IsCompleteAck :
    (t : Transfer) (s : Session)
    → IsU32 s.tracker.received_count
    → IsU64 t.start.file_size
    → IsCompleteAck (completion t s)
unfolding completion receiver_time_us
completion-IsCompleteAck t s count size = (
  omega arith,
  count,
  size,
  elim (Bool-cases s.received_first_data) [
    | inl e ↦ rw e (omega arith)
    | inr e ↦ rw e (omega arith)
  ],
)

check_completed-completion :
    (t : Transfer) (s : Session) (total size : ℕ)
    → s.tracker.received_count ≡ total
    → t.start.file_size ≡ size
    → check_completed total size (some (completion t s)) ≡ ok (completion t s)
unfolding check_completed completion
check_completed-completion t s total size n m =
    let counts = eq→== _ _ n in let sizes = eq→== _ _ m in rw (counts, sizes) refl

module _ (c : Connection) (t : Transfer) (same : IsSameTransfer c t) (run : Run) where
  -- In any world that a client and a server reach from the start of their loops, with every chunk
  -- acknowledged to the client: when the COMPLETE arrives from the client, and an output that is
  -- mapped can be flushed, the server finishes and sends one answer; when this comes back from the
  -- server, the client takes it, accepts its status, and its counts pass the client's last check.
  pub complete-reported :
      (first a : World) (d : Datagram) (event : Received) (source : Endpoint)
      → IsBeginning c t run first
      → Reach c t first a
      → all_acked a.progress.window ≡ true
      → send_packet c.server (make_header complete c.session_id c.total_chunks) [] ≡ ok d
      → deserialize_packet_view (some d.bytes) (length d.bytes) ≡ ok event.packet
      → same_endpoint event.source t.client ≡ true
      → (t.start.file_size ≢ 0 → event.flushed ≡ true)
      → same_endpoint source c.server ≡ true
      → (reply : Datagram) × (packet : PacketView) × (handle_packet t event a.session
          ≡ ok (finished a.session (completion t a.session) (reply ∷ [])))
        × (expected_packet c.server complete_ack c.session_id source reply.bytes ≡ some packet)
        × (accept_complete packet ≡ ok (some (completion t a.session)))
        × (check_completed c.total_chunks (length c.input) (some (completion t a.session))
            ≡ ok (completion t a.session))
  complete-reported first a d event source b r all sent decodes from flushed back =
      let s = a.session in
      let header = make_header complete c.session_id c.total_chunks in
      let total = total_fits c t same run.begin in
      let serving = (reached_agreement c t same run first a b r).serving in
      let (whole, _) = all_acked-same_file c t same run first a b r all in
      let (_, decoded) =
        deserialize_packet_view-send_packet c.server header [] d
          (make_header-IsSendable complete c.session_id c.total_chunks same.session_fits total)
          (omega arith) sent in
      let view : event.packet ≡ view_of header [] = cc in
      let ours : is_of_session t event ≡ true =
        unfold is_of_session in
        rw (from, view) (unfold make_header in eq→== _ _ (sym same.sessions)) in
      let end : s.tracker.cumulative_ack ≡ t.start.total_chunks =
        (complete_iff s.tracker serving.tracking).1.0 whole ∙ serving.chunks in
      let counted : (s.tracker.received_count == length s.tracker.received) ≡ true =
        unfold Receiver.complete in whole in
      let count : s.tracker.received_count ≡ t.start.total_chunks =
        ==→eq _ _ counted ∙ serving.chunks in
      let fits =
        completion-IsCompleteAck t s (omega (arith, count, same.chunks, total)) same.source.1 in
      let answer = make_header complete_ack t.session_id t.start.total_chunks in
      let payload = serialize_complete_ack (completion t s) in
      let (size, _) = deserialize_complete_ack-serialize_complete_ack (completion t s) [] fits in
      let sendable =
        make_header-IsSendable complete_ack t.session_id t.start.total_chunks
          (omega (arith, same.sessions, same.session_fits)) (omega (arith, same.chunks, total)) in
      let (reply, replied) =
        send_packet-ok t.client answer payload sendable (omega (arith, size)) in
      let (_, read) =
        deserialize_packet_view-send_packet t.client answer payload reply sendable
          (omega (arith, size)) replied in
      (
        reply,
        view_of answer payload,
        handle_packet-complete t event s reply ours (rw view (unfold make_header in refl))
            (rw view (unfold make_header in sym same.chunks)) (rw view refl) flushed whole end
            (unfold send_complete_ack in replied),
        rw (← same.sessions) (
            expected_packet-complete_ack c.server source t.session_id t.start.total_chunks payload
              reply.bytes back read),
        accept_complete-serialize_complete_ack (completion t s) answer fits
            (unfold completion in refl),
        check_completed-completion t s c.total_chunks (length c.input) (count ∙ same.chunks)
            (sym (same.source.0)),
      )
