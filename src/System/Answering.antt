-- ===== src/System/Answering.antt =====
-- What the server of src/server.cpp does with a datagram, as far as the client can see it.
use ee542_lab2_fast_reliable.Common.{
  ℕ, ◌≡◌, ◌⊎◌, refl, List, [], ◌∷◌, some, true, Bool-cases, inl, inr, arith, length, All, Result,
  Exception, ok, err, IsU32, IsByte, inc32,
}
use ee542_lab2_fast_reliable.Net.{Datagram}
use ee542_lab2_fast_reliable.Protocol.Header.{deserialize_packet_view}
use ee542_lab2_fast_reliable.Protocol.Header.RoundTrip.{serialize_packet-deserialize_packet_view}
use ee542_lab2_fast_reliable.Reliability.Receiver.{ReceiverTracker, has_received}
use ee542_lab2_fast_reliable.Reliability.Receiver.Tracking.{has_received-mark_received}
use ee542_lab2_fast_reliable.Client.Sending.{Connection}
use ee542_lab2_fast_reliable.Server.{
  Transfer, Session, Received, Outcome, waiting, finished, record_data, store_chunk, expect_ack,
  handle_packet,
}
use ee542_lab2_fast_reliable.Server.Cases.{
  counted, thrown, ignored, greeted, held, answered, urged, closed, handle_packet-Handled,
}
use ee542_lab2_fast_reliable.Server.Stored.{IsServing, IsFaithful}
use ee542_lab2_fast_reliable.Server.Safety.{counted-IsServing}
use ee542_lab2_fast_reliable.System.Upstream.{IsSameTransfer}
use ee542_lab2_fast_reliable.System.Downstream.{
  IsHonest, send_ack-IsHonest, send_start_ack-IsHonest,
}

-- The tracker loses no chunk.
abbrev pub Grows : ReceiverTracker → ReceiverTracker → Type 0
Grows a b = (j : ℕ) → has_received a j ≡ true → has_received b j ≡ true

record_data-Grows :
    (t : Transfer) (event : Received) (s : Session)
    → Grows s.tracker (record_data t event.packet event.arrival s).tracker
unfolding record_data store_chunk
record_data-Grows t event s j h =
    elim (Bool-cases (has_received s.tracker event.packet.header.number)) [
      | inl e ↦ rw e h
      | inr e ↦ rw e (
          let (marks, _) = has_received-mark_received s.tracker event.packet.header.number j in
          ground (arith, marks, h))
    ]

counted-Grows :
    (t : Transfer) (event : Received) (s : Session) → Grows s.tracker (counted t event s).tracker
unfolding counted expect_ack
counted-Grows t event s j h = record_data-Grows t event s j h

ack_number-counted :
    (t : Transfer) (event : Received) (s : Session) → (counted t event s).ack_number ≡ s.ack_number
unfolding counted expect_ack record_data store_chunk
ack_number-counted t event s =
    elim (Bool-cases (has_received s.tracker event.packet.header.number)) [
      | inl e ↦ rw e refl
      | inr e ↦ rw e refl
    ]

inc32-IsU32 : (n : ℕ) → IsU32 (inc32 n)
unfolding inc32
inc32-IsU32 n = omega arith

-- The new session, and what has been sent.
abbrev pub Replies : Session → Result Exception Outcome → Type 0
Replies s (ok (waiting s' sent)) =
    Grows s.tracker s'.tracker × IsU32 s'.ack_number × All (λ d. IsHonest s'.tracker d.bytes) sent
Replies s (ok (finished s' completed sent)) = Unit
Replies s (err e) = Unit

module _ (c : Connection) (t : Transfer) (same : IsSameTransfer c t) (event : Received)
    (s : Session) (v : IsServing t c.input s) (faithful : IsFaithful t c.input event)
    (number : IsU32 s.ack_number) (session_id : IsU32 event.packet.header.session_id) where
  session_fits : IsU32 t.session_id
  session_fits = omega (arith, same.sessions, same.session_fits)

  greeting_fits : (id : ℕ) → (id ≡ t.session_id) ⊎ (id ≡ event.packet.header.session_id) → IsU32 id
  greeting_fits id (inl e) = rw e session_fits
  greeting_fits id (inr e) = rw e session_id

  abbrev one :
      (d : Datagram) (a : ReceiverTracker)
      → IsHonest a d.bytes
      → All (λ x. IsHonest a x.bytes) (d ∷ [])
  one d a h = (h, tt)

  pub handle_packet-Replies : Replies s (handle_packet t event s)
  handle_packet-Replies = elim (handle_packet-Handled t event s) [
    | thrown e p ↦ rw p tt
    | ignored p ↦ rw p (λ j h. h, number, tt)
    | greeted to id response d sent whose p ↦
        let honest =
          send_start_ack-IsHonest to id response s.tracker d (greeting_fits id whose) sent in
        rw p (λ j h. h, number, one d s.tracker honest)
    | held valid quiet p ↦
        rw p (counted-Grows t event s, omega (arith, ack_number-counted t event s, number), tt)
    | answered valid d sent p ↦
        let stored = counted-IsServing t c.input same.source event s v faithful valid in
        let honest =
          send_ack-IsHonest t.client t.session_id (counted t event s).ack_number
            (counted t event s).tracker t.accepted.accepted_bitmap_bits d session_fits
            (omega (arith, ack_number-counted t event s, number)) stored.tracking same.bits sent in
        rw p (counted-Grows t event s, inc32-IsU32 _, one d (counted t event s).tracker honest)
    | urged ours d sent p ↦
        let honest =
          send_ack-IsHonest t.client t.session_id s.ack_number s.tracker
            t.accepted.accepted_bitmap_bits d session_fits number v.tracking same.bits sent in
        rw p (λ j h. h, inc32-IsU32 _, one d s.tracker honest)
    | closed ours all d sent p ↦ rw p tt
  ]

-- A datagram that arrives has a session id of its width.
pub session_id-IsU32 :
    (bytes : List ℕ) (event : Received)
    → All IsByte bytes
    → deserialize_packet_view (some bytes) (length bytes) ≡ ok event.packet
    → IsU32 event.packet.header.session_id
session_id-IsU32 bytes event bs e =
    let ((_, _, _, _, session_id, _, _), _) =
      serialize_packet-deserialize_packet_view bytes (length bytes) event.packet bs (omega arith)
        e in
    session_id
