-- ===== src/Server/Cases.antt =====
-- The branches of the loop's body in `run_server`, src/server.cpp.
use ee542_lab2_fast_reliable.Common.{
  ℕ, ◌≡◌, ◌⊎◌, ◌<◌, refl, [], ◌∷◌, true, false, not, ◌&&◌, ◌||◌, leb, ◌==◌, ==→eq, Bool-cases, inl,
  inr, arith, ok, err, ◌>>=◌, inc32, Result, Exception,
}
use ee542_lab2_fast_reliable.Net.{Endpoint, Datagram}
use ee542_lab2_fast_reliable.Protocol.Types.{
  PacketType, start, start_ack, data_chunk, ack, complete_ack, PacketView, StartAckPayload,
}
use ee542_lab2_fast_reliable.Protocol.Types
use ee542_lab2_fast_reliable.Reliability.Receiver.{has_received, complete}
use ee542_lab2_fast_reliable.Server.{
  Transfer, Session, Received, Outcome, waiting, finished, is_of_session, expected_size,
  record_data, expect_ack, should_send_ack, acknowledge, completion, send_start_ack,
  send_complete_ack, answer_data, handle_data, finish, handle_complete, reply, handle_start,
  handle_type, handle_packet, send_ack,
}

-- A DATA packet of the session, for a chunk of the transfer and with its size.
abbrev pub IsData : Transfer → Received → Type 0
IsData t event =
    (is_of_session t event ≡ true)
    × (event.packet.header.type ≡ data_chunk)
    × (event.packet.header.number < t.start.total_chunks)
    × (event.packet.payload_size ≡ expected_size t event.packet.header.number)

-- The session with the packet stored and counted.
unfoldable pub counted : Transfer → Received → Session → Session
counted t event s = expect_ack t event.now (record_data t event.packet event.arrival s)

-- The session after an ACK, of a DATA packet or of a COMPLETE that came too early.
abbrev pub cleared : Session → Session
cleared s = record s { ack_pending = false; packets_since_ack = 0; ack_number = inc32 s.ack_number }

abbrev pub numbered : Session → Session
numbered s = record s { ack_number = inc32 s.ack_number }

abbrev pub Acks : Transfer → Session → Datagram → Type 0
Acks t s d =
    send_ack t.client t.session_id s.ack_number s.tracker t.accepted.accepted_bitmap_bits ≡ ok d

-- What the loop's body does with a datagram.
pub data Handled (t : Transfer) (event : Received) (s : Session) (r : Result Exception Outcome)
    : Type 0 where
  thrown : (e : Exception) → r ≡ err e → Handled t event s r
  ignored : r ≡ ok (waiting s []) → Handled t event s r
  greeted :
      (to : Endpoint) (session_id : ℕ) (response : StartAckPayload) (d : Datagram)
      → send_start_ack to session_id response ≡ ok d
      → (session_id ≡ t.session_id) ⊎ (session_id ≡ event.packet.header.session_id)
      → r ≡ ok (waiting s (d ∷ []))
      → Handled t event s r
  held :
      IsData t event
      → should_send_ack event.packet
          (has_received s.tracker event.packet.header.number)
          event.now
          (counted t event s)
        ≡ false
      → r ≡ ok (waiting (counted t event s) [])
      → Handled t event s r
  answered :
      IsData t event
      → (d : Datagram) → Acks t (counted t event s) d
      → r ≡ ok (waiting (cleared (counted t event s)) (d ∷ []))
      → Handled t event s r
  urged :
      is_of_session t event ≡ true
      → (d : Datagram) → Acks t s d
      → r ≡ ok (waiting (numbered s) (d ∷ []))
      → Handled t event s r
  closed :
      is_of_session t event ≡ true
      → complete s.tracker ≡ true
      → (d : Datagram) → send_complete_ack t (completion t s) ≡ ok d
      → r ≡ ok (finished s (completion t s) (d ∷ []))
      → Handled t event s r

module _ (t : Transfer) (event : Received) (s : Session) where
  greeted-reply :
      (to : Endpoint) (session_id : ℕ) (response : StartAckPayload)
      → (session_id ≡ t.session_id) ⊎ (session_id ≡ event.packet.header.session_id)
      → Handled t event s (reply s (send_start_ack to session_id response))
  greeted-reply to session_id response ours = go (send_start_ack to session_id response) refl
    where
      go :
          (sent : Result Exception Datagram)
          → send_start_ack to session_id response ≡ sent
          → Handled t event s (reply s sent)
      go (ok d) e = greeted to session_id response d e ours (unfold reply in refl)
      go (err x) e = thrown x (unfold reply in refl)

  handle_start-Handled : Handled t event s (handle_start t event s)
  unfolding handle_start
  handle_start-Handled = elim (Bool-cases (is_of_session t event)) [
    | inl e ↦ rw e (greeted-reply _ _ _ (inl refl))
    | inr e ↦ rw e (greeted-reply _ _ _ (inr refl))
  ]

  acknowledge-go :
      (s' : Session) (sent : Result Exception Datagram)
      → ((d : Datagram) → sent ≡ ok d → Handled t event s (ok (waiting (numbered s') (d ∷ []))))
      → Handled t event s (sent >>= (λ d. ok (waiting (numbered s') (d ∷ []))))
  acknowledge-go s' (ok d) h = h d refl
  acknowledge-go s' (err e) h = thrown e refl

  answer_data-Handled :
      IsData t event
      → Handled t event s (
          answer_data t event.packet
            (has_received s.tracker event.packet.header.number)
            event.now
            (counted t event s))
  unfolding answer_data
  answer_data-Handled valid =
      let s' = counted t event s in
      elim (Bool-cases (
        should_send_ack event.packet (has_received s.tracker event.packet.header.number) event.now
          s')) [
            | inl e ↦ rw e (
                unfold acknowledge in
                acknowledge-go (record s' { ack_pending = false; packets_since_ack = 0 })
                  (send_ack t.client t.session_id s'.ack_number s'.tracker
                    t.accepted.accepted_bitmap_bits)
                  (λ d sent. answered valid d sent refl))
            | inr e ↦ rw e (held valid e refl)
          ]

  handle_data-Handled :
      is_of_session t event ≡ true
      → event.packet.header.type ≡ data_chunk
      → Handled t event s (handle_data t event s)
  unfolding handle_data
  handle_data-Handled ours type =
      elim (Bool-cases (leb t.start.total_chunks event.packet.header.number)) [
        | inl e ↦ rw e (ignored refl)
        | inr e ↦
            elim (Bool-cases
              (event.packet.payload_size == expected_size t event.packet.header.number)) [
                | inl f ↦
                    rw (e, f)
                      (unfold counted in
                        answer_data-Handled (ours, type, ground arith, ==→eq _ _ f))
                | inr f ↦ rw (e, f) (ignored refl)
              ]
      ]

  finish-Handled :
      is_of_session t event ≡ true
      → complete s.tracker ≡ true
      → Handled t event s (finish t event.flushed s)
  unfolding finish
  finish-Handled ours all = elim (Bool-cases (not event.flushed && not (t.start.file_size == 0))) [
    | inl e ↦ rw e (thrown _ refl)
    | inr e ↦ rw e (go (send_complete_ack t (completion t s)) refl)
  ]
    where
      go :
          (sent : Result Exception Datagram)
          → send_complete_ack t (completion t s) ≡ sent
          → Handled t event s (sent >>= (λ d. ok (finished s (completion t s) (d ∷ []))))
      go (ok d) e = closed ours all d e refl
      go (err x) e = thrown x refl

  handle_complete-Handled :
      is_of_session t event ≡ true → Handled t event s (handle_complete t event s)
  unfolding handle_complete
  handle_complete-Handled ours =
      elim (Bool-cases (
        not (event.packet.header.number == t.start.total_chunks)
        || not (event.packet.payload_size == 0))) [
          | inl e ↦ rw e (ignored refl)
          | inr e ↦
              elim (Bool-cases (
                not (complete s.tracker)
                || not (s.tracker.cumulative_ack == t.start.total_chunks))) [
                  | inl f ↦
                      rw (e, f)
                        (unfold acknowledge in
                          acknowledge-go s _ (λ d sent. urged ours d sent refl))
                  | inr f ↦ rw (e, f) (finish-Handled ours (ground arith))
                ]
        ]

  handle_type-Handled :
      (type : PacketType)
      → event.packet.header.type ≡ type
      → Handled t event s (handle_type type t event s)
  unfolding handle_type
  handle_type-Handled start e = handle_start-Handled
  handle_type-Handled data_chunk e = elim (Bool-cases (is_of_session t event)) [
    | inl ours ↦ rw ours (handle_data-Handled ours e)
    | inr other ↦ rw other (ignored refl)
  ]
  handle_type-Handled Types.complete e = elim (Bool-cases (is_of_session t event)) [
    | inl ours ↦ rw ours (handle_complete-Handled ours)
    | inr other ↦ rw other (ignored refl)
  ]
  handle_type-Handled start_ack e = ignored refl
  handle_type-Handled ack e = ignored refl
  handle_type-Handled complete_ack e = ignored refl
  handle_type-Handled Types.error e = ignored refl

  pub handle_packet-Handled : Handled t event s (handle_packet t event s)
  unfolding handle_packet
  handle_packet-Handled = handle_type-Handled event.packet.header.type refl
