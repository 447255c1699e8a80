-- ===== src/Server/Start.antt =====
-- The first loop of `run_server` in src/server.cpp: which START is accepted, and what is answered.
use ee542_lab2_fast_reliable.Common.{
  ℕ, ◌+◌, ◌-◌, ◌*◌, ◌^◌, ◌≤◌, ◌<◌, ◌≡◌, ◌≢◌, ◌↔◌, ◌⊎◌, inl, inr, refl, Bool-cases, Option, none,
  some, Bool, true, false, not, ◌&&◌, ◌||◌, min, ltb, ◌==◌, if◌then◌else◌, arith, Result, ok, err,
  ◌>>=◌, Exception, sym, ap,
}
use ee542_lab2_fast_reliable.Protocol.Types.{
  PacketType, start, start_ack, data_chunk, ack, complete, complete_ack, error, PacketView,
  StartPayload, StartAckPayload, ok_status, invalid_request, io_error, default_ack_bitmap_bits,
}
use ee542_lab2_fast_reliable.Protocol.Payloads.{deserialize_start}
use ee542_lab2_fast_reliable.Protocol.Sizes.{
  chunk_size_for_mtu, chunk_count, chunk_size_for_mtu_iff, chunk_count_throws, too_many_chunks,
}
use ee542_lab2_fast_reliable.Server.{Transfer, Session, new_session, send_start_ack}
use ee542_lab2_fast_reliable.Net.{Endpoint, Datagram}

abbrev pub is_start : PacketType → Bool
is_start start = true
is_start start_ack = false
is_start data_chunk = false
is_start ack = false
is_start complete = false
is_start complete_ack = false
is_start error = false

-- The conjunction `valid`, whose operands may throw; the later ones are not run when one fails.
unfoldable pub validate_start : ℕ → StartPayload → Result Exception Bool
validate_start mtu payload = do
  size ← chunk_size_for_mtu mtu
  if not (payload.chunk_size == size) then ok false else do
    count ← chunk_count payload.file_size payload.chunk_size
    ok (
        payload.total_chunks == count
        && ltb 0 payload.window_chunks
        && (payload.ack_bitmap_bits == default_ack_bitmap_bits))

unfoldable pub accepted_payload : StartPayload → StartAckPayload
accepted_payload payload = record {
  status = ok_status;
  accepted_window_chunks = min payload.window_chunks default_ack_bitmap_bits;
  accepted_bitmap_bits = default_ack_bitmap_bits;
  accepted_ack_interval_ms = payload.ack_interval_ms;
}

abbrev pub refusal : StartAckPayload
refusal = record {
  status = invalid_request;
  accepted_window_chunks = 0;
  accepted_bitmap_bits = 0;
  accepted_ack_interval_ms = 0;
}

-- What the loop does with a datagram: it waits on, waits on after a refusal, or leaves the loop.
pub data Answer : Type 0 where
  ignores : Answer
  refuses : Datagram → Answer
  accepts : Transfer → Answer

-- The request in a datagram that is a START.
unfoldable pub start_request : PacketView → Option StartPayload
start_request packet =
    if not (is_start packet.header.type)
      || packet.header.session_id == 0
      || not (packet.header.number == 0)
    then none
    else deserialize_start (some packet.payload) packet.payload_size

unfoldable pub answer_valid : Endpoint → ℕ → StartPayload → Bool → Result Exception Answer
answer_valid client session_id payload true = ok (
    accepts (record {
      client = client;
      session_id = session_id;
      start = payload;
      accepted = accepted_payload payload;
    }))
answer_valid client session_id payload false = do
  datagram ← send_start_ack client session_id refusal
  ok (refuses datagram)

unfoldable pub answer_request : ℕ → Endpoint → ℕ → Option StartPayload → Result Exception Answer
unfolding answer_valid
answer_request mtu client session_id none = ok ignores
answer_request mtu client session_id (some payload) = do
  valid ← validate_start mtu payload
  answer_valid client session_id payload valid

unfoldable pub receive_start : ℕ → PacketView → Endpoint → Result Exception Answer
receive_start mtu packet client =
    answer_request mtu client packet.header.session_id (start_request packet)

abbrev pub failure : StartAckPayload
failure = record {
  status = io_error;
  accepted_window_chunks = 0;
  accepted_bitmap_bits = 0;
  accepted_ack_interval_ms = 0;
}

-- After the loop: the answer to the client, and the session, or none where the file could not be
-- created and the exception goes on.
unfoldable pub begin_transfer : Transfer → Bool → ℕ → Result Exception (Datagram × Option Session)
begin_transfer t true now = do
  datagram ← send_start_ack t.client t.session_id t.accepted
  ok (datagram, some (new_session t now))
begin_transfer t false now = do
  datagram ← send_start_ack t.client t.session_id failure
  ok (datagram, none)

-- The conditions of a valid request.
abbrev pub IsValidStart : ℕ → StartPayload → Type 0
IsValidStart mtu payload =
    (chunk_size_for_mtu mtu ≡ ok payload.chunk_size)
    × (chunk_count payload.file_size payload.chunk_size ≡ ok payload.total_chunks)
    × (0 < payload.window_chunks)
    × (payload.ack_bitmap_bits ≡ 8192)

pub validate_start_iff :
    (mtu : ℕ) (payload : StartPayload)
    → (validate_start mtu payload ≡ ok true) ↔ IsValidStart mtu payload
unfolding validate_start
validate_start_iff mtu payload = (λ h. ground arith, λ h. ground arith)

-- For an MTU from 53 to 65535: either the validation of a START returns a Boolean, and the chunk
-- size is not that of the MTU or the file has at most 2^32 - 1 chunks; or it throws, and the chunk
-- size is that of the MTU and the file is longer than 2^32 - 1 chunks.
pub validate_start_cases :
    (mtu : ℕ) (payload : StartPayload)
    → 53 ≤ mtu
    → mtu ≤ 65535
    → ((valid : Bool) × (validate_start mtu payload ≡ ok valid)
        × ((payload.chunk_size + 52 ≢ mtu)
            ⊎ (payload.file_size ≤ (2 ^ 32 - 1) * payload.chunk_size)))
      ⊎ ((validate_start mtu payload ≡ err too_many_chunks)
          × (payload.chunk_size + 52 ≡ mtu)
          × ((2 ^ 32 - 1) * payload.chunk_size < payload.file_size))
unfolding validate_start
validate_start_cases mtu payload low high =
    let size : chunk_size_for_mtu mtu ≡ ok (mtu - 52) =
      (chunk_size_for_mtu_iff mtu (mtu - 52)).1 (low, high, omega arith) in
    elim (Bool-cases (payload.chunk_size == mtu - 52)) [
      | inl e ↦
          let same : payload.chunk_size + 52 ≡ mtu = ground arith in
          elim (chunk_count_throws payload.file_size payload.chunk_size (omega arith)) [
            | inl (count, counted, short) ↦ inl (
              payload.total_chunks == count
                  && ltb 0 payload.window_chunks
                  && (payload.ack_bitmap_bits == default_ack_bitmap_bits),
              rw (size, e, counted) refl,
              inr short,
            )
            | inr (throws, long) ↦ inr (rw (size, e, throws) refl, same, long)
          ]
      | inr e ↦ inl (false, rw (size, e) refl, inl (λ same. ground arith))
    ]

abbrev transfer_of : Endpoint → ℕ → StartPayload → Transfer
transfer_of client session_id payload = record {
  client = client;
  session_id = session_id;
  start = payload;
  accepted = accepted_payload payload;
}

refuses_not_accepts :
    (r : Result Exception Datagram) (t : Transfer) → (r >>= (λ d. ok (refuses d))) ≢ ok (accepts t)
refuses_not_accepts (ok d) t e = cc
refuses_not_accepts (err x) t e = cc

answer_valid_accepts :
    (client : Endpoint) (session_id : ℕ) (payload : StartPayload) (valid : Result Exception Bool)
    (t : Transfer)
    → (valid >>= (λ b. answer_valid client session_id payload b)) ≡ ok (accepts t)
    → (valid ≡ ok true) × (t ≡ transfer_of client session_id payload)
unfolding answer_valid
answer_valid_accepts client session_id payload (ok true) t e = (refl, cc)
answer_valid_accepts client session_id payload (ok false) t e =
    absurd (refuses_not_accepts (send_start_ack client session_id refusal) t e)
answer_valid_accepts client session_id payload (err x) t e = cc

answer_request_accepts :
    (mtu : ℕ) (client : Endpoint) (session_id : ℕ) (request : Option StartPayload) (t : Transfer)
    → answer_request mtu client session_id request ≡ ok (accepts t)
    → (payload : StartPayload) × (request ≡ some payload)
      × IsValidStart mtu payload
      × (t ≡ transfer_of client session_id payload)
unfolding answer_request
answer_request_accepts mtu client session_id none t e = cc
answer_request_accepts mtu client session_id (some payload) t e =
    let (valid, same) =
      answer_valid_accepts client session_id payload (validate_start mtu payload) t e in
    (payload, refl, (validate_start_iff mtu payload).0 valid, same)

is_start-start : (type : PacketType) → is_start type ≡ true → type ≡ start
is_start-start start e = refl
is_start-start start_ack e = cc
is_start-start data_chunk e = cc
is_start-start ack e = cc
is_start-start complete e = cc
is_start-start complete_ack e = cc
is_start-start error e = cc

start_request_iff :
    (packet : PacketView) (payload : StartPayload)
    → (start_request packet ≡ some payload) ↔ (
        (packet.header.type ≡ start)
        × (packet.header.session_id ≢ 0)
        × (packet.header.number ≡ 0)
        × (deserialize_start (some packet.payload) packet.payload_size ≡ some payload))
unfolding start_request
start_request_iff packet payload = (
  λ e.
      elim (Bool-cases (
        not (is_start packet.header.type)
        || packet.header.session_id == 0
        || not (packet.header.number == 0))) [
          | inl f ↦ ground arith
          | inr f ↦ (
            is_start-start packet.header.type (ground arith),
            ground arith,
            ground arith,
            ground arith,
          )
        ],
  λ (type, session, number, read). rw type (ground arith),
)

-- What the server accepts, and with which transfer.
abbrev pub IsAccepted : ℕ → PacketView → Endpoint → Transfer → Type 0
IsAccepted mtu packet client t =
    (packet.header.type ≡ start)
    × (packet.header.session_id ≢ 0)
    × (packet.header.number ≡ 0)
    × (deserialize_start (some packet.payload) packet.payload_size ≡ some t.start)
    × IsValidStart mtu t.start
    × (t.client ≡ client)
    × (t.session_id ≡ packet.header.session_id)
    × (t.accepted.status ≡ ok_status)
    × (t.accepted.accepted_window_chunks ≡ min t.start.window_chunks 8192)
    × (t.accepted.accepted_bitmap_bits ≡ 8192)
    × (t.accepted.accepted_ack_interval_ms ≡ t.start.ack_interval_ms)

-- The server accepts a datagram exactly if it is a START with number 0 for a session other than 0,
-- and decodes to a payload with the chunk size of the server's MTU, the chunk count of its file, a
-- window of at least one chunk and 8192 bitmap bits; the transfer has this payload, the datagram's
-- source and session, and an answer with status OK, the smaller of the requested window and 8192
-- chunks, 8192 bitmap bits and the requested ACK interval.
pub receive_start_accepts :
    (mtu : ℕ) (packet : PacketView) (client : Endpoint) (t : Transfer)
    → (receive_start mtu packet client ≡ ok (accepts t)) ↔ IsAccepted mtu packet client t
unfolding receive_start accepted_payload answer_request answer_valid
receive_start_accepts mtu packet client t = (
  λ e.
      let (payload, request, valid, same) =
        answer_request_accepts mtu client packet.header.session_id (start_request packet) t e in
      let (type, session, number, read) = (start_request_iff packet payload).0 request in
      rw same (type, session, number, read, valid, refl, refl, refl, refl, refl, refl),
  λ (type, session, number, read, valid, from, own, status, window, bits, interval).
      let request = (start_request_iff packet t.start).1 (type, session, number, read) in
      let same : transfer_of client packet.header.session_id t.start ≡ t = λ i. record {
        client = sym from i;
        session_id = sym own i;
        start = t.start;
        accepted = record {
          status = sym status i;
          accepted_window_chunks = sym window i;
          accepted_bitmap_bits = sym bits i;
          accepted_ack_interval_ms = sym interval i;
        };
      } in
      rw (request, (validate_start_iff mtu t.start).1 valid) (ap (λ x. ok (accepts x)) same),
)
