-- ===== src/Client/Control.antt =====
-- The control messages of `run_client` in src/client.cpp: the START and the COMPLETE handshake, and
-- the run as a whole.
pub mod Handshake
pub mod Proposal
pub mod Report
use ee542_lab2_fast_reliable.Common.{
  ℕ, zero, suc, ◌+◌, ◌-◌, ◌*◌, ◌/◌, ◌%◌, ◌^◌, List, [], ◌∷◌, Option, none, some, Bool, false, not,
  ◌||◌, ltb, ◌==◌, if◌then◌else◌, length, bit_xor, Result, ok, err, ◌>>=◌, Exception, runtime_error,
}
use ee542_lab2_fast_reliable.Net.{Endpoint, make_header, Datagram, send_packet}
use ee542_lab2_fast_reliable.Protocol.Types.{
  PacketType, start, start_ack, complete, complete_ack, PacketView, StartPayload, StartAckPayload,
  CompleteAckPayload, StatusCode, status_code, default_window_bytes, default_ack_bitmap_bits,
  default_ack_interval_ms, control_attempts,
}
use ee542_lab2_fast_reliable.Protocol.Sizes.{chunk_size_for_mtu, chunk_count}
use ee542_lab2_fast_reliable.Protocol.Payloads.{
  serialize_start, deserialize_start_ack, deserialize_complete_ack,
}
use ee542_lab2_fast_reliable.Reliability.State.{SenderWindow, new_sender}
use ee542_lab2_fast_reliable.Client.Diagnostics.{TimingStats, end_no_send, no_diagnostics}
use ee542_lab2_fast_reliable.Client.Receiving.{Turn, receive_expected}
use ee542_lab2_fast_reliable.Client.Sending.{
  Connection, Progress, Pass, Transferring, running, transferred, transfer,
}

-- The values of the random device in each round; `none` while every one has given 0.
unfoldable pub random_session_id : List (ℕ × ℕ) → Option ℕ
random_session_id [] = none
random_session_id ((high, low) ∷ rounds) =
    let session_id = bit_xor (high * 2 ^ 16 % 2 ^ 32) low in
    if session_id == 0 then random_session_id rounds else some session_id

unfoldable pub window_chunks_for : ℕ → ℕ
window_chunks_for chunk_size = (default_window_bytes + chunk_size - 1) / chunk_size % 2 ^ 32

-- The sizes that the client proposes for its file.
unfoldable pub propose : ℕ → ℕ → Result Exception StartPayload
propose mtu file_size = do
  chunk_size ← chunk_size_for_mtu mtu
  total_chunks ← chunk_count file_size chunk_size
  if ltb default_ack_bitmap_bits (window_chunks_for chunk_size)
      then err (runtime_error "configured MTU makes the default window exceed ACK coverage")
      else ok (record {
        file_size = file_size;
        chunk_size = chunk_size;
        total_chunks = total_chunks;
        window_chunks = window_chunks_for chunk_size;
        ack_bitmap_bits = default_ack_bitmap_bits;
        ack_interval_ms = default_ack_interval_ms;
      })

abbrev pub is_ok : StatusCode → Bool
is_ok status = status_code status == 0

-- A response to an attempt: `none` makes another attempt.
unfoldable pub accept_start : PacketView → Result Exception (Option StartAckPayload)
accept_start response = elim (deserialize_start_ack (some response.payload) response.payload_size) [
  | none ↦ err (runtime_error "server returned an invalid START_ACK")
  | some accepted ↦
      if is_ok accepted.status
      then ok (some accepted)
      else err (runtime_error "server rejected the transfer")
]

unfoldable pub accept_complete : PacketView → Result Exception (Option CompleteAckPayload)
accept_complete response =
    elim (deserialize_complete_ack (some response.payload) response.payload_size) [
      | none ↦ err (runtime_error "server returned an invalid COMPLETE_ACK")
      | some completed ↦ if is_ok completed.status then ok (some completed) else ok none
    ]

unfoldable pub accept_response {ℓ} :
    {A : Type ℓ}
    → (PacketView → Result Exception (Option A))
    → Option PacketView × Option TimingStats
    → Result Exception (Option A)
accept_response accept (none, stats) = ok none
accept_response accept (some response, stats) = accept response

-- The clock and the socket in an attempt: the time at which the wait begins, and its turns.
pub record Attempt : Type 0 where
  pub begin : ℕ
  pub turns : List Turn

-- The attempts made, and how they ended.
pub record Attempted {ℓ} (A : Type ℓ) : Type ℓ where
  pub sent : List Datagram
  pub result : Result Exception (Option A)

-- 1000 ms, in nanoseconds.
abbrev pub control_timeout : ℕ
control_timeout = 1_000_000_000

unfoldable pub again {ℓ} :
    {A : Type ℓ} → Datagram → Result Exception (Option A) → Attempted A → Attempted A
again datagram (ok (some a)) later = record { sent = datagram ∷ []; result = ok (some a) }
again datagram (err e) later = record { sent = datagram ∷ []; result = err e }
again datagram (ok none) later = record { sent = datagram ∷ later.sent; result = later.result }

-- The loop of a handshake: at most `attempts` times the datagram is sent and a response awaited.
-- Without a clock and a socket for it, an attempt gets no response.
unfoldable pub handshake {ℓ} :
    {A : Type ℓ}
    → Endpoint
    → PacketType
    → ℕ
    → (PacketView → Result Exception (Option A))
    → Datagram
    → ℕ
    → (ℕ → Attempt)
    → Attempted A
unfolding accept_response again
handshake server type session_id accept datagram zero attempt = record {
  sent = [];
  result = ok none;
}
handshake server type session_id accept datagram (suc attempts) attempt =
    let first = attempt attempts in
    again datagram
      (receive_expected server type session_id (first.begin + control_timeout) first.turns none
        >>= accept_response accept)
      (handshake server type session_id accept datagram attempts attempt)

-- The checks behind the handshake's loop.
unfoldable pub check_accepted : Option StartAckPayload → Result Exception StartAckPayload
check_accepted none = err (runtime_error "START handshake timed out after 10 attempts")
check_accepted (some accepted) =
    if accepted.accepted_window_chunks == 0
      || ltb accepted.accepted_bitmap_bits accepted.accepted_window_chunks
      || not (accepted.accepted_bitmap_bits == default_ack_bitmap_bits)
    then err (runtime_error "server accepted an invalid sliding window")
    else ok accepted

unfoldable pub check_completed :
    ℕ → ℕ → Option CompleteAckPayload → Result Exception CompleteAckPayload
check_completed total_chunks file_size none =
    err (runtime_error "COMPLETE handshake timed out after 10 attempts")
check_completed total_chunks file_size (some completed) =
    if not (completed.received_chunks == total_chunks)
      || not (completed.received_bytes == file_size)
    then err (runtime_error "server completion statistics do not match the input file")
    else ok completed

-- The clock, the socket and the random device in a run.
pub record Run : Type 0 where
  pub session_id : ℕ
  pub start_attempt : ℕ → Attempt
  pub begin : ℕ
  pub sample_begin : ℕ
  pub passes : List Pass
  pub end : ℕ
  pub complete_attempt : ℕ → Attempt

-- The client's side of the START handshake, with what it has sent.
unfoldable pub start_transfer :
    Endpoint → StartPayload → Run → Result Exception (Attempted StartAckPayload)
start_transfer server payload run = do
  datagram ← send_packet server (make_header start run.session_id 0) (serialize_start payload)
  ok (
      handshake server start_ack run.session_id accept_start datagram control_attempts
        run.start_attempt)

unfoldable pub connection_of : Endpoint → List ℕ → StartPayload → StartAckPayload → ℕ → Connection
connection_of server input payload accepted session_id = record {
  server = server;
  session_id = session_id;
  input = input;
  chunk_size = payload.chunk_size;
  total_chunks = payload.total_chunks;
  accepted_window_chunks = accepted.accepted_window_chunks;
  accepted_bitmap_bits = accepted.accepted_bitmap_bits;
}

unfoldable pub first_progress : SenderWindow → ℕ → Progress
first_progress window now = record {
  window = window;
  sent_data_packets = 0;
  retransmitted_packets = 0;
  diagnostics = no_diagnostics;
  sent_first_data = false;
  first_data_time = 0;
  next_window_sample = now + 100_000_000;
}

unfoldable pub begin_transfer : Connection → Run → Result Exception Progress
unfolding first_progress
begin_transfer c run = do
  window ← new_sender c.total_chunks c.accepted_window_chunks c.accepted_bitmap_bits run.begin
  ok (first_progress window run.sample_begin)

-- The client's side of the COMPLETE handshake.
unfoldable pub complete_transfer :
    Connection → Run → Result Exception (Attempted CompleteAckPayload)
complete_transfer c run = do
  datagram ← send_packet c.server (make_header complete c.session_id c.total_chunks) []
  ok (
      handshake c.server complete_ack c.session_id accept_complete datagram control_attempts
        run.complete_attempt)

-- How a run ends: it still transfers, or has reported the end.
pub data Ended : Type 0 where
  unfinished : Progress → Ended
  reported : Progress → CompleteAckPayload → Ended

-- `diagnostics.end_no_send(end)`, and the report.
unfoldable pub report : Run → Progress → CompleteAckPayload → Result Exception Ended
report run p completed =
    ok (reported (record p { diagnostics = end_no_send p.diagnostics run.end }) completed)

-- The COMPLETE handshake, and the report.
unfoldable pub finish_run : Connection → Run → Progress → Result Exception Ended
unfolding report
finish_run c run p = do
  attempted ← complete_transfer c run
  response ← attempted.result
  completed ← check_completed c.total_chunks (length c.input) response
  report run p completed

unfoldable pub end_run : Connection → Run → Transferring → Result Exception Ended
unfolding finish_run
end_run c run (running p sent) = ok (unfinished p)
end_run c run (transferred p sent) = finish_run c run p

-- The run from the sizes to the report, for the file `input`.
unfoldable pub run_client : ℕ → Endpoint → List ℕ → Run → Result Exception Ended
unfolding end_run
run_client mtu server input run = do
  payload ← propose mtu (length input)
  attempted ← start_transfer server payload run
  response ← attempted.result
  accepted ← check_accepted response
  let c = connection_of server input payload accepted run.session_id
  p ← begin_transfer c run
  transferring ← transfer c run.passes p
  end_run c run transferring
