-- ===== src/Client/Sending.antt =====
-- The transfer loop of `run_client` in src/client.cpp. What the clock and the socket give in a pass
-- is an argument, and so is what the pacer takes.
pub mod Gather
pub mod Keeps
pub mod Chunk
pub mod Passing
pub mod Due
use ee542_lab2_fast_reliable.Common.{
  ℕ, ◌+◌, ◌*◌, List, [], ◌∷◌, ◌++◌, Option, none, some, Bool, true, not, ◌&&◌, ◌||◌, leb, ◌==◌,
  if◌then◌else◌, drop, take, length, inc64, Result, ok, err, ◌>>=◌, Exception, invalid_argument,
}
use ee542_lab2_fast_reliable.Common.Int.{sub_ℕ}
use ee542_lab2_fast_reliable.Net.{Endpoint, make_header, Datagram}
use ee542_lab2_fast_reliable.Protocol.Types.{
  PacketHeader, Pointer, data_chunk, flag_retransmitted, default_rto_ms,
}
use ee542_lab2_fast_reliable.Protocol.Header.{serialize_packet_header, is_null}
use ee542_lab2_fast_reliable.Chunks.{chunk_offset, chunk_length}
use ee542_lab2_fast_reliable.Reliability.State.{SenderWindow, SendDecision}
use ee542_lab2_fast_reliable.Reliability.Sender.{
  select_next_packet, mark_sent, check_timeouts, all_acked,
}
use ee542_lab2_fast_reliable.Client.Diagnostics.{
  PerformanceDiagnostics, add, sample, begin_no_send, end_no_send, count_idle, TimingStats,
}
use ee542_lab2_fast_reliable.Client.Receiving.{Turn, Drained, drain_acks, wait_for_ack}

abbrev pub gather : Pointer → ℕ → List ℕ
gather none payload_size = []
gather (some payload) payload_size = take payload_size payload

-- `sendmsg` gathers the header and the payload into one datagram.
unfoldable pub send_data_packet : Endpoint → PacketHeader → Pointer → ℕ → Result Exception Datagram
send_data_packet server header payload payload_size =
    if not (payload_size == 0) && is_null payload
    then err (invalid_argument "packet payload is null")
    else do
      serialized_header ← serialize_packet_header header payload_size
      ok (record { destination = server; bytes = serialized_header ++ gather payload payload_size })

-- What `run_client` has fixed when its loop begins.
pub record Connection : Type 0 where
  pub server : Endpoint
  pub session_id : ℕ
  pub input : List ℕ
  pub chunk_size : ℕ
  pub total_chunks : ℕ
  pub accepted_window_chunks : ℕ
  pub accepted_bitmap_bits : ℕ

-- What the loop changes.
pub record Progress : Type 0 where
  pub window : SenderWindow
  pub sent_data_packets : ℕ
  pub retransmitted_packets : ℕ
  pub diagnostics : PerformanceDiagnostics
  pub sent_first_data : Bool
  pub first_data_time : ℕ
  pub next_window_sample : ℕ

-- The clock's readings and the datagrams that arrive in one pass, in the order of the code.
pub record Pass : Type 0 where
  pub drained : List Drained
  pub timeout_time : ℕ
  pub sample_time : ℕ
  pub idle_start : ℕ
  pub wait_start : ℕ
  pub turns : List Turn
  pub ack_time : ℕ
  pub idle_end : ℕ
  pub select_time : ℕ
  pub pacer_start : ℕ
  pub pacer_end : ℕ
  pub send_time : ℕ
  pub sent_time : ℕ
  pub drained_after : List Drained

-- The size of the sequence number's chunk, and where it begins.
unfoldable pub payload_of : Connection → ℕ → List ℕ
payload_of c sequence = drop (chunk_offset c.chunk_size sequence) c.input

-- `input.data()` is null when the file is empty.
unfoldable pub pointer_of : Connection → ℕ → Pointer
pointer_of c sequence = if length c.input == 0 then none else some (payload_of c sequence)

unfoldable pub payload_size_of : Connection → ℕ → ℕ
payload_size_of c sequence = chunk_length (length c.input) c.chunk_size sequence

unfoldable pub data_header : Connection → SendDecision → PacketHeader
data_header c decision =
    let header = make_header data_chunk c.session_id decision.sequence in
    if decision.retransmission then record header { flags = flag_retransmitted } else header

unfoldable pub send_chunk : Connection → SendDecision → Result Exception Datagram
send_chunk c decision =
    send_data_packet c.server (data_header c decision) (pointer_of c decision.sequence)
      (payload_size_of c decision.sequence)

-- The counters after a chunk has been sent.
unfoldable pub count_sent : SendDecision → Progress → Progress
count_sent decision p =
    let d = p.diagnostics in
    let sent : Progress = record p { sent_data_packets = inc64 p.sent_data_packets } in
    if decision.retransmission
    then record sent {
      retransmitted_packets = inc64 p.retransmitted_packets;
      diagnostics =
          if decision.fast_retransmission
          then record d { fast_retransmits = inc64 d.fast_retransmits }
          else record d { rto_retransmits = inc64 d.rto_retransmits };
    }
    else sent

unfoldable pub window_blocked : Connection → SenderWindow → Bool
window_blocked c window =
    leb c.accepted_window_chunks window.outstanding_chunks
    || leb (window.base + c.accepted_bitmap_bits) window.next_sequence

unfoldable pub end_idle :
    Connection
    → Pass
    → Progress
    → SenderWindow × TimingStats
    → Result Exception (Progress × List Datagram)
end_idle c pass p (window, stats) =
    let waited : PerformanceDiagnostics = record p.diagnostics { poll_wait = stats } in
    ok (
      record p {
        window = window;
        diagnostics =
            count_idle (window_blocked c p.window) (leb c.total_chunks p.window.next_sequence)
              (sub_ℕ pass.idle_end pass.idle_start) waited;
      },
      [],
    )

-- The branch without a decision.
unfoldable pub idle : Connection → Pass → Progress → Result Exception (Progress × List Datagram)
unfolding end_idle
idle c pass p =
    let blocked : Progress = record p {
      diagnostics = begin_no_send p.diagnostics pass.idle_start;
    } in
    wait_for_ack c.server c.session_id pass.wait_start pass.turns pass.ack_time p.window
      blocked.diagnostics.poll_wait
    >>= end_idle c pass blocked

-- The pacer's slot and the time of the first DATA packet.
unfoldable pub take_slot : Pass → Progress → Progress
take_slot pass p =
    let d = end_no_send p.diagnostics pass.select_time in
    record p {
      diagnostics = record d { pacer = add d.pacer (sub_ℕ pass.pacer_end pass.pacer_start) };
      first_data_time = if p.sent_first_data then p.first_data_time else pass.send_time;
      sent_first_data = true;
    }

-- The branch with a decision.
unfoldable pub transmit :
    Connection → Pass → SendDecision → Progress → Result Exception (Progress × List Datagram)
transmit c pass decision p = do
  datagram ← send_chunk c decision
  window ← mark_sent p.window decision.sequence pass.sent_time
  let counted = count_sent decision (record (take_slot pass p) { window = window })
  drained ← drain_acks c.server c.session_id pass.drained_after window
  ok (record counted { window = drained }, datagram ∷ [])

unfoldable pub take_sample : Pass → Progress → Progress
take_sample pass p =
    if leb p.next_window_sample pass.sample_time
    then record p {
      diagnostics = record p.diagnostics {
        window_samples = sample p.diagnostics.window_samples p.window;
      };
      next_window_sample = pass.sample_time + 100_000_000;
    }
    else p

unfoldable pub decide :
    Connection
    → Pass
    → Progress
    → Option SendDecision × SenderWindow
    → Result Exception (Progress × List Datagram)
unfolding idle transmit
decide c pass p (none, window) = idle c pass (record p { window = window })
decide c pass p (some decision, window) = transmit c pass decision (record p { window = window })

-- 500 ms, in nanoseconds.
abbrev pub rto : ℕ
rto = default_rto_ms * 1_000_000

-- The body of the loop, with the datagram that it sends.
unfoldable pub pass_once :
    Connection → Pass → Progress → Result Exception (Progress × List Datagram)
unfolding take_sample decide
pass_once c pass p = do
  drained ← drain_acks c.server c.session_id pass.drained p.window
  let checked = check_timeouts drained pass.timeout_time rto
  decide c pass (take_sample pass (record p { window = checked })) (select_next_packet checked)

-- The loop, over passes: it still runs when the list ends, or has left with every chunk
-- acknowledged. The datagrams are those sent, in order.
pub data Transferring : Type 0 where
  running : Progress → List Datagram → Transferring
  transferred : Progress → List Datagram → Transferring

unfoldable pub with_sent :
    List Datagram → Result Exception Transferring → Result Exception Transferring
with_sent sent (ok (running p later)) = ok (running p (sent ++ later))
with_sent sent (ok (transferred p later)) = ok (transferred p (sent ++ later))
with_sent sent (err e) = err e

unfoldable pub next_pass :
    Result Exception (Progress × List Datagram)
    → (Progress → Result Exception Transferring)
    → Result Exception Transferring
unfolding with_sent
next_pass (ok (p, sent)) later = with_sent sent (later p)
next_pass (err e) later = err e

unfoldable pub transfer : Connection → List Pass → Progress → Result Exception Transferring
unfolding next_pass
transfer c [] p = if all_acked p.window then ok (transferred p []) else ok (running p [])
transfer c (pass ∷ passes) p =
    if all_acked p.window
    then ok (transferred p [])
    else next_pass (pass_once c pass p) (λ p'. transfer c passes p')
