-- ===== src/Client/Receiving.antt =====
-- How src/client.cpp receives: `receive_expected`, `apply_ack_packet`, `drain_acks` and
-- `wait_for_ack`. What the clock, `poll` and `recvfrom` give in each turn of a loop is an argument.
use ee542_lab2_fast_reliable.Common.{
  ℕ, ◌+◌, String, List, [], ◌∷◌, Option, none, some, Bool, ◌&&◌, ltb, ◌==◌, if◌then◌else◌, length,
  bit_and, Result, ok, err, ◌>>=◌, Exception, runtime_error,
}
use ee542_lab2_fast_reliable.Common.Int.{sub_ℕ}
use ee542_lab2_fast_reliable.Net.{Endpoint, same_endpoint}
use ee542_lab2_fast_reliable.Protocol.Types.{
  PacketType, packet_type_code, ack, PacketView, AckPayload, flag_sack, default_ack_bitmap_bits,
}
use ee542_lab2_fast_reliable.Protocol.Header.{deserialize_packet_view}
use ee542_lab2_fast_reliable.Protocol.Payloads.{deserialize_ack}
use ee542_lab2_fast_reliable.Reliability.State.{SenderWindow}
use ee542_lab2_fast_reliable.Reliability.Sender.{process_ack}
use ee542_lab2_fast_reliable.Client.Diagnostics.{TimingStats, add}

unfoldable pub same_type : PacketType → PacketType → Bool
same_type a b = packet_type_code a == packet_type_code b

-- What `poll`, and after it `recvfrom`, return in one turn.
pub data Ready : Type 0 where
  poll_timed_out : Ready
  poll_interrupted : Ready
  poll_failed : Ready
  receive_interrupted : Ready
  receive_failed : Ready
  received : Endpoint → List ℕ → Ready

-- The clock at the loop's test and around `poll`.
pub record Turn : Type 0 where
  pub now : ℕ
  pub poll_start : ℕ
  pub poll_end : ℕ
  pub ready : Ready

-- The packet in a datagram, if it is from the server, for this session and of the given type.
unfoldable pub expected_packet : Endpoint → PacketType → ℕ → Endpoint → List ℕ → Option PacketView
expected_packet server type session_id source bytes =
    elim (deserialize_packet_view (some bytes) (length bytes)) [
      | ok packet ↦
          if same_endpoint source server
            && (packet.header.session_id == session_id)
            && same_type packet.header.type type
          then some packet
          else none
      | err e ↦ none
    ]

-- What a turn does to the loop; the text of `errno` is left off the messages.
pub data TurnResult : Type 0 where
  gives_up : TurnResult
  goes_on : TurnResult
  fails : String → TurnResult
  accepts : PacketView → TurnResult

unfoldable pub take_packet : Option PacketView → TurnResult
take_packet none = goes_on
take_packet (some packet) = accepts packet

unfoldable pub take_ready : Endpoint → PacketType → ℕ → Ready → TurnResult
unfolding expected_packet take_packet
take_ready server type session_id poll_timed_out = gives_up
take_ready server type session_id poll_interrupted = goes_on
take_ready server type session_id poll_failed = fails "poll failed: "
take_ready server type session_id receive_interrupted = goes_on
take_ready server type session_id receive_failed = fails "recvfrom failed: "
take_ready server type session_id (received source bytes) =
    take_packet (expected_packet server type session_id source bytes)

-- `poll_diagnostics`, a null pointer or an object.
unfoldable pub add_poll : Turn → Option TimingStats → Option TimingStats
add_poll turn none = none
add_poll turn (some stats) = some (add stats (sub_ℕ turn.poll_end turn.poll_start))

unfoldable pub end_turn :
    TurnResult
    → Option TimingStats
    → (Option TimingStats → Result Exception (Option PacketView × Option TimingStats))
    → Result Exception (Option PacketView × Option TimingStats)
end_turn gives_up stats later = ok (none, stats)
end_turn goes_on stats later = later stats
end_turn (fails text) stats later = err (runtime_error text)
end_turn (accepts packet) stats later = ok (some packet, stats)

-- The loop over the turns; a list that ends stands for a clock that has reached the deadline.
unfoldable pub receive_expected :
    Endpoint
    → PacketType
    → ℕ
    → ℕ
    → List Turn
    → Option TimingStats
    → Result Exception (Option PacketView × Option TimingStats)
unfolding take_ready add_poll end_turn
receive_expected server type session_id deadline [] stats = ok (none, stats)
receive_expected server type session_id deadline (turn ∷ turns) stats =
    if ltb turn.now deadline
    then end_turn (take_ready server type session_id turn.ready) (add_poll turn stats)
        (λ stats'. receive_expected server type session_id deadline turns stats')
    else ok (none, stats)

-- The ACK in a packet that `apply_ack_packet` does not drop.
unfoldable pub applied_ack : PacketView → Option AckPayload
applied_ack packet =
    if bit_and packet.header.flags flag_sack == 0
    then none
    else elim (deserialize_ack (some packet.payload) packet.payload_size) [
      | none ↦ none
      | some payload ↦ if payload.bitmap_bits == default_ack_bitmap_bits then some payload else none
    ]

unfoldable pub apply_ack : Option AckPayload → ℕ → SenderWindow → SenderWindow
apply_ack none now window = window
apply_ack (some payload) now window = process_ack window payload now

unfoldable pub apply_ack_packet : PacketView → ℕ → SenderWindow → SenderWindow
unfolding applied_ack apply_ack
apply_ack_packet packet now window = apply_ack (applied_ack packet) now window

unfoldable pub apply_expected : Option PacketView → ℕ → SenderWindow → SenderWindow
unfolding apply_ack_packet
apply_expected none now window = window
apply_expected (some packet) now window = apply_ack_packet packet now window

-- What `recvfrom` returns in a turn of `drain_acks`, and the time at which an ACK is processed.
pub data Drained : Type 0 where
  would_block : Drained
  interrupted : Drained
  failed : Drained
  datagram : Endpoint → List ℕ → ℕ → Drained

unfoldable pub drain_acks :
    Endpoint → ℕ → List Drained → SenderWindow → Result Exception SenderWindow
unfolding expected_packet apply_expected
drain_acks server session_id [] window = ok window
drain_acks server session_id (would_block ∷ turns) window = ok window
drain_acks server session_id (interrupted ∷ turns) window =
    drain_acks server session_id turns window
drain_acks server session_id (failed ∷ turns) window = err (runtime_error "recvfrom failed: ")
drain_acks server session_id (datagram source bytes now ∷ turns) window =
    drain_acks server session_id turns
      (apply_expected (expected_packet server ack session_id source bytes) now window)

-- 10 ms, in nanoseconds.
abbrev pub ack_wait : ℕ
ack_wait = 10_000_000

abbrev pub or_stats : Option TimingStats → TimingStats → TimingStats
or_stats none stats = stats
or_stats (some stats') stats = stats'

unfoldable pub end_wait :
    ℕ
    → SenderWindow
    → TimingStats
    → Option PacketView × Option TimingStats
    → Result Exception (SenderWindow × TimingStats)
unfolding apply_expected
end_wait now window stats (packet, stats') =
    ok (apply_expected packet now window, or_stats stats' stats)

unfoldable pub wait_for_ack :
    Endpoint
    → ℕ
    → ℕ
    → List Turn
    → ℕ
    → SenderWindow
    → TimingStats
    → Result Exception (SenderWindow × TimingStats)
unfolding end_wait
wait_for_ack server session_id begin turns now window stats =
    receive_expected server ack session_id (begin + ack_wait) turns (some stats)
    >>= end_wait now window stats
