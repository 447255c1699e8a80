-- ===== src/Reliability/State.antt =====
-- The state of `SenderWindow`, include/reliability.hpp, and its constructor. A time point is a
-- number of nanoseconds since the clock's epoch; a stall time is a signed difference.
use ee542_lab2_fast_reliable.Common.{
  ℕ, List, [], Bool, true, false, ltb, ◌==◌, if◌then◌else◌, Result, ok, err, Exception,
  invalid_argument, set, get_or, replicate,
}
use ee542_lab2_fast_reliable.Common.Int.{ℤ, pos}

pub data PacketState : Type 0 where
  unsent in_flight acked : PacketState

pub record SendDecision : Type 0 where
  pub sequence : ℕ
  pub retransmission : Bool
  pub fast_retransmission : Bool

pub record ChunkState : Type 0 where
  pub state : PacketState
  pub last_sent_time : ℕ
  pub retransmit_pending : Bool
  pub fast_retransmit_pending : Bool
  pub fast_retransmitted : Bool
  pub latest_later_acked : ℕ
  pub retransmit_evidence : ℕ

abbrev pub new_chunk : ChunkState
new_chunk = record {
  state = unsent;
  last_sent_time = 0;
  retransmit_pending = false;
  fast_retransmit_pending = false;
  fast_retransmitted = false;
  latest_later_acked = 0;
  retransmit_evidence = 0;
}

pub record SenderWindow : Type 0 where
  pub total_chunks : ℕ
  pub logical_window_chunks : ℕ
  pub sack_coverage_chunks : ℕ
  pub base : ℕ
  pub next_sequence : ℕ
  pub outstanding_chunks : ℕ
  pub chunks : List ChunkState
  pub retransmission_queue : List ℕ
  pub last_base_advance_time : ℕ
  pub base_advancement_events : ℕ
  pub total_base_stall_time : ℤ
  pub longest_base_stall_time : ℤ

abbrev pub fresh_window : ℕ → ℕ → ℕ → ℕ → SenderWindow
fresh_window total window coverage now = record {
  total_chunks = total;
  logical_window_chunks = window;
  sack_coverage_chunks = coverage;
  base = 0;
  next_sequence = 0;
  outstanding_chunks = 0;
  chunks = replicate total new_chunk;
  retransmission_queue = [];
  last_base_advance_time = now;
  base_advancement_events = 0;
  total_base_stall_time = pos 0;
  longest_base_stall_time = pos 0;
}

-- The constructor; `now` is what the clock shows.
unfoldable pub new_sender : ℕ → ℕ → ℕ → ℕ → Result Exception SenderWindow
new_sender total window coverage now =
    if window == 0
    then err (invalid_argument "window must contain at least one chunk")
    else if coverage == 0
    then err (invalid_argument "SACK coverage must contain at least one chunk")
    else if ltb coverage window
    then err (invalid_argument "logical window cannot exceed SACK coverage")
    else ok (fresh_window total window coverage now)

abbrev pub is_in_flight : PacketState → Bool
is_in_flight unsent = false
is_in_flight in_flight = true
is_in_flight acked = false

abbrev pub is_acked : PacketState → Bool
is_acked unsent = false
is_acked in_flight = false
is_acked acked = true

-- `chunks_[sequence]`; beyond the vector, where the code would be undefined, an unsent chunk.
unfoldable pub chunk_at : SenderWindow → ℕ → ChunkState
chunk_at w sequence = get_or w.chunks sequence new_chunk

unfoldable pub put_chunk : SenderWindow → ℕ → ChunkState → SenderWindow
put_chunk w sequence chunk = record w { chunks = set w.chunks sequence chunk }
