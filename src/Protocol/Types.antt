-- ===== src/Protocol/Types.antt =====
-- The constants of include/common.hpp and the types of include/protocol.hpp.
-- A pointer is `none` when it is null, and otherwise the bytes that stand from it on.
use ee542_lab2_fast_reliable.Common.{ℕ, zero, suc, ◌*◌, List, Option}

abbrev pub magic_number : ℕ
magic_number = 0x46524654

abbrev pub protocol_version : ℕ
protocol_version = 1

abbrev pub header_size : ℕ
header_size = 24

abbrev pub ipv4_udp_overhead : ℕ
ipv4_udp_overhead = 28

abbrev pub default_window_bytes : ℕ
default_window_bytes = 8 * 1024 * 1024

abbrev pub default_ack_bitmap_bits : ℕ
default_ack_bitmap_bits = 8192

abbrev pub default_ack_interval_ms : ℕ
default_ack_interval_ms = 10

abbrev pub fast_retransmit_threshold : ℕ
fast_retransmit_threshold = 3

abbrev pub default_rto_ms : ℕ
default_rto_ms = 500

abbrev pub control_attempts : ℕ
control_attempts = 10

abbrev pub flag_crc32c : ℕ
flag_crc32c = 0x0001

abbrev pub flag_retransmitted : ℕ
flag_retransmitted = 0x0002

abbrev pub flag_sack : ℕ
flag_sack = 0x0004

pub data PacketType : Type 0 where
  start start_ack data_chunk ack complete complete_ack error : PacketType

-- `static_cast<std::uint8_t>(type)`, and back; the way back is taken only for 1 to 7.
abbrev pub packet_type_code : PacketType → ℕ
packet_type_code start = 1
packet_type_code start_ack = 2
packet_type_code data_chunk = 3
packet_type_code ack = 4
packet_type_code complete = 5
packet_type_code complete_ack = 6
packet_type_code error = 7

abbrev pub packet_type_of_code : ℕ → PacketType
packet_type_of_code (suc zero) = start
packet_type_of_code (suc (suc zero)) = start_ack
packet_type_of_code (suc (suc (suc zero))) = data_chunk
packet_type_of_code (suc (suc (suc (suc zero)))) = ack
packet_type_of_code (suc (suc (suc (suc (suc zero))))) = complete
packet_type_of_code (suc (suc (suc (suc (suc (suc zero)))))) = complete_ack
packet_type_of_code _ = error

-- An enum over `std::uint16_t` holds every value: `unnamed n` is the value `n + 5`.
pub data StatusCode : Type 0 where
  ok_status busy invalid_request io_error incomplete : StatusCode
  unnamed : ℕ → StatusCode

abbrev pub status_code : StatusCode → ℕ
status_code ok_status = 0
status_code busy = 1
status_code invalid_request = 2
status_code io_error = 3
status_code incomplete = 4
status_code (unnamed n) = suc (suc (suc (suc (suc n))))

abbrev pub status_of_code : ℕ → StatusCode
status_of_code zero = ok_status
status_of_code (suc zero) = busy
status_of_code (suc (suc zero)) = invalid_request
status_of_code (suc (suc (suc zero))) = io_error
status_of_code (suc (suc (suc (suc zero)))) = incomplete
status_of_code (suc (suc (suc (suc (suc n))))) = unnamed n

pub record PacketHeader : Type 0 where
  pub magic : ℕ
  pub version : ℕ
  pub type : PacketType
  pub flags : ℕ
  pub session_id : ℕ
  pub number : ℕ
  pub payload_length : ℕ
  pub header_length : ℕ
  pub crc32c : ℕ

abbrev pub Pointer : Type 0
Pointer = Option (List ℕ)

-- `payload` is what stands from the payload's first byte on; `payload_size` bytes of it are meant.
pub record PacketView : Type 0 where
  pub header : PacketHeader
  pub payload : List ℕ
  pub payload_size : ℕ

pub record Packet : Type 0 where
  pub header : PacketHeader
  pub payload : List ℕ

pub record StartPayload : Type 0 where
  pub file_size : ℕ
  pub chunk_size : ℕ
  pub total_chunks : ℕ
  pub window_chunks : ℕ
  pub ack_bitmap_bits : ℕ
  pub ack_interval_ms : ℕ

pub record StartAckPayload : Type 0 where
  pub status : StatusCode
  pub accepted_window_chunks : ℕ
  pub accepted_bitmap_bits : ℕ
  pub accepted_ack_interval_ms : ℕ

pub record AckPayload : Type 0 where
  pub cumulative_ack : ℕ
  pub largest_received_plus_one : ℕ
  pub bitmap_base : ℕ
  pub bitmap_bits : ℕ
  pub bitmap : List ℕ

pub record CompleteAckPayload : Type 0 where
  pub status : StatusCode
  pub received_chunks : ℕ
  pub received_bytes : ℕ
  pub receiver_transfer_time_us : ℕ
