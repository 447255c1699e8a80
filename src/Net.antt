-- ===== src/Net.antt =====
-- Headers, addresses and `send_packet`, which src/client.cpp and src/server.cpp each have. A system
-- call that fails ends the program, and is not modelled.
pub mod Wire
use ee542_lab2_fast_reliable.Common.{
  ℕ, List, some, Bool, ◌&&◌, ◌==◌, length, Result, ok, ◌>>=◌, Exception,
}
use ee542_lab2_fast_reliable.Protocol.Types.{
  PacketType, PacketHeader, magic_number, protocol_version, header_size,
}
use ee542_lab2_fast_reliable.Protocol.Header.{serialize_packet}

-- `sockaddr_in`, as far as it is compared.
pub record Endpoint : Type 0 where
  pub family : ℕ
  pub port : ℕ
  pub address : ℕ

unfoldable pub same_endpoint : Endpoint → Endpoint → Bool
same_endpoint left right =
    left.family == right.family && left.port == right.port && left.address == right.address

unfoldable pub make_header : PacketType → ℕ → ℕ → PacketHeader
make_header type session_id number = record {
  magic = magic_number;
  version = protocol_version;
  type = type;
  flags = 0;
  session_id = session_id;
  number = number;
  payload_length = 0;
  header_length = header_size;
  crc32c = 0;
}

-- What is handed to `sendto`.
pub record Datagram : Type 0 where
  pub destination : Endpoint
  pub bytes : List ℕ

unfoldable pub send_packet : Endpoint → PacketHeader → List ℕ → Result Exception Datagram
send_packet destination header payload = do
  bytes ← serialize_packet header (some payload) (length payload)
  ok (record { destination = destination; bytes = bytes })
