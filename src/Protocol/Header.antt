-- ===== src/Protocol/Header.antt =====
-- Datagrams: `serialize_packet_header`, `serialize_packet`, `deserialize_packet_view` and
-- `deserialize_packet` of src/protocol.cpp.
pub mod RoundTrip
use ee542_lab2_fast_reliable.Common.{
  ℕ, zero, suc, ◌+◌, ◌%◌, ◌^◌, ◌≡◌, List, [], ◌∷◌, ◌++◌, none, some, Bool, not, ◌&&◌, bit_and,
  String, ltb, leb, ◌==◌, if◌then◌else◌, Result, ok, err, ◌>>=◌, Exception, invalid_argument, set,
  get_or, take, drop, replicate,
}
use ee542_lab2_fast_reliable.Protocol.Types.{
  Pointer, PacketHeader, PacketView, Packet, packet_type_code, packet_type_of_code, header_size,
  magic_number, protocol_version, flag_crc32c,
}
use ee542_lab2_fast_reliable.Protocol.Bytes.{write_u16, write_u32, read_u16, read_u32}

-- `static_cast<std::uint8_t>(type)` lies between START and ERROR.
unfoldable pub valid_packet_type : ℕ → Bool
valid_packet_type value = leb 1 value && leb value 7

-- The writes into the zeroed array, in the source's order.
unfoldable pub write_header : PacketHeader → ℕ → List ℕ → List ℕ
unfolding write_u16 write_u32
write_header h payload_size out =
    let magic = write_u32 out 0 h.magic in
    let version = set magic 4 h.version in
    let type = set version 5 (packet_type_code h.type) in
    let flags = write_u16 type 6 h.flags in
    let session = write_u32 flags 8 h.session_id in
    let number = write_u32 session 12 h.number in
    let payload_length = write_u16 number 16 (payload_size % 2 ^ 16) in
    let header_length = write_u16 payload_length 18 header_size in
    write_u32 header_length 20 h.crc32c

unfoldable pub serialize_packet_header : PacketHeader → ℕ → Result Exception (List ℕ)
unfolding write_header
serialize_packet_header h payload_size =
    if ltb 65535 payload_size
    then err (invalid_argument "packet payload is too large")
    else ok (write_header h payload_size (replicate header_size 0))

-- `std::copy(source.begin(), source.end(), out.begin() + offset)`
unfoldable pub copy_to : ℕ → List ℕ → List ℕ → List ℕ
copy_to zero [] out = out
copy_to zero (b ∷ source) [] = []
copy_to zero (b ∷ source) (_ ∷ out) = b ∷ copy_to zero source out
copy_to (suc offset) source [] = []
copy_to (suc offset) source (o ∷ out) = o ∷ copy_to offset source out

-- The copy of the payload; a null pointer is copied from only when the size is 0, that is, never.
unfoldable pub copy_payload : Pointer → ℕ → List ℕ → List ℕ
unfolding copy_to
copy_payload none payload_size out = out
copy_payload (some payload) payload_size out =
    if payload_size == 0 then out else copy_to header_size (take payload_size payload) out

unfoldable pub is_null : Pointer → Bool
is_null none = Bool.true
is_null (some bytes) = Bool.false

unfoldable pub serialize_packet : PacketHeader → Pointer → ℕ → Result Exception (List ℕ)
unfolding serialize_packet_header copy_to copy_payload is_null
serialize_packet h payload payload_size =
    if not (payload_size == 0) && is_null payload
    then err (invalid_argument "packet payload is null")
    else do
      header ← serialize_packet_header h payload_size
      ok (
          copy_payload payload payload_size
            (copy_to 0 header (replicate (header_size + payload_size) 0)))

-- The fields in the source's order. The type byte has been tested before: see
-- `deserialize_packet_view`.
unfoldable pub read_header : List ℕ → PacketHeader
read_header bytes = record {
  magic = read_u32 bytes;
  version = get_or bytes 4 0;
  type = packet_type_of_code (get_or bytes 5 0);
  flags = read_u16 (drop 6 bytes);
  session_id = read_u32 (drop 8 bytes);
  number = read_u32 (drop 12 bytes);
  payload_length = read_u16 (drop 16 bytes);
  header_length = read_u16 (drop 18 bytes);
  crc32c = read_u32 (drop 20 bytes);
}

-- The checks on the fields that were read.
unfoldable pub check_header : PacketHeader → List ℕ → ℕ → Result String PacketView
check_header h bytes size =
    if not (h.magic == magic_number)
    then err "invalid FRFT magic"
    else if not (h.version == protocol_version)
    then err "unsupported FRFT version"
    else if not (h.header_length == header_size)
    then err "invalid FRFT header length"
    else if not (size == h.header_length + h.payload_length)
    then err "datagram length does not match header"
    else if not (bit_and h.flags flag_crc32c == 0)
    then err "CRC32C is not supported in Stage 1"
    else ok
        (record { header = h; payload = drop header_size bytes; payload_size = h.payload_length })

unfoldable pub deserialize_packet_view : Pointer → ℕ → Result String PacketView
unfolding check_header
deserialize_packet_view none size = err "datagram is shorter than the FRFT header"
deserialize_packet_view (some bytes) size =
    if ltb size header_size
    then err "datagram is shorter than the FRFT header"
    else if not (valid_packet_type (get_or bytes 5 0))
    then err "unknown packet type"
    else check_header (read_header bytes) bytes size

unfoldable pub deserialize_packet : Pointer → ℕ → Result String Packet
deserialize_packet bytes size = do
  view ← deserialize_packet_view bytes size
  ok (record { header = view.header; payload = take view.payload_size view.payload })
