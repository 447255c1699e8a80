-- ===== src/Protocol/Header/RoundTrip.antt =====
-- Serializing and reading datagrams, src/protocol.cpp.
use ee542_lab2_fast_reliable.Common.{
  ℕ, zero, suc, ◌+◌, ◌%◌, ◌^◌, ◌≤◌, ◌≡◌, refl, sym, ap, ◌∙◌, List, [], ◌∷◌, ◌++◌, some, true, false,
  bit_and, ltb, ◌==◌, ok, get_or, take, drop, replicate, length, length-drop, All-drop, take-add,
  replicate-add, take_all, take_front, All, IsByte, Bool-cases, ltb→ge, inl, inr, ◌>>=◌, IsU16,
  IsU32, arith,
}
use ee542_lab2_fast_reliable.Protocol.Types.{
  PacketHeader, PacketView, packet_type_code, packet_type_of_code, header_size, magic_number,
  protocol_version, flag_crc32c, PacketType, start, start_ack, data_chunk, ack, complete,
  complete_ack, error,
}
use ee542_lab2_fast_reliable.Protocol.Bytes.{
  be16, be32, read_u16, read_u32, read_u16-be16, read_u32-be32, read_u16-bytes, read_u16-IsU16,
  read_u32-IsU32, be16-read_u16, be32-read_u32,
}
use ee542_lab2_fast_reliable.Protocol.Header.{
  valid_packet_type, write_header, copy_to, is_null, serialize_packet_header, serialize_packet,
  read_header, check_header, deserialize_packet_view, deserialize_packet,
}

-- The header's 24 bytes.
abbrev header_bytes : PacketHeader → ℕ → List ℕ → List ℕ
header_bytes h n rest = be32 h.magic (
    h.version
    ∷ packet_type_code h.type
    ∷ be16 h.flags
        (be32 h.session_id (be32 h.number (be16 (n % 2 ^ 16) (0 ∷ 24 ∷ be32 h.crc32c rest)))))

write_header_lem :
    (h : PacketHeader) (n : ℕ) → write_header h n (replicate 24 0) ≡ header_bytes h n []
unfolding write_header
write_header_lem h n = refl

copy_to-replicate :
    (n : ℕ) (p : List ℕ) → n ≤ length p → copy_to 0 (take n p) (replicate n 0) ≡ take n p
unfolding copy_to
copy_to-replicate zero p h = refl
copy_to-replicate (suc n) [] h = absurd (omega arith)
copy_to-replicate (suc n) (b ∷ p) h = ap (λ t. b ∷ t) (copy_to-replicate n p (omega arith))

pub copy_to_all : (p : List ℕ) → copy_to 0 p (replicate (length p) 0) ≡ p
copy_to_all p =
    ap (λ t. copy_to 0 t (replicate (length p) 0)) (sym (take_all p))
    ∙ copy_to-replicate (length p) p (omega arith)
    ∙ take_all p

-- A serialized packet is its header followed by its payload.
pub serialize_packet-bytes :
    (h : PacketHeader) (n : ℕ) (p : List ℕ)
    → n ≤ 65535
    → n ≤ length p
    → serialize_packet h (some p) n ≡ ok (header_bytes h n (take n p))
unfolding serialize_packet
serialize_packet-bytes h zero p l fits = refl
serialize_packet-bytes h (suc n) [] l fits = absurd (omega arith)
serialize_packet-bytes h (suc n) (b ∷ p) l fits =
    let small : ltb 65535 (suc n) ≡ false = ground arith in
    let some_bytes : (suc n == 0) ≡ false = ground arith in
    rw (small, some_bytes, replicate-add {A = ℕ} 24 (suc n) 0, copy_to-replicate n p (omega arith))

-- In one buffer or gathered from two, the bytes and the errors are the same.
pub serialize_packet-gather :
    (h : PacketHeader) (n : ℕ) (p : List ℕ)
    → n ≤ length p
    → serialize_packet h (some p) n
      ≡ (serialize_packet_header h n >>= (λ header. ok (header ++ take n p)))
unfolding serialize_packet_header
serialize_packet-gather h n p fits = elim (Bool-cases (ltb 65535 n)) [
  | inl e ↦ rw e (unfold serialize_packet is_null in rw e (ground arith))
  | inr e ↦ rw e (serialize_packet-bytes h n p (ltb→ge _ _ e) fits)
]

abbrev pub IsSendable : PacketHeader → Type 0
IsSendable h =
    (h.magic ≡ magic_number)
    × (h.version ≡ protocol_version)
    × IsU16 h.flags
    × (bit_and h.flags flag_crc32c ≡ 0)
    × IsU32 h.session_id
    × IsU32 h.number
    × IsU32 h.crc32c

abbrev pub as_received : PacketHeader → ℕ → PacketHeader
as_received h n = record h { payload_length = n; header_length = header_size }

packet_type-code : (t : PacketType) → packet_type_of_code (packet_type_code t) ≡ t
packet_type-code start = refl
packet_type-code start_ack = refl
packet_type-code data_chunk = refl
packet_type-code ack = refl
packet_type-code complete = refl
packet_type-code complete_ack = refl
packet_type-code error = refl

packet_type_code-valid : (t : PacketType) → valid_packet_type (packet_type_code t) ≡ true
unfolding valid_packet_type
packet_type_code-valid start = refl
packet_type_code-valid start_ack = refl
packet_type_code-valid data_chunk = refl
packet_type_code-valid ack = refl
packet_type_code-valid complete = refl
packet_type_code-valid complete_ack = refl
packet_type_code-valid error = refl

read_header-header_bytes :
    (h : PacketHeader) (n : ℕ) (rest : List ℕ)
    → IsSendable h
    → n ≤ 65535
    → read_header (header_bytes h n rest) ≡ as_received h n
unfolding read_header read_u16 read_u32
read_header-header_bytes h n rest (magic, version, flags, _, session, number, crc) l =
    let magic' : IsU32 h.magic = omega arith in
    let size : read_u16 (be16 (n % 2 ^ 16) []) ≡ n =
      omega (arith, read_u16-be16 (n % 2 ^ 16) [] (omega arith)) in
    λ i. record {
      magic = read_u32-be32 h.magic [] magic' i;
      version = h.version;
      type = packet_type-code h.type i;
      flags = read_u16-be16 h.flags [] flags i;
      session_id = read_u32-be32 h.session_id [] session i;
      number = read_u32-be32 h.number [] number i;
      payload_length = size i;
      header_length = 24;
      crc32c = read_u32-be32 h.crc32c [] crc i;
    }

check_header-IsSendable :
    (h : PacketHeader) (n size : ℕ) (bytes : List ℕ)
    → IsSendable h
    → size ≡ 24 + n
    → check_header (as_received h n) bytes size
      ≡ ok (record { header = as_received h n; payload = drop 24 bytes; payload_size = n })
unfolding check_header
check_header-IsSendable h n size bytes s e = ground arith

deserialize-header_bytes :
    (h : PacketHeader) (n : ℕ) (rest : List ℕ)
    → IsSendable h
    → n ≤ 65535
    → deserialize_packet_view (some (header_bytes h n rest)) (24 + n)
      ≡ ok (record { header = as_received h n; payload = rest; payload_size = n })
unfolding deserialize_packet_view
deserialize-header_bytes h n rest s l =
    let long : ltb (24 + n) 24 ≡ false = ground arith in
    let bytes = header_bytes h n rest in
    rw (long, packet_type_code-valid h.type)
      (ap (λ r. check_header r bytes (24 + n)) (read_header-header_bytes h n rest s l)
        ∙ check_header-IsSendable h n (24 + n) bytes s refl)

-- For a header of this protocol without the CRC flag whose fields fit their widths, and at most
-- 65535 bytes of payload: serializing succeeds with 24 bytes more than the payload, and both
-- decoders, given these bytes with anything after them in the buffer, return the header with its
-- two length fields set, and the payload.
pub deserialize_packet_view-serialize_packet :
    (h : PacketHeader) (p junk : List ℕ)
    → IsSendable h
    → length p ≤ 65535
    → (out : List ℕ) × (serialize_packet h (some p) (length p) ≡ ok out)
      × (length out ≡ header_size + length p)
      × (deserialize_packet_view (some (out ++ junk)) (length out)
          ≡ ok (record {
            header = as_received h (length p);
            payload = p ++ junk;
            payload_size = length p;
          }))
      × (deserialize_packet (some (out ++ junk)) (length out)
          ≡ ok (record { header = as_received h (length p); payload = p }))
unfolding deserialize_packet
deserialize_packet_view-serialize_packet h p junk s l =
    let n = length p in
    let long : length (header_bytes h n p) ≡ 24 + n = omega arith in
    let read = deserialize-header_bytes h n (p ++ junk) s l in
    (
      header_bytes h n p,
      serialize_packet-bytes h n p l (omega arith) ∙ ap (λ t. ok (header_bytes h n t)) (take_all p),
      long,
      rw long read,
      rw (long, read, take_front p junk),
    )

type_code-valid :
    (c : ℕ) → valid_packet_type c ≡ true → packet_type_code (packet_type_of_code c) ≡ c
unfolding valid_packet_type
type_code-valid zero h = cc
type_code-valid (suc zero) h = refl
type_code-valid (suc (suc zero)) h = refl
type_code-valid (suc (suc (suc zero))) h = refl
type_code-valid (suc (suc (suc (suc zero)))) h = refl
type_code-valid (suc (suc (suc (suc (suc zero))))) h = refl
type_code-valid (suc (suc (suc (suc (suc (suc zero)))))) h = refl
type_code-valid (suc (suc (suc (suc (suc (suc (suc zero))))))) h = refl
type_code-valid (suc (suc (suc (suc (suc (suc (suc (suc n)))))))) h = absurd (ground arith)

-- What the checks leave of an accepted datagram.
record Accepted (bytes : List ℕ) (size : ℕ) (v : PacketView) : Type 0 where
  long : 24 ≤ size
  valid : valid_packet_type (get_or bytes 5 0) ≡ true
  magic_ok : (read_header bytes).magic ≡ magic_number
  version_ok : (read_header bytes).version ≡ protocol_version
  header_ok : (read_header bytes).header_length ≡ 24
  size_ok : size ≡ 24 + (read_header bytes).payload_length
  crc_off : bit_and (read_header bytes).flags flag_crc32c ≡ 0
  view : v ≡ record {
    header = read_header bytes;
    payload = drop 24 bytes;
    payload_size = (read_header bytes).payload_length;
  }

deserialize_packet_view-Accepted :
    (bytes : List ℕ) (size : ℕ) (v : PacketView)
    → deserialize_packet_view (some bytes) size ≡ ok v
    → Accepted bytes size v
unfolding deserialize_packet_view
deserialize_packet_view-Accepted bytes size v e = ground arith

-- The bytes that were read are those that would be written for the header read from them.
header_bytes-read_header :
    (b0 b1 b2 b3 b4 b5 b6 b7 b8 b9 b10 b11 b12 b13 b14 b15 b16 b17 b18 b19 b20 b21 b22 b23 : ℕ)
    (tail rest : List ℕ)
    → All IsByte (
        b0 ∷ b1 ∷ b2 ∷ b3 ∷ b4 ∷ b5 ∷ b6 ∷ b7 ∷ b8 ∷ b9 ∷ b10 ∷ b11 ∷ b12 ∷ b13 ∷ b14 ∷ b15 ∷ b16
        ∷ b17 ∷ b18 ∷ b19 ∷ b20 ∷ b21 ∷ b22 ∷ b23 ∷ [])
    → valid_packet_type b5 ≡ true
    → read_u16 (b18 ∷ b19 ∷ b20 ∷ b21 ∷ b22 ∷ b23 ∷ tail) ≡ 24
    → let bytes =
        b0 ∷ b1 ∷ b2 ∷ b3 ∷ b4 ∷ b5 ∷ b6 ∷ b7 ∷ b8 ∷ b9 ∷ b10 ∷ b11 ∷ b12 ∷ b13 ∷ b14 ∷ b15 ∷ b16
        ∷ b17 ∷ b18 ∷ b19 ∷ b20 ∷ b21 ∷ b22 ∷ b23 ∷ tail in
      header_bytes (read_header bytes) (read_header bytes).payload_length rest
      ≡ b0 ∷ b1 ∷ b2 ∷ b3 ∷ b4 ∷ b5 ∷ b6 ∷ b7 ∷ b8 ∷ b9 ∷ b10 ∷ b11 ∷ b12 ∷ b13 ∷ b14 ∷ b15 ∷ b16
        ∷ b17 ∷ b18 ∷ b19 ∷ b20 ∷ b21 ∷ b22 ∷ b23 ∷ rest
unfolding read_header
header_bytes-read_header b0 b1 b2 b3 b4 b5 b6 b7 b8 b9 b10 b11 b12 b13 b14 b15 b16 b17 b18 b19 b20
      b21 b22 b23 tail rest bs valid len =
    let l16 = read_u16-bytes b18 b19 (b20 ∷ b21 ∷ b22 ∷ b23 ∷ tail) (omega arith) in
    let h0 : b18 ≡ 0 = omega arith in
    let h1 : b19 ≡ 24 = omega arith in
    let t20 : List ℕ = b20 ∷ b21 ∷ b22 ∷ b23 ∷ tail in
    let t12 : List ℕ = b12 ∷ b13 ∷ b14 ∷ b15 ∷ b16 ∷ b17 ∷ b18 ∷ b19 ∷ t20 in
    let r20 : List ℕ = b20 ∷ b21 ∷ b22 ∷ b23 ∷ rest in
    let r16 : List ℕ = b16 ∷ b17 ∷ 0 ∷ 24 ∷ r20 in
    let r12 : List ℕ = b12 ∷ b13 ∷ b14 ∷ b15 ∷ r16 in
    let r6 : List ℕ = b6 ∷ b7 ∷ b8 ∷ b9 ∷ b10 ∷ b11 ∷ r12 in
    let p16 = read_u16-bytes b16 b17 (b18 ∷ b19 ∷ t20) (omega arith) in
    let size : read_u16 (b16 ∷ b17 ∷ b18 ∷ b19 ∷ t20) % 65536
        ≡ read_u16 (b16 ∷ b17 ∷ b18 ∷ b19 ∷ t20) =
      omega arith in
    rw (
      be32-read_u32 b20 b21 b22 b23 tail rest (omega arith),
      size,
      be16-read_u16 b16 b17 (b18 ∷ b19 ∷ t20) (0 ∷ 24 ∷ r20) (omega arith),
      be32-read_u32 b12 b13 b14 b15 (b16 ∷ b17 ∷ b18 ∷ b19 ∷ t20) r16 (omega arith),
      be32-read_u32 b8 b9 b10 b11 t12 r12 (omega arith),
      be16-read_u16 b6 b7 (b8 ∷ b9 ∷ b10 ∷ b11 ∷ t12) (b8 ∷ b9 ∷ b10 ∷ b11 ∷ r12) (omega arith),
      type_code-valid b5 valid,
      be32-read_u32 b0 b1 b2 b3 (b4 ∷ b5 ∷ b6 ∷ b7 ∷ b8 ∷ b9 ∷ b10 ∷ b11 ∷ t12) (b4 ∷ b5 ∷ r6)
          (omega arith),
      h0,
      h1,
    )

-- Of an accepted datagram the header's bytes are those of the header read from it.
header_bytes-Accepted :
    (bytes : List ℕ) (size : ℕ) (v : PacketView) (rest : List ℕ)
    → All IsByte bytes
    → size ≤ length bytes
    → Accepted bytes size v
    → header_bytes (read_header bytes) (read_header bytes).payload_length rest
      ≡ take 24 bytes ++ rest
header_bytes-Accepted
      (b0 ∷ b1 ∷ b2 ∷ b3 ∷ b4 ∷ b5 ∷ b6 ∷ b7 ∷ b8 ∷ b9 ∷ b10 ∷ b11 ∷ b12 ∷ b13 ∷ b14 ∷ b15 ∷ b16
        ∷ b17 ∷ b18 ∷ b19 ∷ b20 ∷ b21 ∷ b22 ∷ b23 ∷ tail)
      size v rest bs fits a =
    header_bytes-read_header b0 b1 b2 b3 b4 b5 b6 b7 b8 b9 b10 b11 b12 b13 b14 b15 b16 b17 b18 b19
      b20 b21 b22 b23 tail rest (omega arith) a.valid (unfold read_header in a.header_ok)
header_bytes-Accepted _ size v rest bs fits a = absurd (omega (arith, a.long))

-- Its fields are words of their widths.
read_header-IsSendable :
    (bytes : List ℕ)
    → All IsByte bytes
    → 24 ≤ length bytes
    → IsU16 (read_header bytes).flags
      × IsU32 (read_header bytes).session_id
      × IsU32 (read_header bytes).number
      × IsU16 (read_header bytes).payload_length
      × IsU32 (read_header bytes).crc32c
unfolding read_header
read_header-IsSendable bytes bs long = (
  read_u16-IsU16 (drop 6 bytes) (All-drop _ 6 bytes bs) (omega (arith, length-drop 6 bytes)),
  read_u32-IsU32 (drop 8 bytes) (All-drop _ 8 bytes bs) (omega (arith, length-drop 8 bytes)),
  read_u32-IsU32 (drop 12 bytes) (All-drop _ 12 bytes bs) (omega (arith, length-drop 12 bytes)),
  read_u16-IsU16 (drop 16 bytes) (All-drop _ 16 bytes bs) (omega (arith, length-drop 16 bytes)),
  read_u32-IsU32 (drop 20 bytes) (All-drop _ 20 bytes bs) (omega (arith, length-drop 20 bytes)),
)

-- If `deserialize_packet_view` accepts the first `size` bytes of a buffer of bytes, then the header
-- is one of this protocol without the CRC flag whose fields fit their widths, and serializing the
-- view gives these bytes again.
pub serialize_packet-deserialize_packet_view :
    (bytes : List ℕ) (size : ℕ) (v : PacketView)
    → All IsByte bytes
    → size ≤ length bytes
    → deserialize_packet_view (some bytes) size ≡ ok v
    → IsSendable v.header
      × (serialize_packet v.header (some v.payload) v.payload_size ≡ ok (take size bytes))
serialize_packet-deserialize_packet_view bytes size v bs fits e =
    let a = deserialize_packet_view-Accepted bytes size v e in
    let n = (read_header bytes).payload_length in
    let (flags, session, number, length_word, crc) =
      read_header-IsSendable bytes bs (omega (arith, a.long)) in
    let long : n ≤ length (drop 24 bytes) =
      omega (arith, a.size_ok, a.long, length-drop 24 bytes (omega (arith, a.long))) in
    rw a.view (
      (a.magic_ok, a.version_ok, flags, a.crc_off, session, number, crc),
      serialize_packet-bytes (read_header bytes) n (drop 24 bytes) (omega arith) long
          ∙ ap ok (
              header_bytes-Accepted bytes size v (take n (drop 24 bytes)) bs fits a
              ∙ rw (a.size_ok, take-add 24 n bytes)),
    )

-- The payload of a view is in the buffer.
pub payload_size-le :
    (bytes : List ℕ) (v : PacketView)
    → deserialize_packet_view (some bytes) (length bytes) ≡ ok v
    → v.payload_size ≤ length v.payload
payload_size-le bytes v e =
    let a = deserialize_packet_view-Accepted bytes (length bytes) v e in
    rw a.view (omega (arith, a.size_ok, a.long, length-drop 24 bytes (omega (arith, a.long))))
