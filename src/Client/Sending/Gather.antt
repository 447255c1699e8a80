-- ===== src/Client/Sending/Gather.antt =====
-- `send_data_packet` of src/client.cpp.
use ee542_lab2_fast_reliable.Common.{
  ℕ, ◌≤◌, ◌≡◌, refl, sym, ap, List, ◌++◌, some, false, not, ◌&&◌, ◌==◌, arith, ok, err, ◌>>=◌,
  length, take, length-take, take_all, Result, Exception,
}
use ee542_lab2_fast_reliable.Net.{Endpoint, Datagram, send_packet}
use ee542_lab2_fast_reliable.Protocol.Types.{PacketHeader}
use ee542_lab2_fast_reliable.Protocol.Header.{serialize_packet_header, is_null}
use ee542_lab2_fast_reliable.Protocol.Header.RoundTrip.{serialize_packet-gather}
use ee542_lab2_fast_reliable.Client.Sending.{send_data_packet}

take-take : (n : ℕ) (p : List ℕ) → n ≤ length p → take n (take n p) ≡ take n p
take-take n p h = rw (length-take n p h) at (take_all (take n p))

abbrev to_server : Endpoint → List ℕ → Result Exception Datagram
to_server server bytes = ok (record { destination = server; bytes = bytes })

append-then_send :
    (server : Endpoint) (header : Result Exception (List ℕ)) (p q : List ℕ)
    → p ≡ q
    → (header >>= (λ h. to_server server (h ++ p)))
      ≡ ((header >>= (λ h. ok (h ++ q))) >>= to_server server)
append-then_send server (ok h) p q e = ap (λ r. to_server server (h ++ r)) e
append-then_send server (err x) p q e = refl

-- For a payload size within the buffer: the datagram that `sendmsg` gathers from the header and the
-- payload, or the error, is that of `send_packet` for the payload's first bytes.
pub send_data_packet-send_packet :
    (server : Endpoint) (h : PacketHeader) (payload : List ℕ) (n : ℕ)
    → n ≤ length payload
    → send_data_packet server h (some payload) n ≡ send_packet server h (take n payload)
unfolding send_data_packet send_packet
send_data_packet-send_packet server h payload n fits =
    let valid : (not (n == 0) && is_null (some payload)) ≡ false = unfold is_null in ground arith in
    let size : length (take n payload) ≡ n = length-take n payload fits in
    rw (valid, size, serialize_packet-gather h n (take n payload) (omega arith))
      (append-then_send server (serialize_packet_header h n) _ _ (sym (take-take n payload fits)))
