-- ===== src/Client/Sending/Chunk.antt =====
-- The DATA datagrams of `run_client` in src/client.cpp.
use ee542_lab2_fast_reliable.Common.{
  ℕ, ◌≤◌, ◌<◌, ◌≡◌, refl, false, Bool-cases, inl, inr, arith, length, take, length-drop,
  length-take, ok, IsU32, IsU64, ◌==◌,
}
use ee542_lab2_fast_reliable.Net.{Datagram, make_header, send_packet}
use ee542_lab2_fast_reliable.Net.Wire.{flagged-IsSendable, make_header-IsSendable, send_packet-ok}
use ee542_lab2_fast_reliable.Protocol.Types.{data_chunk, flag_retransmitted}
use ee542_lab2_fast_reliable.Protocol.Header.RoundTrip.{IsSendable}
use ee542_lab2_fast_reliable.Protocol.Sizes.{chunk_count}
use ee542_lab2_fast_reliable.Chunks.{chunk_offset, chunk_within}
use ee542_lab2_fast_reliable.Reliability.State.{SendDecision}
use ee542_lab2_fast_reliable.Client.Sending.{
  Connection, payload_of, pointer_of, payload_size_of, data_header, send_chunk,
}
use ee542_lab2_fast_reliable.Client.Sending.Gather.{send_data_packet-send_packet}

-- The sizes are those that `propose` has computed for the file.
pub record IsConnection (c : Connection) : Type 0 where
  pub file : IsU64 (length c.input)
  pub counted : chunk_count (length c.input) c.chunk_size ≡ ok c.total_chunks
  pub datagrams : c.chunk_size ≤ 65535
  pub session_fits : IsU32 c.session_id

module _ (c : Connection) (v : IsConnection c) where
  pub data_header-IsSendable :
      (decision : SendDecision) → IsU32 decision.sequence → IsSendable (data_header c decision)
  unfolding data_header
  data_header-IsSendable decision h = elim (Bool-cases decision.retransmission) [
    | inl e ↦ rw e (
        flagged-IsSendable data_chunk c.session_id decision.sequence flag_retransmitted
          v.session_fits h (omega arith) refl)
    | inr e ↦
        rw e (make_header-IsSendable data_chunk c.session_id decision.sequence v.session_fits h)
  ]

  pub data_header-fields :
      (decision : SendDecision)
      → ((data_header c decision).type ≡ data_chunk)
        × ((data_header c decision).number ≡ decision.sequence)
  unfolding data_header make_header
  data_header-fields decision = elim (Bool-cases decision.retransmission) [
    | inl e ↦ rw e (refl, refl)
    | inr e ↦ rw e (refl, refl)
  ]

  pub payload_fits :
      (sequence : ℕ)
      → sequence < c.total_chunks
      → (0 < payload_size_of c sequence)
        × (payload_size_of c sequence ≤ 65535)
        × (payload_size_of c sequence ≤ length (payload_of c sequence))
        × (0 < length c.input)
  unfolding payload_of payload_size_of
  payload_fits sequence h =
      let (some_bytes, small, within) =
        chunk_within (length c.input) c.chunk_size v.file v.counted sequence h in
      let size = length-drop (chunk_offset c.chunk_size sequence) c.input (omega arith) in
      (some_bytes, omega (arith, v.datagrams), omega arith, omega arith)

  pub send_chunk-send_packet :
      (decision : SendDecision)
      → decision.sequence < c.total_chunks
      → send_chunk c decision
        ≡ send_packet c.server
            (data_header c decision)
            (take (payload_size_of c decision.sequence) (payload_of c decision.sequence))
  unfolding send_chunk pointer_of
  send_chunk-send_packet decision h =
      let (_, _, long, file) = payload_fits decision.sequence h in
      let full : (length c.input == 0) ≡ false = ground arith in
      rw full (send_data_packet-send_packet c.server _ _ _ long)

  pub send_chunk-ok :
      (decision : SendDecision)
      → decision.sequence < c.total_chunks
      → IsU32 c.total_chunks
      → (d : Datagram) × (send_chunk c decision ≡ ok d)
  send_chunk-ok decision h total =
      let (_, small, long, _) = payload_fits decision.sequence h in
      let payload = take (payload_size_of c decision.sequence) (payload_of c decision.sequence) in
      let size : length payload ≡ payload_size_of c decision.sequence = length-take _ _ long in
      rw (send_chunk-send_packet decision h) (
        send_packet-ok c.server (data_header c decision) payload
          (data_header-IsSendable decision (omega arith)) (omega (arith, size)))
