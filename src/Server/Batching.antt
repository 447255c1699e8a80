-- ===== src/Server/Batching.antt =====
-- The ACKs that `run_server` in src/server.cpp holds back.
use ee542_lab2_fast_reliable.Common.{
  ℕ, ◌+◌, ◌<◌, ◌≡◌, ◌↔◌, refl, List, Bool, true, false, Bool-cases, inl, inr, arith, ok, err,
  inc32_fits, Result, Exception,
}
use ee542_lab2_fast_reliable.Protocol.Types.{PacketView}
use ee542_lab2_fast_reliable.Reliability.Receiver.{has_received}
use ee542_lab2_fast_reliable.Server.Cases.{
  counted, thrown, ignored, greeted, held, answered, urged, closed, handle_packet-Handled,
}
use ee542_lab2_fast_reliable.Server.{
  Transfer, Session, Received, Outcome, waiting, finished, store_chunk, record_data, expect_ack,
  should_send_ack, handle_packet, ack_packet_threshold,
}
use ee542_lab2_fast_reliable.Net.{Datagram}

-- Fewer packets wait than the threshold, and the flag says whether any do.
abbrev pub IsBatched : Session → Type 0
IsBatched s =
    (s.packets_since_ack < ack_packet_threshold)
    × ((s.ack_pending ≡ true) ↔ (0 < s.packets_since_ack))

record_data-packets :
    (t : Transfer) (packet : PacketView) (arrival : ℕ) (s : Session)
    → (record_data t packet arrival s).packets_since_ack ≡ s.packets_since_ack
unfolding record_data store_chunk
record_data-packets t packet arrival s =
    elim (Bool-cases (has_received s.tracker packet.header.number)) [
      | inl e ↦ rw e refl
      | inr e ↦ rw e refl
    ]

-- The packet that has just been counted.
packets-counted :
    (t : Transfer) (event : Received) (s : Session)
    → IsBatched s
    → (counted t event s).packets_since_ack ≡ s.packets_since_ack + 1
unfolding counted expect_ack
packets-counted t event s b =
    rw (record_data-packets t event.packet event.arrival s)
      (inc32_fits s.packets_since_ack (omega (arith, b.0)))

-- It is answered at once, or the threshold is not reached.
held-IsBatched :
    (t : Transfer) (event : Received) (s : Session) (duplicate : Bool)
    → IsBatched s
    → should_send_ack event.packet duplicate event.now (counted t event s) ≡ false
    → IsBatched (counted t event s)
held-IsBatched t event s duplicate b quiet = (
  unfold should_send_ack in ground arith,
  (λ p. omega (arith, packets-counted t event s b), λ p. unfold counted expect_ack in refl),
)

abbrev Batches : Result Exception Outcome → Type 0
Batches (ok (waiting s sent)) = IsBatched s
Batches (ok (finished s c sent)) = Unit
Batches (err e) = Unit

handle_packet-Batches :
    (t : Transfer) (event : Received) (s : Session)
    → IsBatched s
    → Batches (handle_packet t event s)
handle_packet-Batches t event s b = elim (handle_packet-Handled t event s) [
  | thrown e p ↦ rw p tt
  | ignored p ↦ rw p b
  | greeted to session_id response d sent ours p ↦ rw p b
  | held valid quiet p ↦ rw p (held-IsBatched t event s _ b quiet)
  | answered valid d sent p ↦ rw p (omega arith, (λ f. cc, λ f. absurd (omega arith)))
  | urged ours d sent p ↦ rw p b
  | closed ours all d sent p ↦ rw p tt
]

-- If fewer than 32 DATA packets wait for an ACK, and the pending flag is set exactly if any do,
-- then the same holds after any datagram with which the server's loop goes on.
pub handle_packet-IsBatched :
    (t : Transfer) (event : Received) (s s' : Session) (sent : List Datagram)
    → IsBatched s
    → handle_packet t event s ≡ ok (waiting s' sent)
    → IsBatched s'
handle_packet-IsBatched t event s s' sent b e = rw e at (handle_packet-Batches t event s b)
