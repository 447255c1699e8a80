-- ===== src/System/Hearing.antt =====
-- What the client of src/client.cpp learns from the datagrams that it gets.
use ee542_lab2_fast_reliable.Common.{
  String, ℕ, ◌≡◌, refl, sym, ap, ◌∙◌, List, [], ◌∷◌, Option, none, some, true, ◌&&◌, ◌==◌,
  Bool-cases, inl, inr, arith, length, All, Result, ok, err, Returns,
}
use mathlib.Core.List.{Memᴰ}
use mathlib.Core.List.Memᴰ
use ee542_lab2_fast_reliable.Net.{Endpoint, same_endpoint}
use ee542_lab2_fast_reliable.Protocol.Types.{PacketType, ack, PacketView, AckPayload}
use ee542_lab2_fast_reliable.Protocol.Header.{deserialize_packet_view}
use ee542_lab2_fast_reliable.Reliability.State.{SenderWindow}
use ee542_lab2_fast_reliable.Reliability.Receiver.{ReceiverTracker, has_received}
use ee542_lab2_fast_reliable.Reliability.Sender.{process_ack, mark_sent}
use ee542_lab2_fast_reliable.Reliability.Sender.Window.{acked_at}
use ee542_lab2_fast_reliable.Reliability.Sender.Sack.{ack_covers}
use ee542_lab2_fast_reliable.Reliability.Sender.Process.{acked_at-process_ack}
use ee542_lab2_fast_reliable.Reliability.Sender.Sent.{mark_sent_cases}
use ee542_lab2_fast_reliable.Reliability.Sender.Marks.{
  acked_at-select_next_packet, acked_at-check_timeouts,
}
use ee542_lab2_fast_reliable.Reliability.Sender.History.{
  IsLive, step, selects, sends, receives, checks, step-IsLive,
}
use ee542_lab2_fast_reliable.Client.Receiving.{
  same_type, expected_packet, applied_ack, apply_ack, apply_ack_packet, apply_expected,
}
use ee542_lab2_fast_reliable.Client.Sending.{Connection, rto}
use ee542_lab2_fast_reliable.Client.Sending.Keeps.{IsKept}
use ee542_lab2_fast_reliable.System.{Arrives}
use ee542_lab2_fast_reliable.System.Downstream.{IsHonest}

pub All-Memᴰ {κ} :
    (P : List ℕ → Type κ) (bytes : List ℕ) (xs : List (List ℕ)) → All P xs → Memᴰ bytes xs → P bytes
All-Memᴰ P bytes [] h m = absurd (Memᴰ.not-nil m)
All-Memᴰ P bytes (x ∷ xs) h m = elim (Memᴰ.cases_cons m) [
  | inl e ↦ rw e (h.0)
  | inr m' ↦ All-Memᴰ P bytes xs h.1 m'
]

same_type-ack : (type : PacketType) → same_type type ack ≡ true → type ≡ ack
unfolding same_type
same_type-ack ack e = refl
same_type-ack PacketType.start e = absurd (cc)
same_type-ack PacketType.start_ack e = absurd (cc)
same_type-ack PacketType.data_chunk e = absurd (cc)
same_type-ack PacketType.complete e = absurd (cc)
same_type-ack PacketType.complete_ack e = absurd (cc)
same_type-ack PacketType.error e = absurd (cc)

-- A packet that the client takes is from the server, and is an ACK.
expected_packet-ack :
    (server : Endpoint) (session_id : ℕ) (source : Endpoint) (bytes : List ℕ) (packet : PacketView)
    → expected_packet server ack session_id source bytes ≡ some packet
    → (deserialize_packet_view (some bytes) (length bytes) ≡ ok packet)
      × (same_endpoint source server ≡ true)
      × (packet.header.type ≡ ack)
unfolding expected_packet
expected_packet-ack server session_id source bytes packet e =
    go (deserialize_packet_view (some bytes) (length bytes)) refl
  where
    go :
        (r : Result String PacketView)
        → deserialize_packet_view (some bytes) (length bytes) ≡ r
        → (deserialize_packet_view (some bytes) (length bytes) ≡ ok packet)
          × (same_endpoint source server ≡ true)
          × (packet.header.type ≡ ack)
    go (err x) r = absurd (cc (rw (r, expected_packet) at e))
    go (ok p) r =
        elim (Bool-cases (
          same_endpoint source server
          && (p.header.session_id == session_id)
          && same_type p.header.type ack)) [
            | inl t ↦
                let same : p ≡ packet = cc (rw (r, expected_packet, t) at e) in
                (
                  r ∙ ap ok same,
                  ground arith,
                  ap (λ x. x.header.type) (sym same) ∙ same_type-ack p.header.type (ground arith),
                )
            | inr t ↦ absurd (cc (rw (r, expected_packet, t) at e))
          ]

-- The client holds acknowledged only what the server has.
abbrev pub IsInformed : ReceiverTracker → SenderWindow → Type 0
IsInformed tracker w = (j : ℕ) → acked_at w j ≡ true → has_received tracker j ≡ true

abbrev pub IsSound : Connection → ℕ → ReceiverTracker → SenderWindow → Type 0
IsSound c begin tracker w =
    IsLive c.total_chunks c.accepted_window_chunks c.accepted_bitmap_bits begin w
    × IsInformed tracker w

module _ (c : Connection) (begin : ℕ) (tracker : ReceiverTracker) (network : List (List ℕ))
    (honest : All (IsHonest tracker) network) where
  process_ack-IsSound :
      (w : SenderWindow) (payload : AckPayload) (now : ℕ)
      → ((j : ℕ) → ack_covers payload j ≡ true → has_received tracker j ≡ true)
      → IsSound c begin tracker w
      → IsSound c begin tracker (process_ack w payload now)
  process_ack-IsSound w payload now h (live, informed) = (
    unfold step in step-IsLive _ _ _ begin w (receives payload now) live,
    λ j p. ground (arith, acked_at-process_ack w payload now live.valid j, h j, informed j, p),
  )

  apply_expected-IsSound :
      (w : SenderWindow) (source : Endpoint) (bytes : List ℕ) (now : ℕ)
      → Arrives c.server network source bytes
      → IsSound c begin tracker w
      → IsSound c begin tracker
          (apply_expected (expected_packet c.server ack c.session_id source bytes) now w)
  unfolding apply_expected apply_ack_packet
  apply_expected-IsSound w source bytes now a s =
      go (expected_packet c.server ack c.session_id source bytes) refl
    where
      apply :
          (packet : PacketView)
          → expected_packet c.server ack c.session_id source bytes ≡ some packet
          → (applied : Option AckPayload) → applied_ack packet ≡ applied
          → IsSound c begin tracker (apply_ack applied now w)
      apply packet e none r = unfold apply_ack in s
      apply packet e (some payload) r =
          let (decodes, from, type) =
            expected_packet-ack c.server c.session_id source bytes packet e in
          let true_of = All-Memᴰ (IsHonest tracker) bytes network honest (a.was_sent from) in
          unfold apply_ack in
          process_ack-IsSound w payload now (true_of packet payload decodes type r) s

      go :
          (packet : Option PacketView)
          → expected_packet c.server ack c.session_id source bytes ≡ packet
          → IsSound c begin tracker (apply_expected packet now w)
      go none e = s
      go (some packet) e = apply packet e (applied_ack packet) refl

  mark_sent-IsSound :
      (w : SenderWindow) (sequence time : ℕ)
      → IsSound c begin tracker w
      → Returns (IsSound c begin tracker) (mark_sent w sequence time)
  unfolding step
  mark_sent-IsSound w sequence time (live, informed) =
      elim (mark_sent_cases w sequence time live.valid) [
        | inl (w', e, _, _, (_, _, _, _, _, marks, _)) ↦
            let next = step-IsLive _ _ _ begin w (sends sequence time) live in
            rw e (rw e at next, λ j p. informed j (sym (marks j) ∙ p))
        | inr (e, why) ↦ rw e tt
      ]

  pub pass-IsKept : IsKept c (IsSound c begin tracker) (Arrives c.server network)
  pass-IsKept = record {
    hears = apply_expected-IsSound;
    checks = λ w now (live, informed). (
      unfold step in step-IsLive _ _ _ begin w (checks now rto) live,
      λ j p. informed j (sym (acked_at-check_timeouts w live.valid now rto j) ∙ p),
    );
    selects = λ w (live, informed). (
      unfold step in step-IsLive _ _ _ begin w selects live,
      λ j p. informed j (sym (acked_at-select_next_packet w live.valid j) ∙ p),
    );
    sends = mark_sent-IsSound;
  }
