-- ===== src/Server/Safety.antt =====
-- The file that the server has when it reports the transfer complete.
use ee542_lab2_fast_reliable.Common.{
  ℕ, ◌<◌, ◌≡◌, refl, sym, ◌∙◌, List, [], ◌∷◌, true, ==→eq, Bool-cases, inl, inr, arith, length,
  length-replicate, All, ok, err, Result, Exception,
}
use ee542_lab2_fast_reliable.Protocol.Types.{data_chunk, CompleteAckPayload}
use ee542_lab2_fast_reliable.Protocol.Sizes.{chunk_count_iff}
use ee542_lab2_fast_reliable.Chunks.{chunk_of_byte}
use ee542_lab2_fast_reliable.Reliability.Receiver.{new_receiver, has_received, complete}
use ee542_lab2_fast_reliable.Reliability.Receiver.Tracking.{new_receiver-IsTracking, complete_iff}
use ee542_lab2_fast_reliable.Server.{
  Transfer, Session, Received, Outcome, waiting, finished, is_of_session, expected_size,
  record_data, expect_ack, completion, handle_packet, go_on, with_sent, serve, new_session,
}
use ee542_lab2_fast_reliable.Net.{Datagram}
use ee542_lab2_fast_reliable.Server.Cases.{
  IsData, counted, cleared, numbered, thrown, ignored, greeted, held, answered, urged, closed,
  handle_packet-Handled,
}
use ee542_lab2_fast_reliable.Server.Stored.{
  IsTransferOf, IsFaithful, IsServing, store_chunk-IsServing,
}
use ee542_lab2_fast_reliable.Server.Storing.{same_bytes}

-- A session in which every chunk has been received, with the answer to the client.
pub record IsFinished (t : Transfer) (source : List ℕ) (s : Session) (c : CompleteAckPayload)
    : Type 0 where
  pub serving : IsServing t source s
  pub all_received : complete s.tracker ≡ true
  pub bytes : c.received_bytes ≡ length source
  pub chunks : c.received_chunks ≡ t.start.total_chunks

-- What holds of the loop's next state; after an exception there is none.
abbrev pub Keeps : Transfer → List ℕ → Result Exception Outcome → Type 0
Keeps t source (ok (waiting s sent)) = IsServing t source s
Keeps t source (ok (finished s c sent)) = IsFinished t source s c
Keeps t source (err e) = Unit

module _ (t : Transfer) (source : List ℕ) (transfer : IsTransferOf t source) where
  -- Only the tracker and the file matter.
  pub IsServing-same_data :
      (s s' : Session)
      → s'.tracker ≡ s.tracker
      → s'.output ≡ s.output
      → IsServing t source s
      → IsServing t source s'
  IsServing-same_data s s' e f v = record {
    tracking = simp e v.tracking;
    chunks = simp e v.chunks;
    size = simp f v.size;
    stored = simp (e, f) v.stored;
  }

  record_data-IsServing :
      (event : Received) (s : Session)
      → IsServing t source s
      → IsFaithful t source event
      → is_of_session t event ≡ true
      → event.packet.header.type ≡ data_chunk
      → event.packet.header.number < t.start.total_chunks
      → event.packet.payload_size ≡ expected_size t event.packet.header.number
      → IsServing t source (record_data t event.packet event.arrival s)
  unfolding record_data
  record_data-IsServing event s v (whole, bytes) ours type number size =
      elim (Bool-cases (has_received s.tracker event.packet.header.number)) [
        | inl e ↦ rw e (IsServing-same_data s _ refl refl v)
        | inr e ↦ rw e (
            store_chunk-IsServing t source transfer event.packet s event.arrival v number
              (omega (arith, whole)) (λ i l. bytes ours type number size i (omega arith)))
      ]

  pub counted-IsServing :
      (event : Received) (s : Session)
      → IsServing t source s
      → IsFaithful t source event
      → IsData t event
      → IsServing t source (counted t event s)
  unfolding counted
  counted-IsServing event s v faithful (ours, type, number, size) =
      let stored = record_data t event.packet event.arrival s in
      IsServing-same_data stored (expect_ack t event.now stored) (unfold expect_ack in refl)
        (unfold expect_ack in refl) (record_data-IsServing event s v faithful ours type number size)

  pub closed-IsFinished :
      (s : Session)
      → IsServing t source s
      → complete s.tracker ≡ true
      → IsFinished t source s (completion t s)
  unfolding completion
  closed-IsFinished s v all = record {
    serving = v;
    all_received = all;
    bytes = sym (transfer.0);
    chunks = received ∙ v.chunks;
  }
    where
      received : s.tracker.received_count ≡ length s.tracker.received
      received = unfold complete in ==→eq _ _ all

  pub handle_packet-Keeps :
      (event : Received) (s : Session)
      → IsServing t source s
      → IsFaithful t source event
      → Keeps t source (handle_packet t event s)
  handle_packet-Keeps event s v faithful = elim (handle_packet-Handled t event s) [
    | thrown e p ↦ rw p tt
    | ignored p ↦ rw p v
    | greeted to session_id response d sent ours p ↦ rw p v
    | held valid quiet p ↦ rw p (counted-IsServing event s v faithful valid)
    | answered valid d sent p ↦ rw p (
        IsServing-same_data (counted t event s) (cleared (counted t event s)) refl refl
          (counted-IsServing event s v faithful valid))
    | urged ours d sent p ↦ rw p (IsServing-same_data s (numbered s) refl refl v)
    | closed ours all d sent p ↦ rw p (closed-IsFinished s v all)
  ]

  with_sent-Keeps :
      (sent : List Datagram) (r : Result Exception Outcome)
      → Keeps t source r
      → Keeps t source (with_sent sent r)
  unfolding with_sent
  with_sent-Keeps sent (ok (waiting s later)) h = h
  with_sent-Keeps sent (ok (finished s c later)) h = h
  with_sent-Keeps sent (err e) h = h

  go_on-Keeps :
      (r : Result Exception Outcome) (later : Session → Result Exception Outcome)
      → Keeps t source r
      → ((s : Session) → IsServing t source s → Keeps t source (later s))
      → Keeps t source (go_on r later)
  unfolding go_on
  go_on-Keeps (ok (waiting s sent)) later h next = with_sent-Keeps sent (later s) (next s h)
  go_on-Keeps (ok (finished s c sent)) later h next = h
  go_on-Keeps (err e) later h next = tt

  serve-Keeps :
      (events : List Received) (s : Session)
      → IsServing t source s
      → All (IsFaithful t source) events
      → Keeps t source (serve t events s)
  unfolding serve
  serve-Keeps [] s v faithful = v
  serve-Keeps (event ∷ events) s v (first, rest) =
      go_on-Keeps (handle_packet t event s) (λ s'. serve t events s')
        (handle_packet-Keeps event s v first) (λ s' v'. serve-Keeps events s' v' rest)

  pub new_session-IsServing : (now : ℕ) → IsServing t source (new_session t now)
  unfolding new_session
  new_session-IsServing now =
      let (same_size, file, counted) = transfer in
      let (_, small, _, _) =
        (chunk_count_iff t.start.file_size t.start.chunk_size t.start.total_chunks).0 counted in
      let tracking = new_receiver-IsTracking t.start.total_chunks small in
      record {
        tracking = tracking;
        chunks = unfold new_receiver in length-replicate {A = ℕ} t.start.total_chunks 0;
        size = length-replicate {A = ℕ} t.start.file_size 0;
        stored = λ j k h place.
            absurd (let below = tracking.bounded j h in unfold new_receiver in omega arith);
      }

  pub IsFinished-same_file :
      (s : Session) (c : CompleteAckPayload) → IsFinished t source s c → s.output ≡ source
  IsFinished-same_file s c f =
      let (same_size, file, counted) = transfer in
      same_bytes s.output source (f.serving.size ∙ sym same_size) (λ k l.
        let (j, within, from, below) =
          chunk_of_byte t.start.file_size t.start.chunk_size file counted k (omega arith) in
        let every = (complete_iff s.tracker f.serving.tracking).0.0 f.all_received in
        f.serving.stored j k (every j (omega (arith, f.serving.chunks)))
          (from, unfold expected_size in below))

  -- For a transfer whose chunk count is that of the source file, below 2^64 bytes, and any
  -- datagrams whose payloads are in the buffer and of which the DATA packets of this session with a
  -- chunk's number and size carry that chunk of the source: if the server finishes the transfer,
  -- then its file is the source, byte for byte, and its COMPLETE_ACK reports the size of the source
  -- and the number of its chunks.
  pub serve_lem :
      (now : ℕ) (events : List Received) (s : Session) (c : CompleteAckPayload)
      (sent : List Datagram)
      → All (IsFaithful t source) events
      → serve t events (new_session t now) ≡ ok (finished s c sent)
      → (s.output ≡ source)
        × (c.received_bytes ≡ length source)
        × (c.received_chunks ≡ t.start.total_chunks)
  serve_lem now events s c sent faithful e =
      let done : IsFinished t source s c =
        rw e at (serve-Keeps events (new_session t now) (new_session-IsServing now) faithful) in
      (IsFinished-same_file s c done, done.bytes, done.chunks)
