-- ===== src/Server/Stored.antt =====
-- The DATA branch of `run_server` in src/server.cpp: a chunk that is stored in the file.
use ee542_lab2_fast_reliable.Common.{
  ℕ, ◌+◌, ◌-◌, ◌≤◌, ◌<◌, ◌≡◌, ◌≢◌, ◌⊎◌, refl, sym, ap, ◌∙◌, List, true, false, ◌&&◌, ltb, leb, ◌==◌,
  ==→eq, if◌then◌else◌, Bool-cases, inl, inr, arith, length, get_or, take, length-set, length-take,
  ok, IsU64,
}
use ee542_lab2_fast_reliable.Protocol.Types.{data_chunk, PacketView}
use ee542_lab2_fast_reliable.Protocol.Sizes.{chunk_count}
use ee542_lab2_fast_reliable.Chunks.{chunk_offset, chunk_within, chunks_disjoint}
use ee542_lab2_fast_reliable.Reliability.Receiver.{
  ReceiverTracker, has_received, store_received, mark_received,
}
use ee542_lab2_fast_reliable.Reliability.Receiver.Tracking.{
  IsTracking, has_received-lt, has_received-mark_received, mark_received-IsTracking,
  mark_received_cases,
}
use ee542_lab2_fast_reliable.Server.{
  Transfer, Session, Received, is_of_session, expected_size, copy_chunk, store_chunk,
}
use ee542_lab2_fast_reliable.Protocol.Header.{copy_to}
use ee542_lab2_fast_reliable.Server.Storing.{length-copy_to, get_or-copy_to, get_or-take}

abbrev pub offset_of : Transfer → ℕ → ℕ
offset_of t j = chunk_offset t.start.chunk_size j

-- The byte `k` of the file is in the chunk `j`.
abbrev pub InChunk : Transfer → ℕ → ℕ → Type 0
InChunk t j k = (offset_of t j ≤ k) × (k < offset_of t j + expected_size t j)

-- What the checks on an accepted START leave, for the file `source` of the client.
abbrev pub IsTransferOf : Transfer → List ℕ → Type 0
IsTransferOf t source =
    (length source ≡ t.start.file_size)
    × IsU64 t.start.file_size
    × (chunk_count t.start.file_size t.start.chunk_size ≡ ok t.start.total_chunks)

-- A datagram whose payload is in the buffer, and holds the file's bytes if it is a DATA packet of
-- this session with the size of the chunk it names.
abbrev pub IsFaithful : Transfer → List ℕ → Received → Type 0
IsFaithful t source event =
    (event.packet.payload_size ≤ length event.packet.payload)
    × (is_of_session t event ≡ true
        → event.packet.header.type ≡ data_chunk
        → event.packet.header.number < t.start.total_chunks
        → event.packet.payload_size ≡ expected_size t event.packet.header.number
        → (i : ℕ) → i < event.packet.payload_size
        → get_or event.packet.payload i 0
          ≡ get_or source (offset_of t event.packet.header.number + i) 0)

-- The tracker is well formed, and the chunks it has are in the file.
pub record IsServing (t : Transfer) (source : List ℕ) (s : Session) : Type 0 where
  pub tracking : IsTracking s.tracker
  pub chunks : length s.tracker.received ≡ t.start.total_chunks
  pub size : length s.output ≡ t.start.file_size
  pub stored :
      (j k : ℕ)
      → has_received s.tracker j ≡ true
      → InChunk t j k
      → get_or s.output k 0 ≡ get_or source k 0

length-mark_received :
    (t : ReceiverTracker) (s : ℕ) → length (mark_received t s).0.received ≡ length t.received
length-mark_received t s = elim (mark_received_cases t s) [
  | inl (e, _) ↦ rw e refl
  | inr (e, _, _) ↦ rw e (unfold store_received in length-set t.received s 1)
]

module _ (t : Transfer) (source : List ℕ) (transfer : IsTransferOf t source) where
  module _ (packet : PacketView) (s : Session) (arrival : ℕ) (v : IsServing t source s)
      (within : packet.header.number < t.start.total_chunks)
      (whole : expected_size t packet.header.number ≤ length packet.payload)
      (bytes : (i : ℕ)
        → i < expected_size t packet.header.number
        → get_or packet.payload i 0 ≡ get_or source (offset_of t packet.header.number + i) 0) where
    placed :
        0 < expected_size t packet.header.number
        × (offset_of t packet.header.number + expected_size t packet.header.number
            ≤ t.start.file_size)
    unfolding expected_size
    placed =
        let (_, file, counted) = transfer in
        let (some_bytes, _, fits) =
          chunk_within t.start.file_size t.start.chunk_size file counted packet.header.number
            within in
        (some_bytes, fits)

    chunk : List ℕ
    chunk = take (expected_size t packet.header.number) packet.payload

    length-chunk : length chunk ≡ expected_size t packet.header.number
    unfolding chunk
    length-chunk = length-take _ packet.payload whole

    copy_chunk_lem :
        copy_chunk t packet s.output ≡ copy_to (offset_of t packet.header.number) chunk s.output
    unfolding copy_chunk chunk
    copy_chunk_lem =
        let full : (expected_size t packet.header.number == 0) ≡ false = ground (arith, placed) in
        rw full refl

    get_or-copy_chunk :
        (k : ℕ)
        → get_or (copy_chunk t packet s.output) k 0 ≡ (
            if leb (offset_of t packet.header.number) k
              && ltb k (offset_of t packet.header.number + length chunk)
            then get_or chunk (k - offset_of t packet.header.number) 0
            else get_or s.output k 0)
    get_or-copy_chunk k = rw copy_chunk_lem (
        get_or-copy_to (offset_of t packet.header.number) chunk s.output k
          (omega (arith, placed, length-chunk, v.size)))

    copied :
        (k : ℕ)
        → InChunk t packet.header.number k
        → get_or (copy_chunk t packet s.output) k 0 ≡ get_or source k 0
    copied k (from, below) =
        let i = k - offset_of t packet.header.number in
        let inside : i < expected_size t packet.header.number = omega arith in
        let back : offset_of t packet.header.number + i ≡ k = omega arith in
        let byte : get_or chunk i 0 ≡ get_or source k 0 =
          unfold chunk in get_or-take _ i packet.payload inside ∙ bytes i inside ∙ rw back refl in
        ground (arith, get_or-copy_chunk k, length-chunk, byte)

    kept :
        (k : ℕ)
        → (k < offset_of t packet.header.number)
          ⊎ (offset_of t packet.header.number + expected_size t packet.header.number ≤ k)
        → get_or (copy_chunk t packet s.output) k 0 ≡ get_or s.output k 0
    kept k outside = ground (arith, get_or-copy_chunk k, length-chunk)

    stored_after :
        (j k : ℕ)
        → has_received (mark_received s.tracker packet.header.number).0 j ≡ true
        → InChunk t j k
        → get_or (copy_chunk t packet s.output) k 0 ≡ get_or source k 0
    stored_after j k h place = elim (Bool-cases (packet.header.number == j)) [
      | inl e ↦ copied k (let same : packet.header.number ≡ j = ==→eq _ _ e in rw same place)
      | inr e ↦
          let old : has_received s.tracker j ≡ true =
            ground (arith, has_received-mark_received s.tracker packet.header.number j) in
          kept k (apart k j old (ground arith) place) ∙ v.stored j k old place
    ]
      where
        apart :
            (k j : ℕ)
            → has_received s.tracker j ≡ true
            → packet.header.number ≢ j
            → InChunk t j k
            → (k < offset_of t packet.header.number)
              ⊎ (offset_of t packet.header.number + expected_size t packet.header.number ≤ k)
        apart k j old other (from, below) =
            let (_, file, counted) = transfer in
            unfold expected_size in
            chunks_disjoint t.start.file_size t.start.chunk_size file counted j packet.header.number
              k (omega (arith, has_received-lt s.tracker j old, v.chunks)) within
              (λ e. other (sym e)) from (unfold expected_size in below)

    pub store_chunk-IsServing : IsServing t source (store_chunk t packet arrival s)
    unfolding store_chunk
    store_chunk-IsServing = record {
      tracking = mark_received-IsTracking s.tracker packet.header.number v.tracking;
      chunks = length-mark_received s.tracker packet.header.number ∙ v.chunks;
      size = ap length copy_chunk_lem ∙ length-copy_to _ chunk s.output ∙ v.size;
      stored = stored_after;
    }
