-- ===== src/Client/Control/Report.antt =====
-- What `run_client` of src/client.cpp has established when it reports the end.
use ee542_lab2_fast_reliable.Common.{
  ℕ, ◌<◌, ◌≡◌, refl, ap, List, [], ◌∷◌, Option, none, some, true, not, ◌||◌, ◌==◌, arith, length,
  All, Result, ok, err, ◌>>=◌, Exception, Returns, Returns->>=, IsU32, Bool-cases, inl, inr,
}
use ee542_lab2_fast_reliable.Net.{Endpoint}
use ee542_lab2_fast_reliable.Protocol.Types.{StartPayload, StartAckPayload, CompleteAckPayload, ack}
use ee542_lab2_fast_reliable.Protocol.Sizes.{chunk_count_iff}
use ee542_lab2_fast_reliable.Reliability.State.{SenderWindow, new_sender}
use ee542_lab2_fast_reliable.Reliability.Sender.Window.{acked_at}
use ee542_lab2_fast_reliable.Reliability.Sender.Sent.{mark_sent_cases}
use ee542_lab2_fast_reliable.Reliability.Sender.History
use ee542_lab2_fast_reliable.Reliability.Sender.History.{
  IsLive, all_acked_iff, step, selects, sends, checks, step-IsLive, run-new_sender,
}
use ee542_lab2_fast_reliable.Client.Receiving.{
  expected_packet, Drained, would_block, interrupted, failed, datagram, Ready, poll_timed_out,
  poll_interrupted, poll_failed, receive_interrupted, receive_failed, received, Turn,
}
use ee542_lab2_fast_reliable.Client.Sending.{
  Connection, Progress, Pass, Transferring, running, transferred, transfer, rto,
}
use ee542_lab2_fast_reliable.Client.Sending.Keeps.{
  Drains, Reads, Gets, IsKept, Ends, transfer-Keeps,
}
use ee542_lab2_fast_reliable.Client.Sending.Passing.{Live, apply_expected-Live}
use ee542_lab2_fast_reliable.Client.Control.{
  Run, Attempted, propose, start_transfer, check_accepted, check_completed, connection_of,
  begin_transfer, first_progress, complete_transfer, Ended, unfinished, reported, report,
  finish_run, end_run, run_client,
}
use ee542_lab2_fast_reliable.Client.Control.Proposal.{propose-IsProposal}

pub begin_transfer-new_sender :
    (c : Connection) (run : Run) (p : Progress)
    → begin_transfer c run ≡ ok p
    → new_sender c.total_chunks c.accepted_window_chunks c.accepted_bitmap_bits run.begin
      ≡ ok p.window
unfolding begin_transfer first_progress
begin_transfer-new_sender c run p e =
    go (new_sender c.total_chunks c.accepted_window_chunks c.accepted_bitmap_bits run.begin) refl
  where
    go :
        (r : Result Exception SenderWindow)
        → new_sender c.total_chunks c.accepted_window_chunks c.accepted_bitmap_bits run.begin ≡ r
        → r ≡ ok p.window
    go (ok w) r =
        let same : first_progress w run.sample_begin ≡ p = cc (rw r at e) in
        ap (λ x. ok x.window) same
    go (err x) r = absurd (cc (rw r at e))

abbrev FromAnywhere : Endpoint → List ℕ → Type 0
FromAnywhere source bytes = Unit

-- Whatever arrives, the window stays live.
module _ (c : Connection) (begin : ℕ) where
  Live-IsKept : IsKept c (Live c begin) FromAnywhere
  unfolding step
  Live-IsKept = record {
    hears = λ w source bytes now a l.
        apply_expected-Live c begin (expected_packet c.server ack c.session_id source bytes) now w
          l;
    checks = λ w now l. step-IsLive _ _ _ begin w (checks now rto) l;
    selects = λ w l. step-IsLive _ _ _ begin w selects l;
    sends = λ w sequence time l.
        let next = step-IsLive _ _ _ begin w (sends sequence time) l in
        elim (mark_sent_cases w sequence time l.valid) [
          | inl (w', e, _, _, _) ↦ rw e (rw e at next)
          | inr (e, why) ↦ rw e tt
        ];
  }

  all_drained : (turns : List Drained) → All (Drains FromAnywhere) turns
  all_drained [] = tt
  all_drained (would_block ∷ turns) = (tt, all_drained turns)
  all_drained (interrupted ∷ turns) = (tt, all_drained turns)
  all_drained (failed ∷ turns) = (tt, all_drained turns)
  all_drained (datagram source bytes now ∷ turns) = (tt, all_drained turns)

  any_read : (ready : Ready) → Reads FromAnywhere ready
  any_read poll_timed_out = tt
  any_read poll_interrupted = tt
  any_read poll_failed = tt
  any_read receive_interrupted = tt
  any_read receive_failed = tt
  any_read (received source bytes) = tt

  all_read : (turns : List Turn) → All (λ turn. Reads FromAnywhere turn.ready) turns
  all_read [] = tt
  all_read (turn ∷ turns) = (any_read turn.ready, all_read turns)

  all_got : (passes : List Pass) → All (Gets FromAnywhere) passes
  all_got [] = tt
  all_got (pass ∷ passes) = (
    record {
      before = all_drained pass.drained;
      meanwhile = all_read pass.turns;
      behind = all_drained pass.drained_after;
    },
    all_got passes,
  )

Returns-bind {ℓ ℓ' κ} :
    {A : Type ℓ} {B : Type ℓ'} (Q : B → Type κ) (r : Result Exception A)
    (f : A → Result Exception B)
    → ((a : A) → r ≡ ok a → Returns Q (f a))
    → Returns Q (r >>= f)
Returns-bind Q (ok a) f next = next a refl
Returns-bind Q (err e) f next = tt

-- What a report stands for.
abbrev pub IsReport : ℕ → List ℕ → Ended → Type 0
IsReport mtu input (unfinished p) = Unit
IsReport mtu input (reported p completed) =
    (payload : StartPayload) × (propose mtu (length input) ≡ ok payload)
    × ((j : ℕ) → j < payload.total_chunks → acked_at p.window j ≡ true)
    × (completed.received_chunks ≡ payload.total_chunks)
    × (completed.received_bytes ≡ length input)

abbrev Matches : ℕ → ℕ → CompleteAckPayload → Type 0
Matches total size completed =
    (completed.received_chunks ≡ total) × (completed.received_bytes ≡ size)

check_completed-Matches :
    (total size : ℕ) (response : Option CompleteAckPayload)
    → Returns (Matches total size) (check_completed total size response)
unfolding check_completed
check_completed-Matches total size none = tt
check_completed-Matches total size (some completed) =
    elim (Bool-cases
      (not (completed.received_chunks == total) || not (completed.received_bytes == size))) [
        | inl e ↦ rw e tt
        | inr e ↦ rw e (ground arith, ground arith)
      ]

module _ (mtu : ℕ) (server : Endpoint) (input : List ℕ) (run : Run) (payload : StartPayload)
    (proposed : propose mtu (length input) ≡ ok payload) (accepted : StartAckPayload) where
  abbrev c : Connection
  c = connection_of server input payload accepted run.session_id

  total_fits : IsU32 payload.total_chunks
  total_fits =
      let (_, count, _, _, _, _) = propose-IsProposal mtu (length input) payload proposed in
      let (_, small, _, _) = (chunk_count_iff _ _ _).0 count in small

  begun-Live : (p : Progress) → begin_transfer c run ≡ ok p → Live c run.begin p.window
  unfolding connection_of
  begun-Live p e =
      unfold History.run in
      run-new_sender c.total_chunks c.accepted_window_chunks c.accepted_bitmap_bits run.begin
        p.window [] total_fits (begin_transfer-new_sender c run p e)

  finish_run-IsReport :
      (p : Progress)
      → ((j : ℕ) → j < payload.total_chunks → acked_at p.window j ≡ true)
      → Returns (IsReport mtu input) (finish_run c run p)
  unfolding finish_run report connection_of
  finish_run-IsReport p every = attempts (complete_transfer c run)
    where
      checks_out :
          (r : Result Exception CompleteAckPayload)
          → Returns (Matches payload.total_chunks (length input)) r
          → Returns (IsReport mtu input) (r >>= report run p)
      checks_out (ok completed) (chunks, size) = (payload, proposed, every, chunks, size)
      checks_out (err e) h = tt

      responds :
          (r : Result Exception (Option CompleteAckPayload))
          → Returns (IsReport mtu input) (
              r >>= (λ response.
                check_completed payload.total_chunks (length input) response >>= report run p))
      responds (ok response) =
          checks_out (check_completed payload.total_chunks (length input) response)
            (check_completed-Matches payload.total_chunks (length input) response)
      responds (err e) = tt

      attempts :
          (r : Result Exception (Attempted CompleteAckPayload))
          → Returns (IsReport mtu input) (
              r >>= (λ attempted. attempted.result >>= (λ response.
                check_completed payload.total_chunks (length input) response >>= report run p)))
      attempts (ok attempted) = responds attempted.result
      attempts (err e) = tt

  end_run-IsReport :
      (ended : Transferring)
      → Ends (Live c run.begin) ended
      → Returns (IsReport mtu input) (end_run c run ended)
  unfolding end_run connection_of
  end_run-IsReport (running p sent) l = tt
  end_run-IsReport (transferred p sent) (l, all) =
      finish_run-IsReport p
        (λ j h. (all_acked_iff p.window l.valid l.settled).0 all j (omega (arith, l.total_is)))

run_client-IsReport :
    (mtu : ℕ) (server : Endpoint) (input : List ℕ) (run : Run)
    → Returns (IsReport mtu input) (run_client mtu server input run)
unfolding run_client
run_client-IsReport mtu server input run =
    let Q = IsReport mtu input in
    Returns-bind Q (propose mtu (length input)) _ (λ payload proposed.
      Returns-bind Q (start_transfer server payload run) _ (λ attempted u.
        Returns-bind Q attempted.result _ (λ response u.
          Returns-bind Q (check_accepted response) _ (λ accepted u.
            let c' = connection_of server input payload accepted run.session_id in
            Returns-bind Q (begin_transfer c' run) _ (λ p begun.
              Returns->>= (Ends (Live c' run.begin)) Q (transfer c' run.passes p) (end_run c' run)
                (transfer-Keeps c' (Live c' run.begin) FromAnywhere (Live-IsKept c' run.begin)
                  run.passes p (all_got c' run.begin run.passes)
                  (begun-Live mtu server input run payload proposed accepted p begun))
                (end_run-IsReport mtu server input run payload proposed accepted))))))

-- If the client's run reports the end, whatever arrives and whatever the clock shows, then it has
-- proposed a chunk count for its file, every one of these chunks is acknowledged in its window, and
-- the COMPLETE_ACK names this count and the size of the file.
pub run_client_reported :
    (mtu : ℕ) (server : Endpoint) (input : List ℕ) (run : Run) (p : Progress)
    (completed : CompleteAckPayload)
    → run_client mtu server input run ≡ ok (reported p completed)
    → (payload : StartPayload) × (propose mtu (length input) ≡ ok payload)
      × ((j : ℕ) → j < payload.total_chunks → acked_at p.window j ≡ true)
      × (completed.received_chunks ≡ payload.total_chunks)
      × (completed.received_bytes ≡ length input)
run_client_reported mtu server input run p completed e =
    rw e at (run_client-IsReport mtu server input run)
