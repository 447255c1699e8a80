-- ===== src/Examples/Resend.antt =====
-- A chunk that src/client.cpp has sent 500 ms ago, with no answer, and sends again.
use ee542_lab2_fast_reliable.Common.{
  zero, suc, ◌≡◌, refl, [], ◌∷◌, ◌++◌, ok, true, false, arith, get_or-beyond,
}
use ee542_lab2_fast_reliable.Net.{Datagram}
use ee542_lab2_fast_reliable.Reliability.State.{SenderWindow, chunk_at, new_chunk}
use ee542_lab2_fast_reliable.Reliability.Sender.{all_acked}
use ee542_lab2_fast_reliable.Reliability.Sender.Due.{IsTimedOut}
use ee542_lab2_fast_reliable.Client.Receiving.{drain_acks}
use ee542_lab2_fast_reliable.Client.Sending.{
  Progress, Pass, rto, pass_once, running, transfer, next_pass, with_sent,
}
use ee542_lab2_fast_reliable.Client.Sending.Passing.{GoesWell}
use ee542_lab2_fast_reliable.Client.Sending.Due.{pass_once-sends}
use ee542_lab2_fast_reliable.Examples.Transfer.{
  connection, run, quiet_pass, ok-value, progress_0, pass_1, sent_1, begins_well, in_flight, tests,
}
use ee542_lab2_fast_reliable.Examples.Client.{connection-IsConnection, quiet_pass-GoesWell}

abbrev late_pass : Pass
late_pass = record quiet_pass { timeout_time = 500_000_000 }

late_pass-GoesWell : GoesWell late_pass
late_pass-GoesWell = record { before = tt; meanwhile = tt; behind = tt }

sent_1-in_flight : in_flight sent_1.0.window ≡ true
sent_1-in_flight = tests.11

not_begun : all_acked progress_0.window ≡ false
not_begun = let e = tests.12 in ground arith

one_chunk-IsTimedOut : (w : SenderWindow) → in_flight w ≡ true → IsTimedOut w 500_000_000 rto
unfolding chunk_at
one_chunk-IsTimedOut w h zero f = ground arith
one_chunk-IsTimedOut w h (suc j) f = ground (arith, get_or-beyond w.chunks (suc j) new_chunk)

not_all : (w : SenderWindow) → in_flight w ≡ true → all_acked w ≡ false
not_all w h = ground arith

waits : transfer connection (quiet_pass ∷ []) progress_0 ≡ ok (running sent_1.0 (sent_1.1 ++ []))
unfolding transfer next_pass with_sent
waits =
    rw
      (
        not_begun,
        ok-value (progress_0, []) pass_1 (tests.1),
        not_all sent_1.0.window sent_1-in_flight,
      )
      refl

pass_once-sends_example :
    (p' : Progress) × (d : Datagram) × (pass_once connection late_pass sent_1.0 ≡ ok (p', d ∷ []))
pass_once-sends_example =
    pass_once-sends connection run progress_0 (quiet_pass ∷ []) sent_1.0 (sent_1.1 ++ []) late_pass
      sent_1.0.window connection-IsConnection begins_well (quiet_pass-GoesWell, tt) waits
      late_pass-GoesWell (unfold drain_acks in refl) (not_all _ sent_1-in_flight)
      (one_chunk-IsTimedOut _ sent_1-in_flight)
