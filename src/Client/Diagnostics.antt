-- ===== src/Client/Diagnostics.antt =====
-- `TimingStats`, `WindowSampleStats` and `PerformanceDiagnostics` of src/client.cpp. Durations are
-- signed differences of clock readings, in nanoseconds.
use ee542_lab2_fast_reliable.Common.{
  ℕ, ◌+◌, ◌-◌, ◌%◌, ◌^◌, Bool, true, false, max, if◌then◌else◌, inc32, inc64, for_range,
}
use ee542_lab2_fast_reliable.Common.Int.{ℤ, pos, sub_ℕ, ◌+ℤ◌, max_ℤ}
use ee542_lab2_fast_reliable.Reliability.State.{SenderWindow, is_acked, chunk_at}
use ee542_lab2_fast_reliable.Reliability.Sender
use ee542_lab2_fast_reliable.Reliability.Sender.{state}

pub record TimingStats : Type 0 where
  pub total : ℤ
  pub longest : ℤ
  pub calls : ℕ

abbrev pub no_timing : TimingStats
no_timing = record { total = pos 0; longest = pos 0; calls = 0 }

unfoldable pub add : TimingStats → ℤ → TimingStats
add stats duration = record {
  total = stats.total +ℤ duration;
  longest = max_ℤ stats.longest duration;
  calls = inc64 stats.calls;
}

-- The local counters of `sample`'s loop.
pub record Sample : Type 0 where
  pub unacked : ℕ
  pub acked_behind_hole : ℕ
  pub retransmit_pending : ℕ

-- One round of the loop. The chunk is within the transfer, so that `state` does not throw.
unfoldable pub sample_round : SenderWindow → ℕ → Sample → Sample
sample_round window sequence s =
    let counted : Sample =
      if is_acked (chunk_at window sequence).state
      then record s { acked_behind_hole = inc32 s.acked_behind_hole }
      else record s { unacked = inc32 s.unacked } in
    if Sender.retransmit_pending window sequence
    then record counted { retransmit_pending = inc32 counted.retransmit_pending }
    else counted

unfoldable pub count_sample : SenderWindow → Sample
unfolding sample_round
count_sample window =
    for_range (window.next_sequence - window.base) window.base (sample_round window)
      (record { unacked = 0; acked_behind_hole = 0; retransmit_pending = 0 })

pub record WindowSampleStats : Type 0 where
  pub samples : ℕ
  pub span_total : ℕ
  pub unacked_total : ℕ
  pub acked_behind_hole_total : ℕ
  pub retransmit_pending_total : ℕ
  pub max_span : ℕ
  pub max_unacked : ℕ
  pub max_acked_behind_hole : ℕ
  pub max_retransmit_pending : ℕ

-- `+=` on a `uint64_t`.
unfoldable pub add64 : ℕ → ℕ → ℕ
add64 a b = (a + b) % 2 ^ 64

unfoldable pub sample : WindowSampleStats → SenderWindow → WindowSampleStats
unfolding add64
sample stats window =
    let span = (window.next_sequence + 2 ^ 32 - window.base) % 2 ^ 32 in
    let s = count_sample window in
    record {
      samples = inc64 stats.samples;
      span_total = add64 stats.span_total span;
      unacked_total = add64 stats.unacked_total s.unacked;
      acked_behind_hole_total = add64 stats.acked_behind_hole_total s.acked_behind_hole;
      retransmit_pending_total = add64 stats.retransmit_pending_total s.retransmit_pending;
      max_span = max stats.max_span span;
      max_unacked = max stats.max_unacked s.unacked;
      max_acked_behind_hole = max stats.max_acked_behind_hole s.acked_behind_hole;
      max_retransmit_pending = max stats.max_retransmit_pending s.retransmit_pending;
    }

abbrev pub no_samples : WindowSampleStats
no_samples = record {
  samples = 0;
  span_total = 0;
  unacked_total = 0;
  acked_behind_hole_total = 0;
  retransmit_pending_total = 0;
  max_span = 0;
  max_unacked = 0;
  max_acked_behind_hole = 0;
  max_retransmit_pending = 0;
}

pub record PerformanceDiagnostics : Type 0 where
  pub pacer : TimingStats
  pub no_send_wait : TimingStats
  pub poll_wait : TimingStats
  pub window_blocked_idle : ℤ
  pub all_data_issued_idle : ℤ
  pub other_idle : ℤ
  pub no_send_episodes : ℕ
  pub longest_no_send_episode : ℤ
  pub no_send_episode_active : Bool
  pub no_send_episode_start : ℕ
  pub fast_retransmits : ℕ
  pub rto_retransmits : ℕ
  pub window_samples : WindowSampleStats

abbrev pub no_diagnostics : PerformanceDiagnostics
no_diagnostics = record {
  pacer = no_timing;
  no_send_wait = no_timing;
  poll_wait = no_timing;
  window_blocked_idle = pos 0;
  all_data_issued_idle = pos 0;
  other_idle = pos 0;
  no_send_episodes = 0;
  longest_no_send_episode = pos 0;
  no_send_episode_active = false;
  no_send_episode_start = 0;
  fast_retransmits = 0;
  rto_retransmits = 0;
  window_samples = no_samples;
}

unfoldable pub begin_no_send : PerformanceDiagnostics → ℕ → PerformanceDiagnostics
begin_no_send d now = if d.no_send_episode_active then d else record d {
  no_send_episode_active = true;
  no_send_episode_start = now;
  no_send_episodes = inc64 d.no_send_episodes;
}

unfoldable pub end_no_send : PerformanceDiagnostics → ℕ → PerformanceDiagnostics
end_no_send d now =
    if d.no_send_episode_active
    then record d {
      longest_no_send_episode = max_ℤ d.longest_no_send_episode (sub_ℕ now d.no_send_episode_start);
      no_send_episode_active = false;
    }
    else d

-- The accounting after a wait of `duration`.
unfoldable pub count_idle : Bool → Bool → ℤ → PerformanceDiagnostics → PerformanceDiagnostics
unfolding add
count_idle window_blocked all_data_issued duration d = record d {
  no_send_wait = add d.no_send_wait duration;
  window_blocked_idle =
      if window_blocked then d.window_blocked_idle +ℤ duration else d.window_blocked_idle;
  all_data_issued_idle =
      if all_data_issued then d.all_data_issued_idle +ℤ duration else d.all_data_issued_idle;
  other_idle =
      if window_blocked
      then d.other_idle
      else if all_data_issued
      then d.other_idle
      else d.other_idle +ℤ duration;
}
