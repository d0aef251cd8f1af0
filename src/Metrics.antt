-- ===== src/Metrics.antt =====
-- src/metrics.rs: the counters of the process. An `AtomicU64` wraps around.
use ct_firehose_filter.Prelude.{ℕ, ◌+◌, ◌^◌, ◌%◌, Bool, ltb, if◌then◌else◌}
use ct_firehose_filter.Alert.Policy.{ProcessStats}

pub record PipelineMetrics : Type 0 where
  pub frames_seen : ℕ
  pub frames_ignored : ℕ
  pub frames_malformed : ℕ
  pub matches_enqueued : ℕ
  pub matches_suppressed : ℕ
  pub channel_full : ℕ
  pub reconnects : ℕ
  pub batches_sent : ℕ
  pub egress_retries : ℕ
  pub novelty_alerts_a : ℕ
  pub novelty_alerts_b : ℕ
  pub novelty_oversized_dropped : ℕ
  pub novelty_mega_san_dropped : ℕ
  pub novelty_fully_ignored : ℕ
  pub novelty_coalitions_inserted : ℕ
  pub novelty_high_df_dropped : ℕ
  pub novelty_calibrate_muted : ℕ
  pub novelty_calibrating : ℕ
  pub archive_events_written : ℕ
  pub archive_bytes_written : ℕ

unfoldable pub fetch_add : ℕ → ℕ → ℕ
fetch_add counter n = (counter + n) % 2 ^ 64

-- `if n > 0 { counter.fetch_add(n) }`
abbrev add_if_some : ℕ → ℕ → ℕ
add_if_some counter n = if ltb 0 n then fetch_add counter n else counter

unfoldable pub record_novelty : ProcessStats → PipelineMetrics → PipelineMetrics
record_novelty stats m = record m {
  novelty_fully_ignored = add_if_some m.novelty_fully_ignored stats.fully_ignored;
  novelty_alerts_a = add_if_some m.novelty_alerts_a stats.alerts_a;
  novelty_alerts_b = add_if_some m.novelty_alerts_b stats.alerts_b;
  novelty_oversized_dropped = add_if_some m.novelty_oversized_dropped stats.a_oversized_dropped;
  novelty_mega_san_dropped = add_if_some m.novelty_mega_san_dropped stats.a_mega_san_dropped;
  novelty_coalitions_inserted = add_if_some m.novelty_coalitions_inserted stats.coalitions_inserted;
  novelty_high_df_dropped = add_if_some m.novelty_high_df_dropped stats.a_high_df_dropped;
  novelty_calibrate_muted = add_if_some m.novelty_calibrate_muted stats.a_calibrate_muted;
}

unfoldable pub set_novelty_calibrating : Bool → PipelineMetrics → PipelineMetrics
set_novelty_calibrating on m = record m { novelty_calibrating = if on then 1 else 0 }

pub record MetricsSnapshot : Type 0 where
  pub frames_seen : ℕ
  pub frames_ignored : ℕ
  pub frames_malformed : ℕ
  pub matches_enqueued : ℕ
  pub matches_suppressed : ℕ
  pub channel_full : ℕ
  pub reconnects : ℕ
  pub batches_sent : ℕ
  pub egress_retries : ℕ
  pub novelty_alerts_a : ℕ
  pub novelty_alerts_b : ℕ
  pub novelty_oversized_dropped : ℕ
  pub novelty_mega_san_dropped : ℕ
  pub novelty_fully_ignored : ℕ
  pub novelty_coalitions_inserted : ℕ
  pub novelty_high_df_dropped : ℕ
  pub novelty_calibrate_muted : ℕ
  pub novelty_calibrating : ℕ
  pub archive_events_written : ℕ
  pub archive_bytes_written : ℕ

unfoldable pub snapshot : PipelineMetrics → MetricsSnapshot
snapshot m = record {
  frames_seen = m.frames_seen;
  frames_ignored = m.frames_ignored;
  frames_malformed = m.frames_malformed;
  matches_enqueued = m.matches_enqueued;
  matches_suppressed = m.matches_suppressed;
  channel_full = m.channel_full;
  reconnects = m.reconnects;
  batches_sent = m.batches_sent;
  egress_retries = m.egress_retries;
  novelty_alerts_a = m.novelty_alerts_a;
  novelty_alerts_b = m.novelty_alerts_b;
  novelty_oversized_dropped = m.novelty_oversized_dropped;
  novelty_mega_san_dropped = m.novelty_mega_san_dropped;
  novelty_fully_ignored = m.novelty_fully_ignored;
  novelty_coalitions_inserted = m.novelty_coalitions_inserted;
  novelty_high_df_dropped = m.novelty_high_df_dropped;
  novelty_calibrate_muted = m.novelty_calibrate_muted;
  novelty_calibrating = m.novelty_calibrating;
  archive_events_written = m.archive_events_written;
  archive_bytes_written = m.archive_bytes_written;
}
