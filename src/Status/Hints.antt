-- ===== src/Status/Hints.antt =====
-- src/status.rs: what an answer of `/status` tells, and when its hints are not well.
use ct_firehose_filter.Prelude.{
  ℕ, ◌-◌, ◌≡◌, ◌<◌, ◌⊎◌, ◌↔◌, refl, true, false, Option, List, Str, codes, str_eq, str_eq_iff,
  arith,
}
use ct_firehose_filter.Metrics.{PipelineMetrics, MetricsSnapshot, snapshot}
use ct_firehose_filter.Status.{
  Floats, StatusState, StatusResponse, keep_up_hint, product_hint, build_status,
}

-- The frames in a second between the metrics `before` and those of `now`.
abbrev pub frame_rate : {F : Type 0} → Floats F → ℕ → ℕ → F → F
frame_rate floats now before elapsed =
    floats.div (floats.of_nat (now - before)) (floats.largest elapsed floats.milli)

-- The filter is behind: the channel was ever full, or after a thousand frames less than one arrives
-- in a second.
abbrev pub IsBehind : {F : Type 0} → Floats F → ℕ → ℕ → F → Type 0
IsBehind floats channel_full frames_seen fps =
    (0 < channel_full) ⊎ ((1000 < frames_seen) × (floats.less fps (floats.of_nat 1) ≡ true))

-- The product is silent: no coalition was found in an hour with a thousand matches, while alerts are
-- made.
pub record IsSilent {F : Type 0} (floats : Floats F) (now : PipelineMetrics) (uptime : F)
    (egress : Str) : Type 0 where
  pub product : egress ≡ codes "novelty"
  pub alerting : now.novelty_calibrating ≡ 0
  pub an_hour : floats.less (floats.of_nat 3600) uptime ≡ true
  pub matches : 1000 < now.matches_enqueued
  pub no_alert : now.novelty_alerts_a ≡ 0
  pub no_coalition : now.novelty_coalitions_inserted ≡ 0

-- An answer, by the metrics at the answer before and those of now.
pub record IsTold {F : Type 0} (floats : Floats F) (before now : PipelineMetrics)
    (uptime elapsed : F) (egress : Str) (r : StatusResponse F) : Type 0 where
  pub told_frames_seen : r.frames_seen ≡ now.frames_seen
  pub told_frames_ignored : r.frames_ignored ≡ now.frames_ignored
  pub told_frames_malformed : r.frames_malformed ≡ now.frames_malformed
  pub told_matches_enqueued : r.matches_enqueued ≡ now.matches_enqueued
  pub told_matches_suppressed : r.matches_suppressed ≡ now.matches_suppressed
  pub told_channel_full : r.channel_full ≡ now.channel_full
  pub told_reconnects : r.reconnects ≡ now.reconnects
  pub told_batches_sent : r.batches_sent ≡ now.batches_sent
  pub told_egress_retries : r.egress_retries ≡ now.egress_retries
  pub told_novelty_alerts_a : r.novelty_alerts_a ≡ now.novelty_alerts_a
  pub told_novelty_alerts_b : r.novelty_alerts_b ≡ now.novelty_alerts_b
  pub told_novelty_oversized_dropped : r.novelty_oversized_dropped ≡ now.novelty_oversized_dropped
  pub told_novelty_mega_san_dropped : r.novelty_mega_san_dropped ≡ now.novelty_mega_san_dropped
  pub told_novelty_fully_ignored : r.novelty_fully_ignored ≡ now.novelty_fully_ignored
  pub told_novelty_coalitions_inserted :
      r.novelty_coalitions_inserted ≡ now.novelty_coalitions_inserted
  pub told_novelty_high_df_dropped : r.novelty_high_df_dropped ≡ now.novelty_high_df_dropped
  pub told_novelty_calibrate_muted : r.novelty_calibrate_muted ≡ now.novelty_calibrate_muted
  pub told_archive_events_written : r.archive_events_written ≡ now.archive_events_written
  pub told_archive_bytes_written : r.archive_bytes_written ≡ now.archive_bytes_written
  pub told_calibrating : (r.novelty_calibrating ≡ true) ↔ (0 < now.novelty_calibrating)
  pub told_frames_per_sec :
      r.frames_per_sec ≡ frame_rate floats now.frames_seen before.frames_seen elapsed
  pub told_matches_per_sec :
      r.matches_per_sec ≡ frame_rate floats now.matches_enqueued before.matches_enqueued elapsed
  pub keep_up :
      (r.keep_up.ok ≡ false)
      ↔ IsBehind floats now.channel_full now.frames_seen
          (frame_rate floats now.frames_seen before.frames_seen elapsed)
  pub product : (r.product.ok ≡ false) ↔ IsSilent floats now uptime egress

module _ {F : Type 0} (floats : Floats F) where
  keep_up_hint_lem :
      (snap : MetricsSnapshot) (fps : F)
      → ((keep_up_hint floats snap fps).ok ≡ false)
        ↔ IsBehind floats snap.channel_full snap.frames_seen fps
  unfolding keep_up_hint
  keep_up_hint_lem snap fps = (λ h. ground arith, λ h. ground arith)

  product_hint_lem :
      (now : PipelineMetrics) (uptime : F) (egress : Str)
      → ((product_hint floats (snapshot now) uptime egress).ok ≡ false)
        ↔ IsSilent floats now uptime egress
  unfolding product_hint snapshot
  product_hint_lem now uptime egress = (
    λ h. record {
      product = (str_eq_iff egress (codes "novelty")).0 (ground arith);
      alerting = ground arith;
      an_hour = ground arith;
      matches = ground arith;
      no_alert = ground arith;
      no_coalition = ground arith;
    },
    λ h.
        let same : str_eq egress (codes "novelty") ≡ true =
          (str_eq_iff egress (codes "novelty")).1 h.product in
        ground arith,
  )

  answer-IsTold :
      (before : PipelineMetrics) (uptime elapsed : F)
      (read : Str → Option (ℕ × Option (List (Option Str)))) (s : StatusState)
      → s.rate.frames_seen ≡ before.frames_seen
      → s.rate.matches_enqueued ≡ before.matches_enqueued
      → IsTold floats before s.metrics uptime elapsed s.egress
          (build_status floats uptime elapsed read s).0
  unfolding build_status snapshot
  answer-IsTold before uptime elapsed read s f m =
      let fps = frame_rate floats s.metrics.frames_seen before.frames_seen elapsed in
      let k = keep_up_hint_lem (snapshot s.metrics) fps in
      let p = product_hint_lem s.metrics uptime s.egress in
      rw (f, m)
        (record {
          told_frames_seen = refl;
          told_frames_ignored = refl;
          told_frames_malformed = refl;
          told_matches_enqueued = refl;
          told_matches_suppressed = refl;
          told_channel_full = refl;
          told_reconnects = refl;
          told_batches_sent = refl;
          told_egress_retries = refl;
          told_novelty_alerts_a = refl;
          told_novelty_alerts_b = refl;
          told_novelty_oversized_dropped = refl;
          told_novelty_mega_san_dropped = refl;
          told_novelty_fully_ignored = refl;
          told_novelty_coalitions_inserted = refl;
          told_novelty_high_df_dropped = refl;
          told_novelty_calibrate_muted = refl;
          told_archive_events_written = refl;
          told_archive_bytes_written = refl;
          told_calibrating = (λ h. ground arith, λ h. ground arith);
          told_frames_per_sec = refl;
          told_matches_per_sec = refl;
          keep_up = k;
          product = p;
        })

  -- For two answers of `/status` in a row, whatever the metrics do between them: the second tells
  -- each counter of the metrics of its time, and as rates the frames and the matches since the
  -- first, in a second. Its first hint is not well exactly if the channel was ever full, or more
  -- than a thousand frames came in all and less than one in a second since the first answer. Its
  -- second hint is not well exactly if the product, with alerts made, has had more than a thousand
  -- matches in more than an hour and no alert of tier A and no coalition.
  pub build_status-IsTold :
      (uptime elapsed later_uptime later_elapsed : F)
      (read later_read : Str → Option (ℕ × Option (List (Option Str)))) (s : StatusState)
      (now : PipelineMetrics)
      → let t = (build_status floats uptime elapsed read s).1 in
        IsTold floats s.metrics now later_uptime later_elapsed s.egress
          (build_status floats later_uptime later_elapsed later_read (record t { metrics = now })).0
  unfolding build_status snapshot
  build_status-IsTold uptime elapsed later_uptime later_elapsed read later_read s now =
      answer-IsTold s.metrics later_uptime later_elapsed later_read
        (record (build_status floats uptime elapsed read s).1 { metrics = now }) refl refl
