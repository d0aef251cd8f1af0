-- ===== src/Status.antt =====
-- src/status.rs: what `/status` answers. The floating-point numbers are those of a parameter, the
-- elapsed seconds are inputs, and so is what reading the file of alerts yields.
pub mod Hints
use ct_firehose_filter.Prelude.{
  ℕ, suc, ◌-◌, Bool, true, false, not, ◌&&◌, ◌==◌, Option, none, some, List, [], ◌∷◌, filter,
  is_empty, length, ltb, if◌then◌else◌, Str, codes, str_eq,
}
use ct_firehose_filter.Metrics.{PipelineMetrics, MetricsSnapshot, snapshot}
use ct_firehose_filter.Config.{ArchiveConfig}
use ct_firehose_filter.Archive.Event.{FilesystemUsage, ConfigProvenance, archive_disk_warn}
use ct_firehose_filter.Archive.Files.{Dir, dir_byte_total}

-- `f64`, with the operations that are used.
pub record Floats (F : Type 0) : Type 0 where
  pub of_nat : ℕ → F
  pub milli : F
  pub mul : F → F → F
  pub div : F → F → F
  pub largest : F → F → F
  pub less : F → F → Bool

-- What the page reads of the archive.
pub record ArchiveView : Type 0 where
  pub cfg : ArchiveConfig
  pub on_disk : Dir
  pub usage : Option FilesystemUsage
  pub prov : ConfigProvenance

-- The counters at the last answer.
pub record RateSample : Type 0 where
  pub frames_seen : ℕ
  pub matches_enqueued : ℕ

pub record StatusState : Type 0 where
  pub metrics : PipelineMetrics
  pub egress : Str
  pub novelty_db : Option Str
  pub novelty_alerts : Option Str
  pub archive : Option ArchiveView
  pub rate : RateSample

pub record Hint : Type 0 where
  pub ok : Bool
  pub detail : Str

pub record StatusResponse (F : Type 0) : Type 0 where
  pub ok : Bool
  pub uptime_secs : F
  pub egress : Str
  pub novelty_db : Option Str
  pub novelty_alerts : Option Str
  pub frames_seen : ℕ
  pub frames_ignored : ℕ
  pub frames_malformed : ℕ
  pub matches_enqueued : ℕ
  pub matches_suppressed : ℕ
  pub channel_full : ℕ
  pub reconnects : ℕ
  pub batches_sent : ℕ
  pub egress_retries : ℕ
  pub frames_per_sec : F
  pub matches_per_sec : F
  pub novelty_alerts_a : ℕ
  pub novelty_alerts_b : ℕ
  pub novelty_oversized_dropped : ℕ
  pub novelty_mega_san_dropped : ℕ
  pub novelty_fully_ignored : ℕ
  pub novelty_coalitions_inserted : ℕ
  pub novelty_high_df_dropped : ℕ
  pub novelty_calibrate_muted : ℕ
  pub novelty_calibrating : Bool
  pub novelty_alerts_per_hour : F
  pub alerts_file_bytes : Option ℕ
  pub alerts_file_lines : Option ℕ
  pub archive_events_written : ℕ
  pub archive_bytes_written : ℕ
  pub archive_dir : Option Str
  pub archive_dir_bytes : Option ℕ
  pub archive_max_total_bytes : Option ℕ
  pub archive_disk_warn : Bool
  pub fs_available_bytes : Option ℕ
  pub fs_total_bytes : Option ℕ
  pub config_hash : Option Str
  pub snapshot_id : Option Str
  pub keep_up : Hint
  pub product : Hint

-- `StatusState::new`, and `with_archive`.
unfoldable pub new_status : PipelineMetrics → Str → Option Str → Option Str → StatusState
unfolding snapshot
new_status metrics egress novelty_db novelty_alerts =
    let snap = snapshot metrics in
    record {
      metrics = metrics;
      egress = egress;
      novelty_db = novelty_db;
      novelty_alerts = novelty_alerts;
      archive = none;
      rate = record { frames_seen = snap.frames_seen; matches_enqueued = snap.matches_enqueued };
    }

abbrev pub with_archive : ArchiveView → StatusState → StatusState
with_archive view s = record s { archive = some view }

-- The lines up to the first that cannot be read.
abbrev readable : List (Option Str) → List Str
readable [] = []
readable (none ∷ rest) = []
readable (some line ∷ rest) = line ∷ readable rest

abbrev count_lines : Option (List (Option Str)) → Option ℕ
count_lines none = none
count_lines (some lines) = some (length (filter (λ l. not (is_empty l)) (readable lines)))

-- Of the file's size and, if it can be opened, its lines.
unfoldable pub alerts_file_stats : Option (ℕ × Option (List (Option Str))) → Option ℕ × Option ℕ
alerts_file_stats none = (none, none)
alerts_file_stats (some meta) = (some meta.0, count_lines meta.1)

unfoldable pub alerts_file_of :
    (Str → Option (ℕ × Option (List (Option Str)))) → Option Str → Option ℕ × Option ℕ
unfolding alerts_file_stats
alerts_file_of read none = (none, none)
alerts_file_of read (some path) = alerts_file_stats (read path)

abbrev available : Option FilesystemUsage → Option ℕ
available none = none
available (some u) = some u.available_bytes

abbrev total : Option FilesystemUsage → Option ℕ
total none = none
total (some u) = some u.total_bytes

-- What the answer tells of the archive.
pub record ArchiveFields : Type 0 where
  pub archive_dir : Option Str
  pub archive_dir_bytes : Option ℕ
  pub archive_max_total_bytes : Option ℕ
  pub archive_disk_warn : Bool
  pub fs_available_bytes : Option ℕ
  pub fs_total_bytes : Option ℕ
  pub config_hash : Option Str
  pub snapshot_id : Option Str

abbrev archive_fields : Option ArchiveView → ArchiveFields
archive_fields none = record {
  archive_dir = none;
  archive_dir_bytes = none;
  archive_max_total_bytes = none;
  archive_disk_warn = false;
  fs_available_bytes = none;
  fs_total_bytes = none;
  config_hash = none;
  snapshot_id = none;
}
archive_fields (some view) = record {
  archive_dir = some view.cfg.dir;
  archive_dir_bytes = some (dir_byte_total view.on_disk);
  archive_max_total_bytes = some view.cfg.max_total_bytes;
  archive_disk_warn =
      archive_disk_warn (dir_byte_total view.on_disk) view.cfg.disk_warn_bytes
        view.cfg.max_total_bytes (available view.usage);
  fs_available_bytes = available view.usage;
  fs_total_bytes = total view.usage;
  config_hash = some view.prov.config_hash;
  snapshot_id = some view.prov.snapshot_id;
}

abbrev pub healthy : Str → Hint
healthy detail = record { ok = true; detail = detail }

abbrev pub unhealthy : Str → Hint
unhealthy detail = record { ok = false; detail = detail }

module _ {F : Type 0} (floats : Floats F) where
  unfoldable pub keep_up_hint : MetricsSnapshot → F → Hint
  keep_up_hint snap frames_per_sec =
      if ltb 0 snap.channel_full
      then unhealthy
          (codes "channel_full > 0 — match channel saturated; filter may be behind CertStream")
      else if ltb 1000 snap.frames_seen && floats.less frames_per_sec (floats.of_nat 1)
      then unhealthy
          (codes "frames_per_sec near zero after warmup — check CertStream / WS reconnects")
      else healthy (codes "channel_full=0 and frames flowing (proxy — not true CT tip lag)")

  unfoldable pub product_hint : MetricsSnapshot → F → Str → Hint
  product_hint snap uptime_secs egress =
      if not (str_eq egress (codes "novelty"))
      then healthy (codes "stdout egress — not the product novelty trickle")
      else if ltb 0 snap.novelty_calibrating
      then healthy (codes "calibrating — alerts muted; archive + novelty.db still listen")
      else if floats.less (floats.of_nat 3600) uptime_secs
          && ltb 1000 snap.matches_enqueued
          && (snap.novelty_alerts_a == 0)
          && (snap.novelty_coalitions_inserted == 0)
      then unhealthy (
          codes "no alert inserts after 1h with matches — check novelty DB / watchlist / calibrate")
      else healthy
          (codes "warm alerts is tens/hour; tiny alerts.jsonl is expected until 256MiB rotate")

  abbrev pub per_sec : ℕ → ℕ → F → F
  per_sec now before elapsed =
      floats.div (floats.of_nat (now - before)) (floats.largest elapsed floats.milli)

  abbrev per_hour : ℕ → F → F
  per_hour alerts uptime_secs =
      if floats.less (floats.of_nat 1) uptime_secs
      then floats.div (floats.mul (floats.of_nat alerts) (floats.of_nat 3600)) uptime_secs
      else floats.of_nat 0

  -- The answer, and the state with the new sample. The seconds since the start, those since the
  -- last answer, and the file of alerts.
  unfoldable pub build_status :
      F
      → F
      → (Str → Option (ℕ × Option (List (Option Str))))
      → StatusState
      → StatusResponse F × StatusState
  unfolding snapshot keep_up_hint product_hint alerts_file_of dir_byte_total archive_disk_warn
  build_status uptime_secs elapsed read_alerts s =
      let snap = snapshot s.metrics in
      let fps = per_sec snap.frames_seen s.rate.frames_seen elapsed in
      let archive = archive_fields s.archive in
      let alerts_file = alerts_file_of read_alerts s.novelty_alerts in
      (
        record {
          ok = true;
          uptime_secs = uptime_secs;
          egress = s.egress;
          novelty_db = s.novelty_db;
          novelty_alerts = s.novelty_alerts;
          frames_seen = snap.frames_seen;
          frames_ignored = snap.frames_ignored;
          frames_malformed = snap.frames_malformed;
          matches_enqueued = snap.matches_enqueued;
          matches_suppressed = snap.matches_suppressed;
          channel_full = snap.channel_full;
          reconnects = snap.reconnects;
          batches_sent = snap.batches_sent;
          egress_retries = snap.egress_retries;
          frames_per_sec = fps;
          matches_per_sec = per_sec snap.matches_enqueued s.rate.matches_enqueued elapsed;
          novelty_alerts_a = snap.novelty_alerts_a;
          novelty_alerts_b = snap.novelty_alerts_b;
          novelty_oversized_dropped = snap.novelty_oversized_dropped;
          novelty_mega_san_dropped = snap.novelty_mega_san_dropped;
          novelty_fully_ignored = snap.novelty_fully_ignored;
          novelty_coalitions_inserted = snap.novelty_coalitions_inserted;
          novelty_high_df_dropped = snap.novelty_high_df_dropped;
          novelty_calibrate_muted = snap.novelty_calibrate_muted;
          novelty_calibrating = ltb 0 snap.novelty_calibrating;
          novelty_alerts_per_hour = per_hour snap.novelty_alerts_a uptime_secs;
          alerts_file_bytes = alerts_file.0;
          alerts_file_lines = alerts_file.1;
          archive_events_written = snap.archive_events_written;
          archive_bytes_written = snap.archive_bytes_written;
          archive_dir = archive.archive_dir;
          archive_dir_bytes = archive.archive_dir_bytes;
          archive_max_total_bytes = archive.archive_max_total_bytes;
          archive_disk_warn = archive.archive_disk_warn;
          fs_available_bytes = archive.fs_available_bytes;
          fs_total_bytes = archive.fs_total_bytes;
          config_hash = archive.config_hash;
          snapshot_id = archive.snapshot_id;
          keep_up = keep_up_hint snap fps;
          product = product_hint snap uptime_secs s.egress;
        },
        record s {
          rate = record {
            frames_seen = snap.frames_seen;
            matches_enqueued = snap.matches_enqueued;
          };
        },
      )
