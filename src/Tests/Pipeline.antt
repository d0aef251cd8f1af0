-- ===== src/Tests/Pipeline.antt =====
-- src/pipeline.rs on two frames.
use ct_firehose_filter.Pipeline.{handle_outcome, handle_parsed}
use ct_firehose_filter.Parse.Frame.{
  domains_of, leaf_of, leaf_of_update, object_field, parse_certstream_frame, strings_of,
}
use ct_firehose_filter.Watchlist.Inspect.{inspect_outcome}
use ct_firehose_filter.Watchlist.Host.{host_suffixes, normalize_host}
use ct_firehose_filter.Prelude.Sets.{insert}
use ct_firehose_filter.Prelude.{◌≡◌, refl, true, none, some, List, [], ◌∷◌, ℕ, map, codes}
use ct_firehose_filter.Event.{MatchEvent}
use ct_firehose_filter.Metrics.{PipelineMetrics}
use ct_firehose_filter.Watchlist.Hot.{HotWatchlist, inspect_hot}
use ct_firehose_filter.Pipeline.{PipelineState, SendAnswer, handle_frame, handle_frames}
use ct_firehose_filter.Pipeline.Frames.{IsAccounted, Queues, event_of}
use ct_firehose_filter.Pipeline.Delivery.{matches_of, handle_frames-Queues, handle_frames-Delivers}
use ct_firehose_filter.Batch.Batcher.{Batcher, received, deadline, run}
use ct_firehose_filter.Batch.Delivery.{concat}
use ct_firehose_filter.Tests.Data.{alpha}
use ct_firehose_filter.Tests.Parse.{frame_json}
use ct_firehose_filter.Tests.Batch.{forty, config, usable}

abbrev watchlist : HotWatchlist
watchlist = record { inner = record { names = alpha ∷ []; suppress = [] } }

abbrev pub counters : PipelineMetrics
counters = record {
  frames_seen = 0;
  frames_ignored = 0;
  frames_malformed = 0;
  matches_enqueued = 0;
  matches_suppressed = 0;
  channel_full = 0;
  reconnects = 0;
  batches_sent = 0;
  egress_retries = 0;
  novelty_alerts_a = 0;
  novelty_alerts_b = 0;
  novelty_oversized_dropped = 0;
  novelty_mega_san_dropped = 0;
  novelty_fully_ignored = 0;
  novelty_coalitions_inserted = 0;
  novelty_high_df_dropped = 0;
  novelty_calibrate_muted = 0;
  novelty_calibrating = 0;
  archive_events_written = 0;
  archive_bytes_written = 0;
}

abbrev start : PipelineState
start = record {
  metrics = counters;
  queue = [];
  archived = [];
  sends = SendAnswer.full_then_room ∷ [];
}

abbrev frames : List (List ℕ)
frames = codes "{}" ∷ codes "[]" ∷ []

abbrev event : MatchEvent
event = record {
  matched_domains = alpha ∷ alpha ∷ [];
  matched_keywords = alpha ∷ [];
  seen = none;
  source = none;
  fingerprint = some alpha;
  san_count = 2;
}

abbrev empty_batcher : Batcher
empty_batcher = record { buffer = []; metrics = none; answers = []; sent = []; pauses = [] }

goes_on : (handle_frames frame_json true watchlist frames start).0 ≡ true
unfolding handle_frames handle_frame handle_parsed parse_certstream_frame leaf_of_update
    object_field domains_of strings_of handle_outcome inspect_hot inspect_outcome leaf_of
    normalize_host host_suffixes insert
goes_on = refl

queued : event ∷ event ∷ [] ≡ (handle_frames frame_json true watchlist frames start).1.queue
unfolding handle_frames handle_frame handle_parsed parse_certstream_frame leaf_of_update
    object_field domains_of strings_of handle_outcome inspect_hot inspect_outcome leaf_of
    normalize_host host_suffixes insert
queued = refl

handle_frames-Queues_example :
    IsAccounted (handle_frames frame_json true watchlist frames start).1
    × Queues true
        (matches_of frame_json true watchlist frames)
        start
        (handle_frames frame_json true watchlist frames start).1
handle_frames-Queues_example =
    handle_frames-Queues frame_json true watchlist frames start refl goes_on

handle_frames-Delivers_example :
    concat (run forty config (received event ∷ deadline ∷ received event ∷ []) empty_batcher).1.sent
    ≡ map event_of (matches_of frame_json true watchlist frames)
unfolding parse_certstream_frame leaf_of_update object_field domains_of strings_of leaf_of
    normalize_host host_suffixes
handle_frames-Delivers_example =
    handle_frames-Delivers frame_json true watchlist forty config frames start empty_batcher
      (received event ∷ deadline ∷ received event ∷ []) usable refl refl refl refl goes_on queued
      refl
