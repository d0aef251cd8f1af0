-- ===== src/Pipeline.antt =====
-- src/pipeline.rs: from a frame to the queue of matches. The bounded channel answers each send as
-- a schedule says; after the last answer it has room. The research archive is the list of what it
-- was given to record, and a failed write changes nothing else.
pub mod Frames
pub mod Delivery
use ct_firehose_filter.Prelude.{
  ℕ, ◌*◌, Bool, true, false, Option, none, some, List, [], ◌∷◌, ◌++◌, if◌then◌else◌, Str,
}
use ct_firehose_filter.Event.{MatchEvent, FrameMeta}
use ct_firehose_filter.Metrics.{PipelineMetrics, fetch_add}
use ct_firehose_filter.Parse.Frame.{
  Json, LeafDomains, Frame, failed, skipped, got, parse_certstream_frame, frame_meta,
}
use ct_firehose_filter.Ingress.{ReconnectPolicy, default_reconnect}
use ct_firehose_filter.Batch.Batcher.{BatchConfig}
use ct_firehose_filter.Watchlist.Hot.{HotWatchlist, inspect_hot}

-- Durations are in milliseconds.
pub record PipelineConfig : Type 0 where
  pub channel_capacity : ℕ
  pub batch_max_messages : ℕ
  pub batch_max_bytes : ℕ
  pub flush_interval : ℕ
  pub reconnect_delay : ℕ
  pub reconnect_max_delay : ℕ

abbrev pub default_pipeline : PipelineConfig
default_pipeline = record {
  channel_capacity = 1024;
  batch_max_messages = 10;
  batch_max_bytes = 256 * 1024;
  flush_interval = 5000;
  reconnect_delay = 2000;
  reconnect_max_delay = 60000;
}

-- What `run_pipeline_with_archive` passes on of its configuration.
abbrev pub reconnect_policy : PipelineConfig → ReconnectPolicy
reconnect_policy c = record {
  initial = c.reconnect_delay;
  most = c.reconnect_max_delay;
  ping_interval = default_reconnect.ping_interval;
}

abbrev pub batch_config : PipelineConfig → BatchConfig
batch_config c = record {
  max_messages = c.batch_max_messages;
  max_bytes = c.batch_max_bytes;
  flush_interval = c.flush_interval;
}

pub data TryProcessResult : Type 0 where
  enqueued no_match channel_full channel_closed : TryProcessResult

-- How a send ends: there is room; the channel is full and has room later; it is full until the
-- shutdown or until it is closed; it is closed.
pub data SendAnswer : Type 0 where
  room full_then_room full_then_stop closed : SendAnswer

pub record PipelineState : Type 0 where
  pub metrics : PipelineMetrics
  pub queue : List MatchEvent
  pub archived : List (MatchEvent × List Str)
  pub sends : List SendAnswer

abbrev next_send : List SendAnswer → SendAnswer
next_send [] = SendAnswer.room
next_send (a ∷ rest) = a

abbrev later_sends : List SendAnswer → List SendAnswer
later_sends [] = []
later_sends (a ∷ rest) = rest

abbrev pub count_ignored : PipelineState → PipelineState
count_ignored s = record s {
  metrics = record s.metrics { frames_ignored = fetch_add s.metrics.frames_ignored 1 };
}

abbrev pub count_malformed : PipelineState → PipelineState
count_malformed s = record s {
  metrics = record s.metrics { frames_malformed = fetch_add s.metrics.frames_malformed 1 };
}

abbrev pub count_suppressed : PipelineState → PipelineState
count_suppressed s = record s {
  metrics = record s.metrics { matches_suppressed = fetch_add s.metrics.matches_suppressed 1 };
}

abbrev pub count_full : PipelineState → PipelineState
count_full s = record s {
  metrics = record s.metrics { channel_full = fetch_add s.metrics.channel_full 1 };
}

abbrev pub enqueue_match : MatchEvent → PipelineState → PipelineState
enqueue_match e s = record s {
  metrics = record s.metrics { matches_enqueued = fetch_add s.metrics.matches_enqueued 1 };
  queue = s.queue ++ (e ∷ []);
}

-- `match match_tx.try_send(event)`. The Boolean tells whether the loop goes on.
abbrev pub send_answered : MatchEvent → SendAnswer → PipelineState → Bool × PipelineState
send_answered e SendAnswer.room s = (true, enqueue_match e s)
send_answered e SendAnswer.full_then_room s = (true, enqueue_match e (count_full s))
send_answered e SendAnswer.full_then_stop s = (false, count_full s)
send_answered e SendAnswer.closed s = (false, s)

abbrev pub send_match : MatchEvent → PipelineState → Bool × PipelineState
send_match e s = send_answered e (next_send s.sends) (record s { sends = later_sends s.sends })

-- An error of `record_enqueued` is only logged, so the pipeline goes on alike whatever it answers;
-- which of the matches that it is given the archive keeps is said in Archive.
abbrev pub archive_match : Bool → MatchEvent → List Str → PipelineState → PipelineState
archive_match true e domains s = record s { archived = s.archived ++ ((e, domains) ∷ []) }
archive_match false e domains s = s

-- What becomes of the inspection of a leaf.
unfoldable pub handle_outcome :
    Bool → List Str → Option MatchEvent → Bool → PipelineState → Bool × PipelineState
handle_outcome has_archive domains (some event) fully_suppressed s =
    send_match event
      (archive_match has_archive event domains (if fully_suppressed then count_suppressed s else s))
handle_outcome has_archive domains none true s = (true, count_suppressed s)
handle_outcome has_archive domains none false s = (true, count_ignored s)

unfoldable pub handle_parsed :
    Bool → HotWatchlist → Frame LeafDomains → PipelineState → Bool × PipelineState
handle_parsed has_archive watchlist skipped s = (true, count_ignored s)
handle_parsed has_archive watchlist (failed e) s = (true, count_malformed s)
handle_parsed has_archive watchlist (got leaf) s =
    let outcome = inspect_hot watchlist leaf.domains (frame_meta leaf) in
    handle_outcome has_archive leaf.domains outcome.event outcome.fully_suppressed s

abbrev count_seen : PipelineState → PipelineState
count_seen s = record s {
  metrics = record s.metrics { frames_seen = fetch_add s.metrics.frames_seen 1 };
}

module _ {V O : Type 0} (j : Json V O) where
  -- The body of the loop over the frames.
  unfoldable pub handle_frame : Bool → HotWatchlist → List ℕ → PipelineState → Bool × PipelineState
  handle_frame has_archive watchlist bytes s =
      handle_parsed has_archive watchlist (parse_certstream_frame j bytes) (count_seen s)

abbrev pub try_answered : SendAnswer → TryProcessResult
try_answered SendAnswer.room = enqueued
try_answered SendAnswer.full_then_room = channel_full
try_answered SendAnswer.full_then_stop = channel_full
try_answered SendAnswer.closed = channel_closed

-- `MatchEnqueue::try_process_domains`, by what `try_send` answers.
unfoldable pub try_process : SendAnswer → Option MatchEvent → TryProcessResult
try_process answer none = no_match
try_process answer (some event) = try_answered answer

unfoldable pub try_process_domains :
    HotWatchlist → SendAnswer → List Str → FrameMeta → TryProcessResult
try_process_domains watchlist answer domains meta =
    try_process answer (inspect_hot watchlist domains meta).event

module _ {V O : Type 0} (j : Json V O) (has_archive : Bool) (watchlist : HotWatchlist) where
  abbrev pub while_going :
      Bool × PipelineState → (PipelineState → Bool × PipelineState) → Bool × PipelineState
  while_going (true, s) next = next s
  while_going (false, s) next = (false, s)

  -- The loop over the frames, until it stops.
  unfoldable pub handle_frames : List (List ℕ) → PipelineState → Bool × PipelineState
  handle_frames [] s = (true, s)
  handle_frames (bytes ∷ rest) s =
      while_going (handle_frame j has_archive watchlist bytes s) (handle_frames rest)
