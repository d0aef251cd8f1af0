-- ===== src/Batch/Batcher.antt =====
-- src/batch.rs: `Batcher`. The length of an event's JSON (crate `serde_json`) is a parameter. The
-- sink answers each send as a schedule says; after the last answer it accepts all. Durations are
-- in milliseconds, and an `usize` has 64 bits.
use ct_firehose_filter.Prelude.{
  ℕ, zero, suc, ◌+◌, ◌-◌, ◌*◌, ◌^◌, ◌%◌, Bool, true, false, not, ◌&&◌, Option, none, some, List, [],
  ◌∷◌, ◌++◌, min, leb, ltb, length, is_empty, take, drop, if◌then◌else◌,
}
use ct_firehose_filter.Event.{MatchEvent}
use ct_firehose_filter.Metrics.{PipelineMetrics, fetch_add}

pub record BatchConfig : Type 0 where
  pub max_messages : ℕ
  pub max_bytes : ℕ
  pub flush_interval : ℕ

abbrev pub default_config : BatchConfig
default_config = record { max_messages = 10; max_bytes = 256 * 1024; flush_interval = 5000 }

pub record Batcher : Type 0 where
  pub buffer : List MatchEvent
  pub metrics : Option PipelineMetrics
  -- The sink: its answers to come, and the batches that it has accepted, in their order.
  pub answers : List Bool
  pub sent : List (List MatchEvent)
  -- The pauses before a send was tried again.
  pub pauses : List ℕ

-- How an operation ends; `no_fuel` stands for a loop that is not done.
pub data BatchResult : Type 0 where
  done not_json too_large no_fuel : BatchResult

abbrev pub usize_max : ℕ
usize_max = 2 ^ 64 - 1

abbrev pub saturating_add : ℕ → ℕ → ℕ
saturating_add a b = min (a + b) usize_max

abbrev pub longer_delay : ℕ → ℕ
longer_delay delay = min (delay * 2) 5000

abbrev on_metrics :
    (PipelineMetrics → PipelineMetrics) → Option PipelineMetrics → Option PipelineMetrics
on_metrics f none = none
on_metrics f (some m) = some (f m)

abbrev count_sent : PipelineMetrics → PipelineMetrics
count_sent m = record m { batches_sent = fetch_add m.batches_sent 1 }

abbrev count_retry : PipelineMetrics → PipelineMetrics
count_retry m = record m { egress_retries = fetch_add m.egress_retries 1 }

-- The first `n` events are accepted.
abbrev pub accepted : ℕ → List Bool → Batcher → Batcher
accepted n answers b = record b {
  buffer = drop n b.buffer;
  metrics = on_metrics count_sent b.metrics;
  answers = answers;
  sent = b.sent ++ (take n b.buffer ∷ []);
}

abbrev pub refused : ℕ → Batcher → Batcher
refused delay b = record b {
  metrics = on_metrics count_retry b.metrics;
  pauses = b.pauses ++ (delay ∷ []);
}

-- The loop of `send_prefix_with_retry`, over the answers of the sink.
unfoldable pub send_until_accepted : ℕ → ℕ → List Bool → Batcher → Batcher
send_until_accepted n delay [] b = accepted n [] b
send_until_accepted n delay (true ∷ rest) b = accepted n rest b
send_until_accepted n delay (false ∷ rest) b =
    send_until_accepted n (longer_delay delay) rest (refused delay b)

-- What `run` waits for: an event, or the deadline of the first buffered one.
pub data Input : Type 0 where
  received : MatchEvent → Input
  deadline : Input

module _ (serialized_len : MatchEvent → Option ℕ) (cfg : BatchConfig) where
  abbrev pub size_or_max : MatchEvent → ℕ
  size_or_max e = elim (serialized_len e) [ none ↦ usize_max | some n ↦ n ]

  abbrev pub size_or_zero : MatchEvent → ℕ
  size_or_zero e = elim (serialized_len e) [ none ↦ 0 | some n ↦ n ]

  abbrev pub total_size : List MatchEvent → ℕ
  total_size [] = 0
  total_size (e ∷ rest) = size_or_zero e + total_size rest

  -- The sum of `usize`s.
  unfoldable pub buffered_bytes : Batcher → ℕ
  buffered_bytes b = total_size b.buffer % 2 ^ 64

  -- The loop of `prefix_len` from `n` events of `bytes` bytes.
  unfoldable pub prefix_from : ℕ → ℕ → List MatchEvent → ℕ
  prefix_from bytes n [] = n
  prefix_from bytes n (e ∷ rest) =
      let size = size_or_max e in
      let later = prefix_from (saturating_add bytes size) (n + 1) rest in
      if leb cfg.max_messages n
      then n
      else if ltb cfg.max_bytes size
      then n
      else if ltb 0 n && ltb cfg.max_bytes (saturating_add bytes size)
      then n
      else later

  unfoldable pub prefix_len : Batcher → ℕ
  unfolding prefix_from
  prefix_len b = prefix_from 0 0 b.buffer

  unfoldable pub should_flush_now : Batcher → Bool
  should_flush_now b =
      if is_empty b.buffer
      then false
      else if leb cfg.max_messages (length b.buffer)
      then true
      else ltb cfg.max_bytes (buffered_bytes b) && leb 1 (prefix_len b)

  unfoldable pub send_prefix_with_retry : Batcher → BatchResult × Batcher
  send_prefix_with_retry b =
      if leb 1 (prefix_len b)
      then (BatchResult.done, send_until_accepted (prefix_len b) 10 b.answers b)
      else (BatchResult.too_large, b)

  abbrev pub on_done :
      BatchResult × Batcher → (Batcher → BatchResult × Batcher) → BatchResult × Batcher
  on_done (BatchResult.done, b) f = f b
  on_done (r, b) f = (r, b)

  -- `while test { send_prefix_with_retry()?; }`
  unfoldable pub send_while : (Batcher → Bool) → ℕ → Batcher → BatchResult × Batcher
  send_while test zero b = if test b then (BatchResult.no_fuel, b) else (BatchResult.done, b)
  send_while test (suc fuel) b =
      if test b
      then on_done (send_prefix_with_retry b) (send_while test fuel)
      else (BatchResult.done, b)

  -- Each round sends an event at least, so the buffer's length is fuel enough.
  unfoldable pub flush : Batcher → BatchResult × Batcher
  flush b = send_while (λ c. not (is_empty c.buffer)) (length b.buffer) b

  unfoldable pub flush_ready : Batcher → BatchResult × Batcher
  flush_ready b = send_while should_flush_now (length b.buffer) b

  unfoldable pub enqueue : MatchEvent → Batcher → BatchResult × Batcher
  enqueue e b = elim (serialized_len e) [
    | none ↦ (BatchResult.not_json, b)
    | some size ↦
        if ltb cfg.max_bytes size
        then (BatchResult.too_large, b)
        else (BatchResult.done, record b { buffer = b.buffer ++ (e ∷ []) })
  ]

  unfoldable pub push : MatchEvent → Batcher → BatchResult × Batcher
  push e b = on_done (enqueue e b) flush_ready

  -- `run` until the channel closes, which is the end of the list. The deadline is set only
  -- while events are buffered.
  unfoldable pub run : List Input → Batcher → BatchResult × Batcher
  run [] b = if is_empty b.buffer then (BatchResult.done, b) else flush b
  run (received e ∷ rest) b = on_done (push e b) (run rest)
  run (deadline ∷ rest) b = if is_empty b.buffer then run rest b else on_done (flush b) (run rest)
