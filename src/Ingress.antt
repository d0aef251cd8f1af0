-- ===== src/Ingress.antt =====
-- src/ingress.rs: the reconnects of the CertStream client and the forwarding of its messages.
-- Durations are in milliseconds, which all of the program's are; a `Duration` holds 2 ^ 64 seconds.
-- The random seed of the jitter, the WebSocket's messages, and what the channel and the shutdown
-- do are inputs.
pub mod Backoff
pub mod Order
use ct_firehose_filter.Prelude.{
  ℕ, ◌+◌, ◌-◌, ◌*◌, ◌/◌, ◌%◌, ◌^◌, min, max, Bool, true, false, ◌||◌, Option, none, some, List, [],
  ◌∷◌, ◌++◌, leb, ltb, ◌==◌, if◌then◌else◌,
}
use ct_firehose_filter.Metrics.{PipelineMetrics, fetch_add}

pub record ReconnectPolicy : Type 0 where
  pub initial : ℕ
  pub most : ℕ
  pub ping_interval : ℕ

abbrev pub default_reconnect : ReconnectPolicy
default_reconnect = record { initial = 2000; most = 60000; ping_interval = 30000 }

-- `Duration::MAX`, without its part of a millisecond.
abbrev duration_max : ℕ
duration_max = 2 ^ 64 * 1000 - 1

unfoldable pub next_backoff : ℕ → ℕ → ℕ
next_backoff current most = max (min (min (current * 2) duration_max) most) 1

unfoldable pub with_jitter : ℕ → ℕ → ℕ
with_jitter seed current =
    if ltb (2 ^ 64 - 1) current
    then current
    else if leb current 1
    then current
    else (let half = current / 2 in let span = current - half in max (seed % (span + 1) + half) 1)

-- One round of the loop of `run_ingress_with_metrics`: what ends it, or the seed of its pause.
pub data Round : Type 0 where
  stopped_before closed_during stopped_in_pause : Round
  reconnects : ℕ → Round

pub record IngressState : Type 0 where
  pub delay : ℕ
  pub pauses : List ℕ
  pub metrics : Option PipelineMetrics

abbrev count_reconnect : Option PipelineMetrics → Option PipelineMetrics
count_reconnect none = none
count_reconnect (some m) = some (record m { reconnects = fetch_add m.reconnects 1 })

-- The loop, with a list of rounds; it ends when they do.
unfoldable pub run_ingress : ReconnectPolicy → List Round → IngressState → IngressState
run_ingress policy [] s = s
run_ingress policy (stopped_before ∷ rest) s = s
run_ingress policy (closed_during ∷ rest) s = s
run_ingress policy (stopped_in_pause ∷ rest) s = record s { metrics = count_reconnect s.metrics }
run_ingress policy (reconnects seed ∷ rest) s = run_ingress policy rest (record {
  delay = next_backoff s.delay policy.most;
  pauses = s.pauses ++ (with_jitter seed s.delay ∷ []);
  metrics = count_reconnect s.metrics;
})

-- What `drain_connection` meets in its loop.
pub data Message : Type 0 where
  text binary ping : List ℕ → Message
  pong frame close ended : Message
  failure : Message
  ping_due cancelled : Message

-- How a send to the channel or to the socket ends.
pub record Sends : Type 0 where
  pub to_channel : List Bool
  pub to_socket : List Bool

pub data DrainResult : Type 0 where
  closed io_error : DrainResult

pub record DrainState : Type 0 where
  pub forwarded : List (List ℕ)
  pub pongs : List (List ℕ)
  pub pings : ℕ
  pub sends : Sends

abbrev pub next_ok : List Bool → Bool
next_ok [] = true
next_ok (b ∷ rest) = b

abbrev pub later_ok : List Bool → List Bool
later_ok [] = []
later_ok (b ∷ rest) = rest

abbrev pub channel_takes : DrainState → Bool
channel_takes s = next_ok s.sends.to_channel

abbrev pub socket_takes : DrainState → Bool
socket_takes s = next_ok s.sends.to_socket

abbrev pub forward : List ℕ → DrainState → DrainState
forward bytes s = record s {
  forwarded = s.forwarded ++ (bytes ∷ []);
  sends = record s.sends { to_channel = later_ok s.sends.to_channel };
}

abbrev pub answer_ping : List ℕ → DrainState → DrainState
answer_ping payload s = record s {
  pongs = s.pongs ++ (payload ∷ []);
  sends = record s.sends { to_socket = later_ok s.sends.to_socket };
}

abbrev pub send_ping : DrainState → DrainState
send_ping s = record s {
  pings = s.pings + 1;
  sends = record s.sends { to_socket = later_ok s.sends.to_socket };
}

-- The loop of `drain_connection`. A list of messages that ends is a stream that ends.
unfoldable pub drain : List Message → DrainState → DrainResult × DrainState
drain [] s = (closed, s)
drain (text bytes ∷ rest) s =
    let later = drain rest (forward bytes s) in if channel_takes s then later else (closed, s)
drain (binary bytes ∷ rest) s =
    let later = drain rest (forward bytes s) in if channel_takes s then later else (closed, s)
drain (ping payload ∷ rest) s =
    let later = drain rest (answer_ping payload s) in if socket_takes s then later else (closed, s)
drain (ping_due ∷ rest) s =
    let later = drain rest (send_ping s) in if socket_takes s then later else (closed, s)
drain (pong ∷ rest) s = drain rest s
drain (frame ∷ rest) s = drain rest s
drain (close ∷ rest) s = (closed, s)
drain (ended ∷ rest) s = (closed, s)
drain (failure ∷ rest) s = (io_error, s)
drain (cancelled ∷ rest) s = (closed, s)
