-- ===== src/Lib.antt =====
-- ct-firehose-filter, an edge filter for the Certificate Transparency firehose: a certificate's
-- names are matched against a watchlist of registrable domains, and a match is turned into an
-- alert when a coalition of brands that do not usually stand together is seen for the first time.
--
-- The parts, and how they work together (paths from the repository's root):
-- * Event (src/event.rs): `MatchEvent` and `FrameMeta`, which the other parts pass on.
-- * Dates (src/dates.rs): `unix_to_instant`.
-- * Watchlist (src/watchlist.rs): Host has `normalize_host` and `host_suffixes`, Names `etld1` and
--   `DomainWatchlist`, Inspect the loops of `inspect_outcome`, Hot `HotWatchlist` and the reading
--   of files. Keywords and Matching prove them equal to a rule without loops, `inspect_spec`.
-- * Parse (src/parse.rs): Frame is `parse_certstream_frame`, Update says what an update is, Leaf
--   which frames give a leaf.
-- * Novelty (src/novelty.rs): Table and Sql model the database and its statements, Store the
--   operations of `NoveltyStore`. Atomic, Capture and Stuck are about transactions, Counts and
--   Partners about what a co-occurrence writes, Keeps and Stable about what no operation loses.
-- * Alert (src/novelty_alert.rs): Policy, Brands and Process are `process_match` with all it calls,
--   Options `from_tiers` and `dedupe_key`.
--   Ensures, Counting, Hubs and Gates derive its alerts from the store; Funnel is about its
--   counters; Stability, Recorded, FirstSeen and Once are about alerting once.
-- * Metrics (src/metrics.rs): the counters. Sink (src/novelty_sink.rs, and `write_line` of
--   src/alerts_file.rs): Send is `send_batch`, Lines and Unique are about the lines it writes.
-- * Batch (src/batch.rs): Batcher has all operations, Prefix the bounds of a batch, Delivery one
--   round of sending, Run the loops. The sink is the send of the batcher.
-- * Pipeline (src/pipeline.rs): from the frames to the queue of matches, and what the parts get of
--   the configuration. Frames counts and queues, Delivery goes on to the sink of Batch.
-- * Ingress (src/ingress.rs): the reconnects and the loop of a connection. Backoff is about the
--   pauses, Order about the frames that are passed on.
-- * Config (src/config.rs): `Config::from_env` and `validate`; Loads is about what was loaded, and
--   what Batch and Ingress rely on.
-- * Chunks (src/alerts_file.rs, and src/archive.rs which has the same code): the names of rotated
--   files and the deletion of the oldest, Seal their compression. Names, Prune, Budget and Gone
--   prove what they are for.
-- * Archive (src/archive.rs): Event is the line of a match, Files the directory, Writer
--   `MatchArchive`, Snapshot `write_config_snapshot`, whose hashed text Hashed is about. Compact is
--   about the sample of names, Pruned about the pruning, Log, Sealing, Resealed, Rotated and
--   Recorded about lines that are kept, Lost about lines that are not.
-- * AlertsFile (src/alerts_file.rs): the rotation of the file of alerts and `write_line`; Lost is
--   about alerts that are not kept.
-- * Egress (src/egress.rs): the sinks for tests and for standard output; Sent is about the latter.
-- * Status (src/status.rs): what `/status` answers; Hints says what an answer tells.
-- * Process (src/main.rs): the watchlist at the start, and its task; Reload is about both.
-- * Prelude (shared by all): texts, lists, sets, order and machine integers. Tests has
--   runs and instances.
--
-- How the code is modelled:
-- * A text is the list of its code points, with the order of Rust's `str` and ASCII case mapping.
--   A `HashSet` is a list without duplicates; where the code sorts it, its order does not matter.
-- * A `u32` or `i64` that the code clamps is clamped; counts in SQLite are natural numbers and are
--   taken to stay below 2 ^ 63. An `f64` is a sign, mantissa and exponent, an infinity or NaN.
-- * Code outside the repository is a parameter: the Public Suffix List parser of crate `addr`
--   (`Psl`), the formatting of crate `chrono` (`Chrono`), the clock (`Clock`),
--   the JSON values of a frame (`Json`), the JSON and the compressed size of an archive's line, the
--   environment (`Env`).
-- * SQLite is a state of tables, an optional snapshot while a transaction is open, and a schedule
--   that says of each statement whether it is applied, fails, or fails and rolls the transaction
--   back; `COMMIT` and `ROLLBACK` have a schedule of their own. A theorem over all states is one
--   over all such failures. The values of `meta` are integers, since all statements that write
--   them write integers.
-- * A write or a flush that fails may have written a part of its text in Archive and Egress; in
--   AlertsFile it is taken to leave nothing.
-- * The `nudge` of the collector is a counter.
-- * The sink answers the batcher, and a write of a line ends, as a schedule says; after the
--   schedule's last entry every send and write succeeds. `run` takes arrivals and deadlines as a
--   list, whose end is the closing of the channel. The length of an event's JSON is a parameter.
--
-- All functions are total, and the loops are structural recursion. Only the sending loops of Batch
-- have fuel, the length of the buffer: enough, since each round sends an event, as Batch.Run shows.
--
-- Not modelled: the creation and migration of the database; JSON; sockets and files themselves,
-- whose calls are answered by inputs; the HTTP server; the other
-- tasks and the signals of src/main.rs; the measurements of examples. They are I/O, or are left for an
-- extension of this library.
pub mod Prelude
pub mod Event
pub mod Watchlist
pub mod Parse
pub mod Dates
pub mod Novelty
pub mod Alert
pub mod Metrics
pub mod Sink
pub mod Batch
pub mod Pipeline
pub mod Ingress
pub mod Config
pub mod Chunks
pub mod Archive
pub mod AlertsFile
pub mod Status
pub mod Process
pub mod Egress
pub mod Tests
