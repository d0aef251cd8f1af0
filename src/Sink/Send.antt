-- ===== src/Sink/Send.antt =====
-- src/novelty_sink.rs: `send_batch`. The writing of a line (src/alerts_file.rs) ends as a schedule
-- says: a failed write may have left the line in the file or in the writer's buffer.
use ct_firehose_filter.Prelude.{ℕ, ◌+◌, Bool, true, false, Option, none, some, List, [], ◌∷◌, Str}
use ct_firehose_filter.Prelude.Int.{ℤ}
use ct_firehose_filter.Event.{MatchEvent}
use ct_firehose_filter.Metrics.{PipelineMetrics, record_novelty, set_novelty_calibrating}
use ct_firehose_filter.Novelty.Sql.{NoveltyStore, Result, ok, err, Sql}
use ct_firehose_filter.Novelty.Store.{Clock, is_calibrating}
use ct_firehose_filter.Alert.Policy.{NoveltyAlert, NoveltyCandidate, NoveltyPolicy, ProcessStats}
use ct_firehose_filter.Alert.Process.{process_match}

-- How `write_line` ends: without an error; with one, but the line is or will be in the file; with
-- one, and the line is lost, as is a line whose JSON cannot be made.
pub data WriteEnding : Type 0 where
  written unsure lost : WriteEnding

-- What `open` fixes, with the clock's readings: the ones of the n-th match.
pub record SinkConfig : Type 0 where
  pub ignore : List Str
  pub policy : NoveltyPolicy
  pub has_candidates : Bool
  pub clock_at : ℕ → Clock
  pub now_at : ℕ → ℤ

-- The files' lines stand newest first.
pub record NoveltySink : Type 0 where
  pub store : NoveltyStore
  pub alerts : List NoveltyAlert
  pub candidates : List NoveltyCandidate
  pub metrics : Option PipelineMetrics
  pub writes : List WriteEnding
  pub matches : ℕ

abbrev pub Sink : Type 0 → Type 0
Sink A = NoveltySink → Result A × NoveltySink

abbrev pub and_then : {A B : Type 0} → Result A → (A → Sink B) → Sink B
and_then (ok a) f s = f a s
and_then err f s = (err, s)

infixl 10 ◌>>=◌ ◌>>◌
unfoldable pub ◌>>=◌ : {A B : Type 0} → Sink A → (A → Sink B) → Sink B
◌>>=◌ m f s = and_then (m s).0 f (m s).1

abbrev pub ◌>>◌ : {A B : Type 0} → Sink A → Sink B → Sink B
m >> k = m >>= λ _. k

abbrev pub done : Sink (Unit {0})
done s = (ok tt, s)

-- A call of the store.
unfoldable pub on_store : {A : Type 0} → Sql A → Sink A
on_store m s = ((m s.store).0, record s { store = (m s.store).1 })

abbrev pub next_write : List WriteEnding → WriteEnding
next_write [] = WriteEnding.written
next_write (e ∷ rest) = e

abbrev pub later_writes : List WriteEnding → List WriteEnding
later_writes [] = []
later_writes (e ∷ rest) = rest

abbrev on_metrics :
    (PipelineMetrics → PipelineMetrics) → Option PipelineMetrics → Option PipelineMetrics
on_metrics f none = none
on_metrics f (some m) = some (f m)

unfoldable pub count : (PipelineMetrics → PipelineMetrics) → Sink (Unit {0})
count f s = (ok tt, record s { metrics = on_metrics f s.metrics })

abbrev pub append_alert : NoveltyAlert → WriteEnding → Sink (Unit {0})
append_alert a WriteEnding.written s = (ok tt, record s { alerts = a ∷ s.alerts })
append_alert a WriteEnding.unsure s = (err, record s { alerts = a ∷ s.alerts })
append_alert a WriteEnding.lost s = (err, s)

unfoldable pub write_alert : NoveltyAlert → Sink (Unit {0})
write_alert a s = append_alert a (next_write s.writes) (record s { writes = later_writes s.writes })

unfoldable pub write_alerts : List NoveltyAlert → Sink (Unit {0})
write_alerts [] = done
write_alerts (a ∷ rest) = write_alert a >> write_alerts rest

abbrev pub append_candidate : NoveltyCandidate → WriteEnding → Sink (Unit {0})
append_candidate c WriteEnding.written s = (ok tt, record s { candidates = c ∷ s.candidates })
append_candidate c WriteEnding.unsure s = (err, record s { candidates = c ∷ s.candidates })
append_candidate c WriteEnding.lost s = (err, s)

unfoldable pub write_candidate : Bool → Option NoveltyCandidate → Sink (Unit {0})
write_candidate true (some c) s =
    append_candidate c (next_write s.writes) (record s { writes = later_writes s.writes })
write_candidate true none s = done s
write_candidate false c s = done s

unfoldable pub next_match : Sink ℕ
next_match s = (ok s.matches, record s { matches = s.matches + 1 })

-- What is written of a processed match.
unfoldable pub report : SinkConfig → List NoveltyAlert → ProcessStats → Sink (Unit {0})
report cfg alerts stats = do
  count (record_novelty stats)
  write_alerts alerts
  write_candidate cfg.has_candidates stats.candidate

unfoldable pub process_one : SinkConfig → ℕ → Bool → MatchEvent → Sink (Unit {0})
process_one cfg n calibrating ev = do
  outcome ← on_store (
      process_match (cfg.clock_at n) cfg.ignore (record cfg.policy { calibrating = calibrating })
        ev)
  report cfg outcome.0 outcome.1

-- The body of the loop over the batch.
unfoldable pub send_one : SinkConfig → MatchEvent → Sink (Unit {0})
send_one cfg ev = do
  n ← next_match
  calibrating ←
      on_store (is_calibrating (cfg.now_at n) cfg.policy.calibrate_secs cfg.policy.calibrate_events)
  count (set_novelty_calibrating calibrating)
  process_one cfg n calibrating ev

unfoldable pub send_all : SinkConfig → List MatchEvent → Sink (Unit {0})
send_all cfg [] = done
send_all cfg (ev ∷ rest) = send_one cfg ev >> send_all cfg rest

unfoldable pub send_batch : SinkConfig → List MatchEvent → Sink (Unit {0})
send_batch cfg [] s = (err, s)
send_batch cfg (ev ∷ rest) s = send_all cfg (ev ∷ rest) s
