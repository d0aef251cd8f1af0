-- ===== src/Tests/Sink.antt =====
-- src/novelty_sink.rs on small inputs.
use ct_firehose_filter.Prelude.{◌≡◌, true, false, none, [], ◌∷◌, Str, contains, arith}
use ct_firehose_filter.Prelude.Int.{pos}
use ct_firehose_filter.Novelty.Keeps.{Holds}
use ct_firehose_filter.Alert.Policy.{default_policy}
use ct_firehose_filter.Alert.Recorded.{Recorded}
use ct_firehose_filter.Sink.Send.{WriteEnding, SinkConfig, NoveltySink}
use ct_firehose_filter.Sink.Lines.{IsUnique}
use ct_firehose_filter.Sink.Unique.{send_batches, send_batches-IsUnique}
use ct_firehose_filter.Tests.Data.{clock, pair_event, same_event, failing_store}

abbrev config : SinkConfig
config = record {
  ignore = [];
  policy = default_policy;
  has_candidates = false;
  clock_at = λ n. clock;
  now_at = λ n. pos 100;
}

abbrev new_sink : NoveltySink
new_sink = record {
  store = failing_store;
  alerts = [];
  candidates = [];
  metrics = none;
  writes = WriteEnding.unsure ∷ WriteEnding.lost ∷ [];
  matches = 0;
}

nothing_kept : (k : Str) → contains [] k ≡ true → Holds (Recorded k) failing_store
nothing_kept k h = absurd (ground arith)

-- The first send fails in the database, the second after its line is written.
send_batches-IsUnique_example : IsUnique (
    send_batches config
      ((pair_event ∷ same_event ∷ []) ∷ (pair_event ∷ same_event ∷ []) ∷ (pair_event ∷ []) ∷ [])
      new_sink)
send_batches-IsUnique_example =
    send_batches-IsUnique config
      ((pair_event ∷ same_event ∷ []) ∷ (pair_event ∷ same_event ∷ []) ∷ (pair_event ∷ []) ∷ [])
      new_sink (record { nodup = tt; kept = nothing_kept })
