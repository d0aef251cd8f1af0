-- ===== src/Tests/Batch.antt =====
-- src/batch.rs on small inputs.
use ct_firehose_filter.Prelude.{
  ℕ, ◌≤◌, refl, true, false, Option, none, some, List, [], ◌∷◌, take, arith,
}
use ct_firehose_filter.Event.{MatchEvent}
use ct_firehose_filter.Batch.Batcher.{
  BatchConfig, Batcher, Input, received, deadline, run, flush_ready, should_flush_now, prefix_len,
  total_size,
}
use ct_firehose_filter.Batch.Prefix.{prefix_len-bounds}
use ct_firehose_filter.Batch.Delivery.{IsUsable, IsValid}
use ct_firehose_filter.Batch.Run.{
  Completes, Delivers, events_of, flush_ready-Completes, run-Delivers,
}
use ct_firehose_filter.Tests.Data.{pair_event, same_event}

-- Every event is 40 bytes long.
abbrev pub forty : MatchEvent → Option ℕ
forty e = some 40

abbrev pub config : BatchConfig
config = record { max_messages = 3; max_bytes = 100; flush_interval = 5000 }

abbrev batcher : List MatchEvent → Batcher
batcher buffer = record {
  buffer = buffer;
  metrics = none;
  answers = false ∷ true ∷ false ∷ false ∷ [];
  sent = [];
  pauses = [];
}

abbrev three : List MatchEvent
three = pair_event ∷ same_event ∷ pair_event ∷ []

abbrev arrivals : List Input
arrivals = received pair_event ∷ deadline ∷ received same_event ∷ received pair_event ∷ []

pub usable : IsUsable forty config
usable = record { bytes = omega arith; messages = omega arith }

three-IsValid : IsValid forty config (batcher three)
three-IsValid = record { fit = refl; batches = tt }

prefix_len-bounds_example :
    (prefix_len forty config (batcher three) ≤ 3)
    × (prefix_len forty config (batcher three) ≤ 3)
    × (total_size forty config (take (prefix_len forty config (batcher three)) three) ≤ 100)
prefix_len-bounds_example = prefix_len-bounds forty config (batcher three) (omega arith)

flush_ready-Completes_example :
    Completes forty config
      (should_flush_now forty config)
      (batcher three)
      (flush_ready forty config (batcher three))
flush_ready-Completes_example =
    flush_ready-Completes forty config (batcher three) usable three-IsValid

run-Delivers_example :
    Delivers forty config
      (events_of arrivals)
      (batcher three)
      (run forty config arrivals (batcher three))
run-Delivers_example = run-Delivers forty config arrivals (batcher three) usable three-IsValid refl
