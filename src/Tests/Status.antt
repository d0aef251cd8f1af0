-- ===== src/Tests/Status.antt =====
-- src/status.rs with whole numbers for the floating-point ones.
use ct_firehose_filter.Prelude.{
  ℕ, ◌*◌, ◌/◌, max, ltb, Option, none, some, List, [], ◌∷◌, Str, codes,
}
use ct_firehose_filter.Metrics.{PipelineMetrics}
use ct_firehose_filter.Status.{Floats, StatusState, build_status, new_status}
use ct_firehose_filter.Status.Hints.{IsTold, build_status-IsTold}
use ct_firehose_filter.Tests.Pipeline.{counters}

abbrev whole : Floats ℕ
whole = record {
  of_nat = λ n. n;
  milli = 0;
  mul = λ a b. a * b;
  div = λ a b. a / b;
  largest = λ a b. max a b;
  less = λ a b. ltb a b;
}

abbrev page : StatusState
page = record (new_status counters (codes "novelty") none (some (codes "alerts.jsonl"))) {
  metrics = record counters { frames_seen = 2000; matches_enqueued = 1500 };
}

abbrev busier : PipelineMetrics
busier = record counters { frames_seen = 2600; matches_enqueued = 1560 }

abbrev alerts : Str → Option (ℕ × Option (List (Option Str)))
alerts path = some (12, some (some (codes "{}") ∷ some [] ∷ none ∷ []))

build_status-IsTold_example :
    IsTold whole page.metrics busier 4060 60 page.egress
      (build_status whole 4060 60 alerts
        (record (build_status whole 4000 60 alerts page).1 { metrics = busier })).0
build_status-IsTold_example = build_status-IsTold whole 4000 60 4060 60 alerts alerts page busier
