-- ===== src/Event.antt =====
-- src/event.rs: the payload that crosses the bounded channel, and a frame's metadata.
use ct_firehose_filter.Prelude.{ℕ, List, Option, length}
use ct_firehose_filter.Prelude.{Str}
use ct_firehose_filter.Prelude.Int.{F64, saturate_u32}

pub record MatchEvent : Type 0 where
  pub matched_domains : List Str
  pub matched_keywords : List Str
  pub seen : Option F64
  pub source : Option Str
  pub fingerprint : Option Str
  pub san_count : ℕ

abbrev pub new : List Str → List Str → Option F64 → Option Str → Option Str → MatchEvent
new matched_domains matched_keywords seen source fingerprint = record {
  matched_domains = matched_domains;
  matched_keywords = matched_keywords;
  seen = seen;
  source = source;
  fingerprint = fingerprint;
  san_count = saturate_u32 (length matched_domains);
}

abbrev pub with_san_count : MatchEvent → ℕ → MatchEvent
with_san_count ev san_count = record ev { san_count = san_count }

pub record FrameMeta : Type 0 where
  pub seen : Option F64
  pub source : Option Str
  pub fingerprint : Option Str
