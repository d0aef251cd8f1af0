-- ===== src/Alert/Policy.antt =====
-- src/novelty_alert.rs: the policy, and what a processed match yields.
use ct_firehose_filter.Prelude.{
  ℕ, Bool, true, false, Option, none, List, length, ltb, if◌then◌else◌, Str,
}
use ct_firehose_filter.Prelude.Int.{saturate_u32}
use ct_firehose_filter.Event.{MatchEvent}

-- src/archive.rs
abbrev pub match_archive_schema_version : ℕ
match_archive_schema_version = 1

-- The tier and what it carries.
pub data NoveltyKind : Type 0 where
  tier_a : List Str → NoveltyKind
  tier_b : Str → Str → List Str → NoveltyKind

pub record NoveltyAlert : Type 0 where
  pub schema_version : ℕ
  pub kind : NoveltyKind
  pub event : MatchEvent

pub record NoveltyPolicy : Type 0 where
  pub want_a : Bool
  pub want_b : Bool
  pub skip_routine : Bool
  pub max_coalition_len : ℕ
  pub max_san_count : ℕ
  pub max_partner_degree : ℕ
  pub max_brand_df : ℕ
  pub calibrating : Bool
  pub calibrate_secs : ℕ
  pub calibrate_events : ℕ
  pub emit_candidates : Bool

abbrev pub default_policy : NoveltyPolicy
default_policy = record {
  want_a = true;
  want_b = false;
  skip_routine = true;
  max_coalition_len = 5;
  max_san_count = 32;
  max_partner_degree = 25;
  max_brand_df = 25;
  calibrating = false;
  calibrate_secs = 0;
  calibrate_events = 0;
  emit_candidates = false;
}

pub record NoveltyCandidate : Type 0 where
  pub schema_version : ℕ
  pub kind : Str
  pub reason : Str
  pub coalition : List Str
  pub degrees : List (Str × ℕ)
  pub event_counts : List (Str × ℕ)
  pub fingerprint : Option Str

pub record ProcessStats : Type 0 where
  pub fully_ignored : ℕ
  pub alerts_a : ℕ
  pub alerts_b : ℕ
  pub coalitions_inserted : ℕ
  pub a_oversized_dropped : ℕ
  pub a_mega_san_dropped : ℕ
  pub a_high_df_dropped : ℕ
  pub a_calibrate_muted : ℕ
  pub candidate : Option NoveltyCandidate

abbrev pub no_stats : ProcessStats
no_stats = record {
  fully_ignored = 0;
  alerts_a = 0;
  alerts_b = 0;
  coalitions_inserted = 0;
  a_oversized_dropped = 0;
  a_mega_san_dropped = 0;
  a_high_df_dropped = 0;
  a_calibrate_muted = 0;
  candidate = none;
}

unfoldable pub effective_san_count : MatchEvent → ℕ
effective_san_count ev =
    if ltb 0 ev.san_count then ev.san_count else saturate_u32 (length ev.matched_domains)
