-- ===== src/Archive/Event.antt =====
-- src/archive.rs: the line of a match, and when to warn of a full disk. The clock is an argument.
use ct_firehose_filter.Prelude.{
  ℕ, ◌-◌, ◌*◌, ◌/◌, Bool, true, false, ◌||◌, ◌==◌, Option, none, some, List, [], ◌∷◌, ◌++◌, length,
  leb, ltb, min, if◌then◌else◌, Str, codes, contains,
}
use ct_firehose_filter.Prelude.Int.{ℤ, pos, F64, i64_max}
use ct_firehose_filter.Prelude.Sets.{insert}
use ct_firehose_filter.Prelude.Numbers.{u64_max}
use ct_firehose_filter.Event.{MatchEvent}

-- What `statvfs` gives: the size of a fragment, and how many there are, free for users and in all.
pub record Statvfs : Type 0 where
  pub frsize : ℕ
  pub bavail : ℕ
  pub blocks : ℕ

pub record FilesystemUsage : Type 0 where
  pub available_bytes : ℕ
  pub total_bytes : ℕ

abbrev checked_mul : ℕ → ℕ → Option ℕ
checked_mul a b = if leb (a * b) u64_max then some (a * b) else none

abbrev usage_of : Option ℕ → Option ℕ → Option FilesystemUsage
usage_of none total = none
usage_of (some available) none = none
usage_of (some available) (some total) =
    some (record { available_bytes = available; total_bytes = total })

-- Of what the system call answered, if it did.
unfoldable pub filesystem_usage : Option Statvfs → Option FilesystemUsage
filesystem_usage none = none
filesystem_usage (some stat) =
    if stat.frsize == 0
    then none
    else usage_of (checked_mul stat.bavail stat.frsize) (checked_mul stat.blocks stat.frsize)

abbrev saturating_mul : ℕ → ℕ → ℕ
saturating_mul a b = min (a * b) u64_max

abbrev cap_does_not_fit : Option ℕ → ℕ → Bool
cap_does_not_fit none remaining = false
cap_does_not_fit (some available) remaining = ltb available remaining

unfoldable pub archive_disk_warn : ℕ → ℕ → ℕ → Option ℕ → Bool
archive_disk_warn bytes disk_warn_bytes max_total_bytes fs_available_bytes =
    if leb disk_warn_bytes bytes
    then true
    else if max_total_bytes == 0
    then false
    else if leb (saturating_mul max_total_bytes 8 / 10) bytes
    then true
    else cap_does_not_fit fs_available_bytes (max_total_bytes - bytes)

pub record MatchArchiveEvent : Type 0 where
  pub schema_version : ℕ
  pub ingest_ts_unix : ℤ
  pub config_hash : Str
  pub snapshot_id : Str
  pub all_domains : List Str
  pub all_domains_truncated : Bool
  pub matched_domains : List Str
  pub matched_keywords : List Str
  pub seen : Option F64
  pub source : Option Str
  pub fingerprint : Option Str
  pub san_count : ℕ
  pub drop_stage : Str

pub record ConfigProvenance : Type 0 where
  pub config_hash : Str
  pub snapshot_id : Str

-- The seconds since 1970, of a clock that may stand before it.
abbrev ingest_ts : Option ℕ → ℤ
ingest_ts none = pos 0
ingest_ts (some secs) = pos (min secs i64_max)

abbrev pub from_match :
    Option ℕ → MatchEvent → List Str → Bool → ConfigProvenance → MatchArchiveEvent
from_match now ev all_domains truncated prov = record {
  schema_version = 1;
  ingest_ts_unix = ingest_ts now;
  config_hash = prov.config_hash;
  snapshot_id = prov.snapshot_id;
  all_domains = all_domains;
  all_domains_truncated = truncated;
  matched_domains = ev.matched_domains;
  matched_keywords = ev.matched_keywords;
  seen = ev.seen;
  source = ev.source;
  fingerprint = ev.fingerprint;
  san_count = ev.san_count;
  drop_stage = codes "enqueued";
}

pub record Sample : Type 0 where
  pub out : List Str
  pub seen : List Str

-- `if seen.insert(d) { out.push(d) }`
unfoldable pub add_domain : Str → Sample → Sample
unfolding insert
add_domain d s =
    if contains s.seen d then s else record { out = s.out ++ (d ∷ []); seen = insert d s.seen }

-- One of the two loops.
unfoldable pub add_domains : ℕ → List Str → Sample → Sample
unfolding add_domain
add_domains limit [] s = s
add_domains limit (d ∷ domains) s =
    let later = add_domains limit domains (add_domain d s) in
    if leb limit (length s.out) then s else later

unfoldable pub compact_all_domains : List Str → List Str → ℕ → List Str × Bool
unfolding add_domains
compact_all_domains all_domains matched_domains limit =
    if (limit == 0) || leb (length all_domains) limit then (all_domains, false) else (
      (add_domains limit all_domains
          (add_domains limit matched_domains (record { out = []; seen = [] }))).out,
      true,
    )
