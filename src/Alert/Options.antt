-- ===== src/Alert/Options.antt =====
-- src/novelty_alert.rs: `NoveltyPolicy::from_tiers` and `dedupe_key`. The environment is a
-- parameter.
use ct_firehose_filter.Prelude.{
  ℕ, Bool, not, ◌&&◌, ◌||◌, ◌==◌, Option, none, some, [], ◌∷◌, ◌++◌, map, any, is_empty,
  if◌then◌else◌, Str, codes, str_eq, sort, join, to_ascii_lowercase,
}
use ct_firehose_filter.Prelude.Int.{u32_max}
use ct_firehose_filter.Prelude.Numbers.{u64_max, parse_unsigned}
use ct_firehose_filter.Event.{MatchEvent}
use ct_firehose_filter.Novelty.Store.{dedup, join_csv}
use ct_firehose_filter.Alert.Policy.{NoveltyPolicy, default_policy}

-- A variable that is set to a number replaces the old value.
abbrev pub override : ℕ → Option Str → ℕ → ℕ
override most none old = old
override most (some raw) old = elim (parse_unsigned most raw) [ none ↦ old | some n ↦ n ]

abbrev pub has_tier : ℕ → ℕ → Str → Bool
has_tier upper lower raw = any (λ c. (c == upper) || (c == lower)) raw

abbrev raw_or_a : Option Str → Str
raw_or_a none = codes "A"
raw_or_a (some raw) = raw

unfoldable pub tiers_of : Bool → Bool → NoveltyPolicy
tiers_of want_a want_b =
    if not want_a && not want_b
    then default_policy
    else record default_policy { want_a = want_a; want_b = want_b }

unfoldable pub from_tiers : (Str → Option Str) → Option Str → NoveltyPolicy
unfolding tiers_of parse_unsigned
from_tiers env raw =
    let s = raw_or_a raw in
    let policy = tiers_of (has_tier b'A' b'a' s) (has_tier b'B' b'b' s) in
    record policy {
      max_coalition_len =
          override u64_max (env (codes "NOVELTY_MAX_COALITION")) policy.max_coalition_len;
      max_san_count = override u32_max (env (codes "NOVELTY_MAX_SANS")) policy.max_san_count;
      max_partner_degree =
          override u32_max (env (codes "NOVELTY_MAX_PARTNER_DEGREE")) policy.max_partner_degree;
      max_brand_df = override u32_max (env (codes "NOVELTY_MAX_BRAND_DF")) policy.max_brand_df;
      calibrate_secs =
          override u64_max (env (codes "NOVELTY_CALIBRATE_SECS")) policy.calibrate_secs;
      calibrate_events =
          override u64_max (env (codes "NOVELTY_CALIBRATE_EVENTS")) policy.calibrate_events;
    }

abbrev pub empty_sha1 : Str
empty_sha1 = codes "DA:39:A3:EE:5E:6B:4B:0D:32:55:BF:EF:95:60:18:90:AF:D8:07:09"

abbrev text_or_empty : Option Str → Str
text_or_empty none = []
text_or_empty (some s) = s

unfoldable pub dedupe_key : MatchEvent → Str
unfolding sort dedup join
dedupe_key ev =
    let domains = join_csv (dedup (sort (map to_ascii_lowercase ev.matched_domains))) in
    let fp = text_or_empty ev.fingerprint in
    if not (is_empty fp) && not (str_eq fp empty_sha1) then fp ++ (b'|' ∷ domains) else domains
