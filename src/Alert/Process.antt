-- ===== src/Alert/Process.antt =====
-- src/novelty_alert.rs, `process_match`, one function for each of its branches.
use ct_firehose_filter.Prelude.{
  ℕ, Bool, not, ◌&&◌, ◌||◌, Option, none, some, List, [], ◌∷◌, length, is_empty, leb, ltb, ◌==◌,
  if◌then◌else◌, Str, codes,
}
use ct_firehose_filter.Prelude.Int.{ℤ}
use ct_firehose_filter.Event.{MatchEvent}
use ct_firehose_filter.Novelty.Sql.{Sql, ◌>>=◌, ◌>>◌, pure}
use ct_firehose_filter.Novelty.Store.{
  partner_degree, event_count, record_cooccurrence, record_appearances, insert_coalition,
  insert_host, insert_multi_brand_cert, Clock, join_fields,
}
use ct_firehose_filter.Alert.Policy.{
  NoveltyPolicy, NoveltyAlert, NoveltyCandidate, ProcessStats, tier_a, tier_b, no_stats,
  match_archive_schema_version, effective_san_count,
}
use ct_firehose_filter.Alert.Brands.{
  unique_keywords, normalized_hosts, is_routine_host, event_ts, tier_a_brands,
}

abbrev pub Outcome : Type 0
Outcome = List NoveltyAlert × ProcessStats

unfoldable pub counts_of : List Str → Sql (List (Str × ℕ) × List (Str × ℕ))
counts_of [] = pure ([], [])
counts_of (b ∷ rest) = do
  degree ← partner_degree b
  events ← event_count b
  later ← counts_of rest
  pure ((b, degree) ∷ later.0, (b, events) ∷ later.1)

unfoldable pub maybe_candidate :
    NoveltyPolicy → List Str → List Str → MatchEvent → Str → Sql (Option NoveltyCandidate)
maybe_candidate policy full coalition ev reason =
    if not policy.emit_candidates then pure none else do
      counts ← counts_of full
      pure (
          some (record {
            schema_version = match_archive_schema_version;
            kind = codes "candidate";
            reason = reason;
            coalition = coalition;
            degrees = counts.0;
            event_counts = counts.1;
            fingerprint = ev.fingerprint;
          }))

-- The event's keywords are counted first, whatever comes of it.
unfoldable pub record_brands : List Str → Sql (Unit {0})
record_brands full =
    if leb 2 (length full)
    then record_cooccurrence full
    else if not (is_empty full)
    then record_appearances full
    else pure tt

-- A coalition that is left with fewer than two low-df brands.
unfoldable pub record_high_df :
    NoveltyPolicy → List Str → List Str → MatchEvent → ℤ → Sql ProcessStats
record_high_df policy full coalition ev ts = do
  is_new ← insert_coalition (join_fields full) ts
  if is_new
      then (do
        candidate ← maybe_candidate policy full coalition ev (codes "high_df")
        pure (record no_stats {
          coalitions_inserted = 1;
          a_high_df_dropped = 1;
          candidate = candidate;
        }))
      else pure no_stats

-- No low-df brand is left.
unfoldable pub process_none : Clock → NoveltyPolicy → List Str → MatchEvent → Sql Outcome
process_none clock policy full ev =
    if leb 2 (length full)
    then (do
      stats ← record_high_df policy full full ev (event_ts clock.event_now ev)
      pure ([], stats))
    else pure ([], record no_stats { fully_ignored = 1 })

unfoldable pub insert_hosts_of : Str → ℤ → List Str → Sql (Unit {0})
insert_hosts_of brand ts [] = pure tt
insert_hosts_of brand ts (host ∷ rest) = insert_host brand host ts >> insert_hosts_of brand ts rest

unfoldable pub insert_hosts : ℤ → List Str → List Str → Sql (Unit {0})
insert_hosts ts hosts [] = pure tt
insert_hosts ts hosts (brand ∷ rest) = insert_hosts_of brand ts hosts >> insert_hosts ts hosts rest

abbrev pub is_oversized : NoveltyPolicy → List Str → Bool
is_oversized policy brands = ltb policy.max_coalition_len (length brands)

abbrev pub is_mega_san : NoveltyPolicy → MatchEvent → Bool
is_mega_san policy ev =
    ltb 0 policy.max_san_count && ltb policy.max_san_count (effective_san_count ev)

unfoldable pub want_emit : NoveltyPolicy → List Str → MatchEvent → Bool
unfolding effective_san_count
want_emit policy brands ev =
    policy.want_a
    && (leb (length brands) policy.max_coalition_len
        && (((policy.max_san_count == 0) || leb (effective_san_count ev) policy.max_san_count)
            && not policy.calibrating))

abbrev pub alert_a : List Str → MatchEvent → NoveltyAlert
alert_a brands ev = record {
  schema_version = match_archive_schema_version;
  kind = tier_a brands;
  event = ev;
}

-- What is told of a coalition that is new.
unfoldable pub report_new :
    NoveltyPolicy → List Str → List Str → MatchEvent → ProcessStats → Sql Outcome
report_new policy full brands ev stats =
    if is_oversized policy brands
    then pure ([], record stats { a_oversized_dropped = 1 })
    else if is_mega_san policy ev
    then pure ([], record stats { a_mega_san_dropped = 1 })
    else if policy.calibrating
    then (do
      candidate ← maybe_candidate policy full brands ev (codes "calibrating")
      pure ([], record stats { a_calibrate_muted = 1; candidate = candidate }))
    else (do
      candidate ← maybe_candidate policy full brands ev (codes "tier_a")
      pure (alert_a brands ev ∷ [], record stats { alerts_a = 1; candidate = candidate }))

-- Two or more low-df brands are left.
unfoldable pub process_coalition :
    Clock → NoveltyPolicy → List Str → List Str → MatchEvent → Sql Outcome
process_coalition clock policy full brands ev = do
  let ts = event_ts clock.event_now ev
  is_new ←
      (if want_emit policy brands ev
        then insert_multi_brand_cert clock brands ev ts
        else insert_coalition (join_fields brands) ts)
  (if policy.want_b then insert_hosts ts (normalized_hosts ev) brands else pure tt)
  let stats = record no_stats { coalitions_inserted = if is_new then 1 else 0 }
  if is_new && policy.want_a then report_new policy full brands ev stats else pure ([], stats)

-- The loop over the hosts of a single brand.
unfoldable pub novel_hosts : NoveltyPolicy → Str → ℤ → List Str → Sql (List Str)
novel_hosts policy brand ts [] = pure []
novel_hosts policy brand ts (host ∷ rest) = do
  is_new ← insert_host brand host ts
  later ← novel_hosts policy brand ts rest
  pure (
      if is_new && not (policy.skip_routine && is_routine_host brand host)
      then host ∷ later
      else later)

abbrev pub alerts_of_hosts : Str → MatchEvent → ProcessStats → List Str → Outcome
alerts_of_hosts brand ev stats [] = ([], stats)
alerts_of_hosts brand ev stats (host ∷ rest) = (
  record {
    schema_version = match_archive_schema_version;
    kind = tier_b brand host (host ∷ rest);
    event = ev;
  }
      ∷ [],
  record stats { alerts_b = 1 },
)

-- One low-df brand is left.
unfoldable pub process_single : Clock → NoveltyPolicy → List Str → Str → MatchEvent → Sql Outcome
process_single clock policy full brand ev = do
  let ts = event_ts clock.event_now ev
  stats ←
      (if leb 2 (length full) then record_high_df policy full (brand ∷ []) ev ts else pure no_stats)
  if not policy.want_b then pure ([], stats) else (do
    novel ← novel_hosts policy brand ts (normalized_hosts ev)
    pure (alerts_of_hosts brand ev stats novel))

unfoldable pub process_brands :
    Clock → NoveltyPolicy → List Str → MatchEvent → List Str → Sql Outcome
process_brands clock policy full ev [] = process_none clock policy full ev
process_brands clock policy full ev (brand ∷ []) = process_single clock policy full brand ev
process_brands clock policy full ev (a ∷ b ∷ rest) =
    process_coalition clock policy full (a ∷ b ∷ rest) ev

unfoldable pub process_match : Clock → List Str → NoveltyPolicy → MatchEvent → Sql Outcome
process_match clock ignore policy ev = do
  let full = unique_keywords ev
  record_brands full
  brands ← tier_a_brands ignore policy full
  process_brands clock policy full ev brands
