-- ===== src/Tests/Alert.antt =====
-- src/novelty_alert.rs on small inputs.
use ct_firehose_filter.Prelude.{◌≡◌, refl, [], ◌∷◌, Str}
use ct_firehose_filter.Novelty.Sql.{NoveltyStore, ok}
use ct_firehose_filter.Alert.Policy.{ProcessStats, default_policy, no_stats}
use ct_firehose_filter.Alert.Process.{process_match, alert_a}
use ct_firehose_filter.Prelude.{
  sort, drop_end, drop_start, join, split, strip_prefix, trim, str_ltb,
}
use ct_firehose_filter.Prelude.Sets.{collect_set, insert}
use ct_firehose_filter.Novelty.Sql.{
  ◌>>=◌, in_transaction, begin_immediate, close, statement, commit, pure, query, rollback,
}
use ct_firehose_filter.Novelty.Table.{insert_or_ignore, lookup, update, upsert}
use ct_firehose_filter.Novelty.Store.{
  record_cooccurrence, run_all, cooccurrence_statements, event_count, all_partners, capture_row,
  cert_body, cert_of, count_event, count_multi_brand, dedup, insert_cert, insert_coalition,
  insert_host, insert_multi_brand_cert, insert_partner, new_coalition, partner_degree, partners_for,
  record_appearances, refresh_partners, send_nudge, sorted_csv,
}
use ct_firehose_filter.Alert.Brands.{
  unique_keywords, tier_a_brands, low_degree_brands, is_learned_hub, effective_degree, event_ts,
  is_routine_host, normalized_hosts,
}
use ct_firehose_filter.Alert.Policy.{effective_san_count}
use ct_firehose_filter.Alert.Process.{
  record_brands, counts_of, insert_hosts, insert_hosts_of, maybe_candidate, novel_hosts,
  process_brands, process_coalition, process_none, process_single, record_high_df, report_new,
  want_emit,
}
use ct_firehose_filter.Dates.{unix_to_instant}
use ct_firehose_filter.Prelude.{filter, not, map, to_ascii_lowercase, contains, IsAscending, arith}
use ct_firehose_filter.Alert.Ensures.{Ensures}
use ct_firehose_filter.Alert.Keys.{unique_keywords-eq_of_same_set}
use ct_firehose_filter.Alert.Hubs.{Reads, is_hub, tier_a_brands-Reads}
use ct_firehose_filter.Alert.Funnel.{IsBalanced, process_match-IsBalanced}
use ct_firehose_filter.Alert.Gates.{low_df_brands, alerts_for, process_match-alerts}
use ct_firehose_filter.Alert.Once.{Once, process_match-Once}
use ct_firehose_filter.Tests.Data.{
  empty_db, clock, alpha, beta, pair_event, same_event, empty_store,
}

abbrev stats_of_pair : ProcessStats
stats_of_pair = record no_stats { coalitions_inserted = 1; alerts_a = 1 }

abbrev after_pair : NoveltyStore
after_pair = (process_match clock [] default_policy pair_event empty_store).1

pair_is_alerted :
    process_match clock [] default_policy pair_event empty_store
    ≡ (ok (alert_a (alpha ∷ beta ∷ []) pair_event ∷ [], stats_of_pair), after_pair)
unfolding process_match sort drop_end drop_start join split strip_prefix trim str_ltb collect_set
    insert ◌>>=◌ in_transaction begin_immediate close statement commit pure query rollback
    insert_or_ignore lookup update upsert record_cooccurrence run_all cooccurrence_statements
    event_count all_partners capture_row cert_body cert_of count_event count_multi_brand dedup
    insert_cert insert_coalition insert_host insert_multi_brand_cert insert_partner new_coalition
    partner_degree partners_for record_appearances refresh_partners send_nudge sorted_csv
    unique_keywords tier_a_brands low_degree_brands is_learned_hub effective_degree event_ts
    is_routine_host normalized_hosts effective_san_count record_brands counts_of insert_hosts
    insert_hosts_of maybe_candidate novel_hosts process_brands process_coalition process_none
    process_single record_high_df report_new want_emit unix_to_instant
pair_is_alerted = refl

pair_IsAscending : IsAscending (alpha ∷ beta ∷ [])
unfolding str_ltb
pair_IsAscending = ((refl, tt), (tt, tt))

same_keywords :
    (k : Str)
    → contains (map to_ascii_lowercase pair_event.matched_keywords) k
      ≡ contains (map to_ascii_lowercase same_event.matched_keywords) k
same_keywords k = ground arith

process_match-Once_example :
    Once empty_store (alert_a (alpha ∷ beta ∷ []) pair_event ∷ []) after_pair
process_match-Once_example =
    process_match-Once clock [] default_policy pair_event empty_store after_pair
      (alert_a (alpha ∷ beta ∷ []) pair_event ∷ []) stats_of_pair pair_is_alerted

process_match-alerts_example :
    alert_a (alpha ∷ beta ∷ []) pair_event ∷ []
    ≡ alerts_for default_policy
        (low_df_brands [] default_policy pair_event empty_db)
        pair_event
        empty_db
process_match-alerts_example =
    process_match-alerts clock [] default_policy pair_event empty_store after_pair
      (alert_a (alpha ∷ beta ∷ []) pair_event ∷ []) stats_of_pair refl refl pair_is_alerted

process_match-IsBalanced_example :
    IsBalanced (alert_a (alpha ∷ beta ∷ []) pair_event ∷ []) stats_of_pair
process_match-IsBalanced_example =
    process_match-IsBalanced clock [] default_policy pair_event empty_store after_pair
      (alert_a (alpha ∷ beta ∷ []) pair_event ∷ []) stats_of_pair refl pair_is_alerted

tier_a_brands-Reads_example :
    Ensures
      (Reads empty_store
        (filter (λ b. not (is_hub [] default_policy empty_db b)) (alpha ∷ beta ∷ [])))
      (tier_a_brands [] default_policy (alpha ∷ beta ∷ []))
      empty_store
tier_a_brands-Reads_example =
    tier_a_brands-Reads [] default_policy (alpha ∷ beta ∷ []) empty_store pair_IsAscending

unique_keywords-eq_of_same_set_example : unique_keywords pair_event ≡ unique_keywords same_event
unique_keywords-eq_of_same_set_example =
    unique_keywords-eq_of_same_set pair_event same_event same_keywords
