-- ===== src/Alert/Brands.antt =====
-- src/novelty_alert.rs: the brands and the hosts of a match, and which brands may be alerted.
use ct_firehose_filter.Prelude.{
  ℕ, Bool, true, false, not, ◌&&◌, ◌||◌, Option, none, some, List, [], ◌∷◌, map, filter, is_empty,
  leb, ltb, ◌==◌, max, if◌then◌else◌, Str, codes, str_eq, sort, contains, trim, drop_end,
  to_ascii_lowercase, split,
}
use ct_firehose_filter.Prelude.Int.{ℤ, pos, F64, trunc_i64}
use ct_firehose_filter.Prelude.Sets.{collect_set}
use ct_firehose_filter.Event.{MatchEvent}
use ct_firehose_filter.Watchlist.Host.{strip_star}
use ct_firehose_filter.Novelty.Sql.{Sql, ◌>>=◌, pure}
use ct_firehose_filter.Novelty.Store.{partner_degree, event_count}
use ct_firehose_filter.Alert.Policy.{NoveltyPolicy}

unfoldable pub unique_keywords : MatchEvent → List Str
unfolding sort collect_set
unique_keywords ev = sort (collect_set (map to_ascii_lowercase ev.matched_keywords))

unfoldable pub filter_brands : MatchEvent → List Str → List Str
unfolding sort collect_set
filter_brands ev ignore = sort (
    collect_set
      (filter (λ k. not (contains ignore k)) (map to_ascii_lowercase ev.matched_keywords)))

abbrev normalized_host : Str → Str
normalized_host d = strip_star (to_ascii_lowercase (drop_end (λ c. c == b'.') (trim d)))

unfoldable pub normalized_hosts : MatchEvent → List Str
unfolding sort collect_set drop_end trim
normalized_hosts ev =
    sort (collect_set (filter (λ h. not (is_empty h)) (map normalized_host ev.matched_domains)))

abbrev pub routine_left : List Str
routine_left = map codes (
    "www" ∷ "mail" ∷ "autodiscover" ∷ "cpanel" ∷ "webmail" ∷ "webdisk" ∷ "cpcalendars"
    ∷ "cpcontacts" ∷ "ftp" ∷ "pop" ∷ "imap" ∷ "smtp" ∷ "ns1" ∷ "ns2" ∷ "mx" ∷ "m" ∷ "cdn" ∷ "static"
    ∷ "img" ∷ "images" ∷ "api" ∷ "app" ∷ "dev" ∷ "test" ∷ "qa" ∷ "staging" ∷ "sandbox" ∷ "sbx"
    ∷ "graphql" ∷ "mcpserver" ∷ [])

abbrev first_or_empty : List Str → Str
first_or_empty [] = []
first_or_empty (w ∷ ws) = w

unfoldable pub is_routine_host : Str → Str → Bool
unfolding split
is_routine_host brand host =
    str_eq host brand || contains routine_left (first_or_empty (split b'.' host))

abbrev ts_of_seen : ℤ → Option F64 → ℤ
ts_of_seen now none = now
ts_of_seen now (some F64.nan) = pos 0
ts_of_seen now (some (F64.infinite negative)) = pos 0
ts_of_seen now (some (F64.finite negative m e)) = trunc_i64 negative m e

-- `now` is `SystemTime::now`, as seconds.
unfoldable pub event_ts : ℤ → MatchEvent → ℤ
event_ts now ev = ts_of_seen now ev.seen

module _ (ignore : List Str) (policy : NoveltyPolicy) where
  unfoldable pub effective_degree : Str → Sql ℕ
  effective_degree brand = do
    observed ← partner_degree brand
    pure (
        if ltb 0 policy.max_partner_degree && contains ignore brand
        then max observed policy.max_partner_degree
        else observed)

  unfoldable pub is_learned_hub : Str → Sql Bool
  is_learned_hub brand =
      if contains ignore brand && (ltb 0 policy.max_partner_degree || ltb 0 policy.max_brand_df)
      then pure true
      else do
        frequent ←
            (if ltb 0 policy.max_brand_df
              then (do n ← event_count brand; pure (leb policy.max_brand_df n))
              else pure false)
        if frequent
            then pure true
            else if ltb 0 policy.max_partner_degree
            then (do d ← effective_degree brand; pure (leb policy.max_partner_degree d))
            else pure false

  -- The loop over the brands.
  unfoldable pub low_degree_brands : List Str → Sql (List Str)
  low_degree_brands [] = pure []
  low_degree_brands (b ∷ rest) = do
    hub ← is_learned_hub b
    out ← low_degree_brands rest
    pure (if hub then out else b ∷ out)

  unfoldable pub tier_a_brands : List Str → Sql (List Str)
  tier_a_brands full =
      if (policy.max_partner_degree == 0) && (policy.max_brand_df == 0)
      then pure (sort (filter (λ k. not (contains ignore k)) full))
      else low_degree_brands full
