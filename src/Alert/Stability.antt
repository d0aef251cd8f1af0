-- ===== src/Alert/Stability.antt =====
-- src/novelty_alert.rs: a property of the database that each update keeps is kept by
-- `process_match`, on all of its branches and whatever statements fail.
use ct_firehose_filter.Prelude.{
  not, ◌&&◌, ◌||◌, List, [], ◌∷◌, length, is_empty, leb, ltb, ◌==◌, Str, contains,
}
use ct_firehose_filter.Prelude.Int.{ℤ}
use ct_firehose_filter.Event.{MatchEvent}
use ct_firehose_filter.Novelty.Store.{Clock, join_fields}
use ct_firehose_filter.Alert.Policy.{NoveltyPolicy, ProcessStats}
use ct_firehose_filter.Alert.Brands.{unique_keywords, normalized_hosts, tier_a_brands}
use ct_firehose_filter.Novelty.Sql.{Db}
use ct_firehose_filter.Novelty.Keeps.{Keeps, Keeps-pure, Keeps-bind, Keeps-if}
use ct_firehose_filter.Novelty.Stable.{
  IsStable, Keeps-record_cooccurrence, Keeps-record_appearances, Keeps-insert_coalition,
  Keeps-insert_multi_brand_cert, Keeps-insert_host, Keeps-partner_degree, Keeps-event_count,
}
use ct_firehose_filter.Alert.Brands.{effective_degree, is_learned_hub, low_degree_brands}
use ct_firehose_filter.Alert.Process.{
  counts_of, maybe_candidate, record_brands, record_high_df, process_none, insert_hosts_of,
  insert_hosts, is_oversized, is_mega_san, want_emit, report_new, process_coalition, novel_hosts,
  process_single, process_brands, process_match,
}

module _ {P : Db → Type 0} (stable : IsStable P) where
  Keeps-counts_of : (brands : List Str) → Keeps P (counts_of brands)
  unfolding counts_of
  Keeps-counts_of [] = Keeps-pure _
  Keeps-counts_of (b ∷ rest) = Keeps-bind _ _ (Keeps-partner_degree stable b) λ degree.
      Keeps-bind _ _ (Keeps-event_count stable b)
        λ events. Keeps-bind _ _ (Keeps-counts_of rest) λ later. Keeps-pure _

  Keeps-maybe_candidate :
      (policy : NoveltyPolicy) (full coalition : List Str) (ev : MatchEvent) (reason : Str)
      → Keeps P (maybe_candidate policy full coalition ev reason)
  unfolding maybe_candidate
  Keeps-maybe_candidate policy full coalition ev reason =
      Keeps-if (not policy.emit_candidates) _ _ (Keeps-pure _)
        (Keeps-bind _ _ (Keeps-counts_of full) (λ counts. Keeps-pure _))

  pub Keeps-record_brands : (full : List Str) → Keeps P (record_brands full)
  unfolding record_brands
  Keeps-record_brands full =
      Keeps-if (leb 2 (length full)) _ _ (Keeps-record_cooccurrence stable full)
        (Keeps-if (not (is_empty full)) _ _ (Keeps-record_appearances stable full) (Keeps-pure _))

  Keeps-record_high_df :
      (policy : NoveltyPolicy) (full coalition : List Str) (ev : MatchEvent) (ts : ℤ)
      → Keeps P (record_high_df policy full coalition ev ts)
  unfolding record_high_df
  Keeps-record_high_df policy full coalition ev ts =
      Keeps-bind _ _ (Keeps-insert_coalition stable (join_fields full) ts) λ is_new.
        Keeps-if is_new _ _
          (Keeps-bind _ _ (Keeps-maybe_candidate policy full coalition ev _) (λ c. Keeps-pure _))
          (Keeps-pure _)

  Keeps-insert_hosts_of :
      (brand : Str) (ts : ℤ) (hosts : List Str) → Keeps P (insert_hosts_of brand ts hosts)
  unfolding insert_hosts_of
  Keeps-insert_hosts_of brand ts [] = Keeps-pure _
  Keeps-insert_hosts_of brand ts (host ∷ rest) =
      Keeps-bind _ _ (Keeps-insert_host stable brand host ts)
        (λ _. Keeps-insert_hosts_of brand ts rest)

  pub Keeps-insert_hosts :
      (ts : ℤ) (hosts brands : List Str) → Keeps P (insert_hosts ts hosts brands)
  unfolding insert_hosts
  Keeps-insert_hosts ts hosts [] = Keeps-pure _
  Keeps-insert_hosts ts hosts (brand ∷ rest) =
      Keeps-bind _ _ (Keeps-insert_hosts_of brand ts hosts) (λ _. Keeps-insert_hosts ts hosts rest)

  pub Keeps-report_new :
      (policy : NoveltyPolicy) (full brands : List Str) (ev : MatchEvent) (stats : ProcessStats)
      → Keeps P (report_new policy full brands ev stats)
  unfolding report_new
  Keeps-report_new policy full brands ev stats =
      Keeps-if (is_oversized policy brands) _ _ (Keeps-pure _) (
        Keeps-if (is_mega_san policy ev) _ _ (Keeps-pure _) (
          Keeps-if policy.calibrating _ _
            (Keeps-bind _ _ (Keeps-maybe_candidate policy full brands ev _) (λ c. Keeps-pure _))
            (Keeps-bind _ _ (Keeps-maybe_candidate policy full brands ev _) (λ c. Keeps-pure _))))

  Keeps-process_coalition :
      (clock : Clock) (policy : NoveltyPolicy) (full brands : List Str) (ev : MatchEvent)
      → Keeps P (process_coalition clock policy full brands ev)
  unfolding process_coalition
  Keeps-process_coalition clock policy full brands ev =
      Keeps-bind _ _
        (Keeps-if (want_emit policy brands ev) _ _
          (Keeps-insert_multi_brand_cert stable clock brands ev _)
          (Keeps-insert_coalition stable (join_fields brands) _))
        λ is_new.
          Keeps-bind _ _
            (Keeps-if policy.want_b _ _ (Keeps-insert_hosts _ (normalized_hosts ev) brands)
              (Keeps-pure _))
            λ _.
              Keeps-if (is_new && policy.want_a) _ _ (Keeps-report_new policy full brands ev _)
                (Keeps-pure _)

  Keeps-novel_hosts :
      (policy : NoveltyPolicy) (brand : Str) (ts : ℤ) (hosts : List Str)
      → Keeps P (novel_hosts policy brand ts hosts)
  unfolding novel_hosts
  Keeps-novel_hosts policy brand ts [] = Keeps-pure _
  Keeps-novel_hosts policy brand ts (host ∷ rest) =
      Keeps-bind _ _ (Keeps-insert_host stable brand host ts)
        λ is_new. Keeps-bind _ _ (Keeps-novel_hosts policy brand ts rest) λ later. Keeps-pure _

  Keeps-process_single :
      (clock : Clock) (policy : NoveltyPolicy) (full : List Str) (brand : Str) (ev : MatchEvent)
      → Keeps P (process_single clock policy full brand ev)
  unfolding process_single
  Keeps-process_single clock policy full brand ev =
      Keeps-bind _ _
        (Keeps-if (leb 2 (length full)) _ _ (Keeps-record_high_df policy full (brand ∷ []) ev _)
          (Keeps-pure _))
        λ stats. Keeps-if (not policy.want_b) _ _ (Keeps-pure _) (
          Keeps-bind _ _ (Keeps-novel_hosts policy brand _ (normalized_hosts ev))
            (λ novel. Keeps-pure _))

  Keeps-process_brands :
      (clock : Clock) (policy : NoveltyPolicy) (full : List Str) (ev : MatchEvent)
      (brands : List Str)
      → Keeps P (process_brands clock policy full ev brands)
  unfolding process_brands process_none
  Keeps-process_brands clock policy full ev [] =
      Keeps-if (leb 2 (length full)) _ _
        (Keeps-bind _ _ (Keeps-record_high_df policy full full ev _) (λ stats. Keeps-pure _))
        (Keeps-pure _)
  Keeps-process_brands clock policy full ev (brand ∷ []) =
      Keeps-process_single clock policy full brand ev
  Keeps-process_brands clock policy full ev (a ∷ b ∷ rest) =
      Keeps-process_coalition clock policy full (a ∷ b ∷ rest) ev

  Keeps-is_learned_hub :
      (ignore : List Str) (policy : NoveltyPolicy) (brand : Str)
      → Keeps P (is_learned_hub ignore policy brand)
  unfolding is_learned_hub effective_degree
  Keeps-is_learned_hub ignore policy brand =
      Keeps-if
        (contains ignore brand && (ltb 0 policy.max_partner_degree || ltb 0 policy.max_brand_df)) _
        _ (Keeps-pure _)
        (Keeps-bind _ _
          (Keeps-if (ltb 0 policy.max_brand_df) _ _
            (Keeps-bind _ _ (Keeps-event_count stable brand) (λ n. Keeps-pure _)) (Keeps-pure _))
          λ frequent. Keeps-if frequent _ _ (Keeps-pure _) (
            Keeps-if (ltb 0 policy.max_partner_degree) _ _
              (Keeps-bind _ _
                (Keeps-bind _ _ (Keeps-partner_degree stable brand) (λ observed. Keeps-pure _))
                (λ d. Keeps-pure _))
              (Keeps-pure _)))

  Keeps-low_degree_brands :
      (ignore : List Str) (policy : NoveltyPolicy) (full : List Str)
      → Keeps P (low_degree_brands ignore policy full)
  unfolding low_degree_brands
  Keeps-low_degree_brands ignore policy [] = Keeps-pure _
  Keeps-low_degree_brands ignore policy (b ∷ rest) =
      Keeps-bind _ _ (Keeps-is_learned_hub ignore policy b)
        λ hub. Keeps-bind _ _ (Keeps-low_degree_brands ignore policy rest) λ out. Keeps-pure _

  pub Keeps-tier_a_brands :
      (ignore : List Str) (policy : NoveltyPolicy) (full : List Str)
      → Keeps P (tier_a_brands ignore policy full)
  unfolding tier_a_brands
  Keeps-tier_a_brands ignore policy full =
      Keeps-if ((policy.max_partner_degree == 0) && (policy.max_brand_df == 0)) _ _ (Keeps-pure _)
        (Keeps-low_degree_brands ignore policy full)

  pub Keeps-process_match :
      (clock : Clock) (ignore : List Str) (policy : NoveltyPolicy) (ev : MatchEvent)
      → Keeps P (process_match clock ignore policy ev)
  unfolding process_match
  Keeps-process_match clock ignore policy ev =
      Keeps-bind _ _ (Keeps-record_brands (unique_keywords ev)) λ _.
        Keeps-bind _ _ (Keeps-tier_a_brands ignore policy (unique_keywords ev))
          λ brands. Keeps-process_brands clock policy (unique_keywords ev) ev brands
