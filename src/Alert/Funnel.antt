-- ===== src/Alert/Funnel.antt =====
-- src/novelty_alert.rs: the counters of `ProcessStats` add up, on every branch of `process_match`.
use ct_firehose_filter.Prelude.{
  ℕ, ◌+◌, ◌≤◌, ◌≡◌, Bool, true, false, not, ◌&&◌, List, [], ◌∷◌, length, arith, leb, if◌then◌else◌,
  Str,
}
use ct_firehose_filter.Prelude.Int.{ℤ}
use ct_firehose_filter.Event.{MatchEvent}
use ct_firehose_filter.Novelty.Sql.{NoveltyStore, ok, pure}
use ct_firehose_filter.Novelty.Store.{Clock}
use ct_firehose_filter.Alert.Policy.{
  NoveltyPolicy, NoveltyAlert, ProcessStats, no_stats, tier_a, tier_b,
}
use ct_firehose_filter.Alert.Brands.{unique_keywords}
use ct_firehose_filter.Alert.Process.{
  Outcome, record_high_df, process_none, process_coalition, process_single, process_brands,
  process_match, report_new, is_oversized, is_mega_san, alerts_of_hosts,
}
use ct_firehose_filter.Alert.Ensures.{
  Ensures, Ensures-bind, Ensures-then, Ensures-if, Ensures-ok, Ensures-pure,
}

abbrev pub count_a : List NoveltyAlert → ℕ
count_a [] = 0
count_a (alert ∷ rest) = (elim alert.kind [ tier_a c ↦ 1 | tier_b b h n ↦ 0 ]) + count_a rest

-- The funnel of one match: the alerts are counted, at most one is made, and with tier A wanted
-- each new coalition is told of by exactly one counter.
pub record IsBalanced (alerts : List NoveltyAlert) (stats : ProcessStats) : Type 0 where
  pub counted_a : stats.alerts_a ≡ count_a alerts
  pub counted : length alerts ≡ stats.alerts_a + stats.alerts_b
  pub at_most_one : length alerts ≤ 1
  pub one_coalition : stats.coalitions_inserted ≤ 1
  pub accounted :
      stats.coalitions_inserted
      ≡ stats.alerts_a + stats.a_oversized_dropped + stats.a_mega_san_dropped
        + stats.a_calibrate_muted + stats.a_high_df_dropped

abbrev Balanced : Outcome → NoveltyStore → Type 0
Balanced o s = IsBalanced o.0 o.1

-- The counters of a match that made no alert.
abbrev Quiet : ProcessStats → Type 0
Quiet stats =
    (stats.alerts_a ≡ 0)
    × (stats.alerts_b ≡ 0)
    × (stats.a_oversized_dropped ≡ 0)
    × (stats.a_mega_san_dropped ≡ 0)
    × (stats.a_calibrate_muted ≡ 0)
    × (stats.coalitions_inserted ≡ stats.a_high_df_dropped)
    × (stats.coalitions_inserted ≤ 1)

record_high_df-Quiet :
    (policy : NoveltyPolicy) (full coalition : List Str) (ev : MatchEvent) (ts : ℤ)
    (s : NoveltyStore)
    → Ensures (λ stats _. Quiet stats) (record_high_df policy full coalition ev ts) s
unfolding record_high_df
record_high_df-Quiet policy full coalition ev ts s = Ensures-then _ λ is_new t.
    Ensures-if is_new (λ _. Ensures-then _ (λ candidate u. Ensures-pure _ (omega arith)))
      (λ _. Ensures-pure _ (omega arith))

Balanced-Quiet : (stats : ProcessStats) (s : NoveltyStore) → Quiet stats → Balanced ([], stats) s
Balanced-Quiet stats s q = ground arith

process_none-Balanced :
    (clock : Clock) (policy : NoveltyPolicy) (full : List Str) (ev : MatchEvent) (s : NoveltyStore)
    → Ensures Balanced (process_none clock policy full ev) s
unfolding process_none
process_none-Balanced clock policy full ev s =
    Ensures-if (leb 2 (length full))
      (λ _.
        Ensures-bind _ (record_high_df-Quiet policy full full ev _ s)
          (λ stats t q. Ensures-pure _ (Balanced-Quiet stats t q)))
      (λ _. Ensures-pure _ (ground arith))

alerts_of_hosts-Balanced :
    (brand : Str) (ev : MatchEvent) (stats : ProcessStats) (novel : List Str) (s : NoveltyStore)
    → Quiet stats
    → Balanced (alerts_of_hosts brand ev stats novel) s
alerts_of_hosts-Balanced brand ev stats [] s q = Balanced-Quiet stats s q
alerts_of_hosts-Balanced brand ev stats (host ∷ rest) s q = ground arith

single_stats-Quiet :
    (policy : NoveltyPolicy) (full : List Str) (brand : Str) (ev : MatchEvent) (ts : ℤ)
    (s : NoveltyStore)
    → Ensures
        (λ stats _. Quiet stats)
        (if leb 2 (length full)
          then record_high_df policy full (brand ∷ []) ev ts
          else pure no_stats)
        s
single_stats-Quiet policy full brand ev ts s =
    Ensures-if (leb 2 (length full)) (λ _. record_high_df-Quiet policy full (brand ∷ []) ev ts s)
      (λ _. Ensures-pure _ (omega arith))

process_single-Balanced :
    (clock : Clock) (policy : NoveltyPolicy) (full : List Str) (brand : Str) (ev : MatchEvent)
    (s : NoveltyStore)
    → Ensures Balanced (process_single clock policy full brand ev) s
unfolding process_single
process_single-Balanced clock policy full brand ev s =
    Ensures-bind _ (single_stats-Quiet policy full brand ev _ s) λ stats t q.
      Ensures-if (not policy.want_b) (λ _. Ensures-pure _ (Balanced-Quiet stats t q))
        (λ _.
          Ensures-then _
            (λ novel u. Ensures-pure _ (alerts_of_hosts-Balanced brand ev stats novel u q)))

-- The counters of a new coalition before it is told of.
abbrev new_stats : ProcessStats
new_stats = record no_stats { coalitions_inserted = 1 }

report_new-Balanced :
    (policy : NoveltyPolicy) (full brands : List Str) (ev : MatchEvent) (s : NoveltyStore)
    → Ensures Balanced (report_new policy full brands ev new_stats) s
unfolding report_new
report_new-Balanced policy full brands ev s =
    Ensures-if (is_oversized policy brands) (λ _. Ensures-pure _ (ground arith))
      λ _.
        Ensures-if (is_mega_san policy ev) (λ _. Ensures-pure _ (ground arith))
          λ _.
            Ensures-if policy.calibrating
              (λ _. Ensures-then _ (λ candidate t. Ensures-pure _ (ground arith)))
              (λ _. Ensures-then _ (λ candidate t. Ensures-pure _ (ground arith)))

-- The end of `process_coalition`, for a tier A that is wanted.
told-Balanced :
    (policy : NoveltyPolicy) (full brands : List Str) (ev : MatchEvent) (is_new wanted : Bool)
    (s : NoveltyStore)
    → wanted ≡ true
    → Ensures Balanced
        (if is_new && wanted
          then report_new policy full brands ev
              (record no_stats { coalitions_inserted = if is_new then 1 else 0 })
          else pure ([], record no_stats { coalitions_inserted = if is_new then 1 else 0 }))
        s
told-Balanced policy full brands ev true true s h = report_new-Balanced policy full brands ev s
told-Balanced policy full brands ev true false s h = cc
told-Balanced policy full brands ev false wanted s h = Ensures-pure _ (ground arith)

process_coalition-Balanced :
    (clock : Clock) (policy : NoveltyPolicy) (full brands : List Str) (ev : MatchEvent)
    (s : NoveltyStore)
    → policy.want_a ≡ true
    → Ensures Balanced (process_coalition clock policy full brands ev) s
unfolding process_coalition
process_coalition-Balanced clock policy full brands ev s wanted = Ensures-then _ λ is_new t.
    Ensures-then _ λ _ u. told-Balanced policy full brands ev is_new policy.want_a u wanted

process_brands-Balanced :
    (clock : Clock) (policy : NoveltyPolicy) (full : List Str) (ev : MatchEvent) (brands : List Str)
    (s : NoveltyStore)
    → policy.want_a ≡ true
    → Ensures Balanced (process_brands clock policy full ev brands) s
unfolding process_brands
process_brands-Balanced clock policy full ev [] s wanted =
    process_none-Balanced clock policy full ev s
process_brands-Balanced clock policy full ev (brand ∷ []) s wanted =
    process_single-Balanced clock policy full brand ev s
process_brands-Balanced clock policy full ev (a ∷ b ∷ rest) s wanted =
    process_coalition-Balanced clock policy full (a ∷ b ∷ rest) ev s wanted

-- A match that is processed without an error, with tier A wanted, makes at most one alert; the
-- alert counters agree with the alerts, and a new coalition is counted once and told of by exactly
-- one of: alerted, oversized, mega-SAN, muted, or left with too few low-df brands.
pub process_match-IsBalanced :
    (clock : Clock) (ignore : List Str) (policy : NoveltyPolicy) (ev : MatchEvent)
    (s s' : NoveltyStore) (alerts : List NoveltyAlert) (stats : ProcessStats)
    → policy.want_a ≡ true
    → process_match clock ignore policy ev s ≡ (ok (alerts, stats), s')
    → IsBalanced alerts stats
unfolding process_match
process_match-IsBalanced clock ignore policy ev s s' alerts stats wanted =
    Ensures-ok Balanced (process_match clock ignore policy ev) s s' (alerts, stats)
      (Ensures-then _ λ _ t.
        Ensures-then _
          λ brands u. process_brands-Balanced clock policy (unique_keywords ev) ev brands u wanted)
