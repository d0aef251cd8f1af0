-- ===== src/Alert/Gates.antt =====
-- src/novelty_alert.rs: which alerts `process_match` makes, as a function of the store.
use ct_firehose_filter.Prelude.{
  ◌≡◌, refl, ◌∙◌, ap, ap₂, Bool, true, false, not, ◌&&◌, none, List, [], ◌∷◌, filter, length, arith,
  leb, if◌then◌else◌, Str, is_some,
}
use ct_firehose_filter.Prelude.Int.{ℤ}
use ct_firehose_filter.Event.{MatchEvent}
use ct_firehose_filter.Novelty.Table.{Table, lookup}
use ct_firehose_filter.Novelty.Sql.{Db, NoveltyStore, ok, pure}
use ct_firehose_filter.Novelty.Store.{
  new_coalition, insert_coalition, insert_multi_brand_cert, Clock, join_fields,
}
use ct_firehose_filter.Novelty.Capture.{is_recorded, insert_multi_brand_cert-Committed}
use ct_firehose_filter.Alert.Policy.{NoveltyPolicy, NoveltyAlert, ProcessStats}
use ct_firehose_filter.Alert.Brands.{unique_keywords}
use ct_firehose_filter.Alert.Keys.{unique_keywords-IsAscending}
use ct_firehose_filter.Alert.Process.{
  Outcome, alert_a, is_oversized, is_mega_san, want_emit, process_none, process_coalition,
  process_single, process_brands, process_match, report_new,
}
use ct_firehose_filter.Alert.Hubs.{is_hub, tier_a_brands-Reads}
use ct_firehose_filter.Alert.Ensures.{
  Ensures, Ensures-bind, Ensures-then, Ensures-if, Ensures-pure, Ensures-ok, Ensures-weaken,
}
use ct_firehose_filter.Alert.Counting.{
  counted_db, statement-applied, record_brands-counted_db, counted_db-coalitions, OnOk-Committed,
}

abbrev pub low_df_brands : List Str → NoveltyPolicy → MatchEvent → Db → List Str
low_df_brands ignore policy ev db =
    filter (λ b. not (is_hub ignore policy (counted_db (unique_keywords ev) db) b))
      (unique_keywords ev)

abbrev alerts_at : NoveltyPolicy → MatchEvent → List Str → Table ℤ → List NoveltyAlert
alerts_at policy ev brands coalitions =
    if leb 2 (length brands)
      && (want_emit policy brands ev && not (is_some (lookup (join_fields brands) coalitions)))
    then alert_a brands ev ∷ []
    else []

-- A coalition of at least two brands that passes the gates and whose key is not recorded.
abbrev pub alerts_for : NoveltyPolicy → List Str → MatchEvent → Db → List NoveltyAlert
alerts_for policy brands ev db = alerts_at policy ev brands db.coalitions

-- What the insertion of a coalition tells.
abbrev IsNew : Str → Db → Bool → NoveltyStore → Type 0
IsNew key db is_new t = is_new ≡ not (is_recorded key db)

insert_coalition-IsNew :
    (key : Str) (ts : ℤ) (s : NoveltyStore) → Ensures (IsNew key s.db) (insert_coalition key ts) s
unfolding insert_coalition new_coalition
insert_coalition-IsNew key ts s = Ensures-weaken (λ a t r. ground arith) (statement-applied _ s)

insert_multi_brand_cert-IsNew :
    (clock : Clock) (brands : List Str) (ev : MatchEvent) (ts : ℤ) (s : NoveltyStore)
    → s.saved ≡ none
    → Ensures (IsNew (join_fields brands) s.db) (insert_multi_brand_cert clock brands ev ts) s
insert_multi_brand_cert-IsNew clock brands ev ts s closed =
    Ensures-weaken (λ a t r. r.1.0)
      (record {
        holds =
            OnOk-Committed s.db s.closings _ _ _
              (insert_multi_brand_cert-Committed clock brands ev ts s closed);
      })

abbrev Alerts : List NoveltyAlert → Outcome → NoveltyStore → Type 0
Alerts expected o t = o.0 ≡ expected

report_new-Alerts :
    (policy : NoveltyPolicy) (full brands : List Str) (ev : MatchEvent) (stats : ProcessStats)
    (s : NoveltyStore)
    → policy.want_a ≡ true
    → Ensures
        (Alerts (if want_emit policy brands ev then alert_a brands ev ∷ [] else []))
        (report_new policy full brands ev stats)
        s
unfolding report_new want_emit
report_new-Alerts policy full brands ev stats s wanted =
    Ensures-if (is_oversized policy brands) (λ big. Ensures-pure _ (ground arith))
      λ fits.
        Ensures-if (is_mega_san policy ev) (λ mega. Ensures-pure _ (ground arith))
          λ small.
            Ensures-if policy.calibrating
              (λ muted. Ensures-then _ (λ candidate t. Ensures-pure _ (ground arith)))
              (λ heard. Ensures-then _ (λ candidate t. Ensures-pure _ (ground arith)))

not_wanted :
    (policy : NoveltyPolicy) (brands : List Str) (ev : MatchEvent)
    → policy.want_a ≡ false
    → want_emit policy brands ev ≡ false
unfolding want_emit
not_wanted policy brands ev h = ground arith

pub told-Alerts :
    (policy : NoveltyPolicy) (full brands : List Str) (ev : MatchEvent) (stats : ProcessStats)
    (is_new old : Bool) (s : NoveltyStore)
    → is_new ≡ not old
    → Ensures
        (Alerts (if want_emit policy brands ev && not old then alert_a brands ev ∷ [] else []))
        (if is_new && policy.want_a
          then report_new policy full brands ev stats
          else pure ([], stats))
        s
told-Alerts policy full brands ev stats is_new old s e =
    Ensures-if (is_new && policy.want_a)
      (λ told.
        Ensures-weaken (λ o t r. ground arith)
          (report_new-Alerts policy full brands ev stats s (ground arith)))
      (λ quiet. Ensures-pure _ (ground (arith, not_wanted policy brands ev)))

process_coalition-Alerts :
    (clock : Clock) (policy : NoveltyPolicy) (full : List Str) (a b : Str) (rest : List Str)
    (ev : MatchEvent) (s : NoveltyStore)
    → s.saved ≡ none
    → Ensures
        (Alerts (alerts_for policy (a ∷ b ∷ rest) ev s.db))
        (process_coalition clock policy full (a ∷ b ∷ rest) ev)
        s
unfolding process_coalition
process_coalition-Alerts clock policy full a b rest ev s closed =
    Ensures-bind _
      (Ensures-if (want_emit policy (a ∷ b ∷ rest) ev)
        (λ emit. insert_multi_brand_cert-IsNew clock (a ∷ b ∷ rest) ev _ s closed)
        (λ mute. insert_coalition-IsNew (join_fields (a ∷ b ∷ rest)) _ s))
      λ is_new t fresh. Ensures-then _ λ _ u.
        Ensures-weaken (λ o v r. ground arith)
          (told-Alerts policy full (a ∷ b ∷ rest) ev _ is_new
            (is_recorded (join_fields (a ∷ b ∷ rest)) s.db) u fresh)

process_none-Alerts :
    (clock : Clock) (policy : NoveltyPolicy) (full : List Str) (ev : MatchEvent) (s : NoveltyStore)
    → Ensures (Alerts []) (process_none clock policy full ev) s
unfolding process_none
process_none-Alerts clock policy full ev s =
    Ensures-if (leb 2 (length full)) (λ _. Ensures-then _ (λ stats t. Ensures-pure _ refl))
      (λ _. Ensures-pure _ refl)

process_single-Alerts :
    (clock : Clock) (policy : NoveltyPolicy) (full : List Str) (brand : Str) (ev : MatchEvent)
    (s : NoveltyStore)
    → policy.want_b ≡ false
    → Ensures (Alerts []) (process_single clock policy full brand ev) s
unfolding process_single
process_single-Alerts clock policy full brand ev s no_b = Ensures-then _ λ stats t.
    Ensures-if (not policy.want_b) (λ _. Ensures-pure _ refl) (λ yes_b. absurd (ground arith))

process_brands-Alerts :
    (clock : Clock) (policy : NoveltyPolicy) (full : List Str) (ev : MatchEvent) (brands : List Str)
    (s : NoveltyStore)
    → s.saved ≡ none
    → policy.want_b ≡ false
    → Ensures
        (Alerts (alerts_for policy brands ev s.db))
        (process_brands clock policy full ev brands)
        s
unfolding process_brands
process_brands-Alerts clock policy full ev [] s closed no_b =
    process_none-Alerts clock policy full ev s
process_brands-Alerts clock policy full ev (brand ∷ []) s closed no_b =
    process_single-Alerts clock policy full brand ev s no_b
process_brands-Alerts clock policy full ev (a ∷ b ∷ rest) s closed no_b =
    process_coalition-Alerts clock policy full a b rest ev s closed

alerts_for-eq :
    (policy : NoveltyPolicy) (ev : MatchEvent) (brands l : List Str) (d db : Db)
    → brands ≡ l
    → d.coalitions ≡ db.coalitions
    → alerts_for policy brands ev d ≡ alerts_for policy l ev db
alerts_for-eq policy ev brands l d db e f = ap₂ (alerts_at policy ev) e f

-- With tier B off and no transaction open, a match that is processed without an error makes
-- exactly the alert that the store as it was before decides: its low-df brands, by the counts that
-- include this match, if they are at least two, pass all gates, and their key is not recorded.
pub process_match-alerts :
    (clock : Clock) (ignore : List Str) (policy : NoveltyPolicy) (ev : MatchEvent)
    (s s' : NoveltyStore) (alerts : List NoveltyAlert) (stats : ProcessStats)
    → s.saved ≡ none
    → policy.want_b ≡ false
    → process_match clock ignore policy ev s ≡ (ok (alerts, stats), s')
    → alerts ≡ alerts_for policy (low_df_brands ignore policy ev s.db) ev s.db
unfolding process_match
process_match-alerts clock ignore policy ev s s' alerts stats closed no_b =
    Ensures-ok (Alerts _) (process_match clock ignore policy ev) s s' (alerts, stats)
      (Ensures-bind _ (record_brands-counted_db (unique_keywords ev) s closed) λ _ t c.
        Ensures-bind _
          (tier_a_brands-Reads ignore policy (unique_keywords ev) t
            (unique_keywords-IsAscending ev))
          λ brands u r.
            Ensures-weaken
              (λ o v q.
                q
                ∙ alerts_for-eq policy ev brands (low_df_brands ignore policy ev s.db) u.db s.db
                    (r.0
                      ∙ ap (λ d. filter (λ b. not (is_hub ignore policy d b)) (unique_keywords ev))
                          c.1)
                    (ap (λ (d : Db). d.coalitions) (r.1 ∙ c.1)
                      ∙ counted_db-coalitions (unique_keywords ev) s.db))
              (process_brands-Alerts clock policy (unique_keywords ev) ev brands u (r.2 ∙ c.0)
                no_b))
