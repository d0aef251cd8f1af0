-- ===== src/Alert/Once.antt =====
-- src/novelty_alert.rs: `process_match` alerts a coalition only the first time it is seen.
use ct_firehose_filter.Prelude.{
  ◌≡◌, refl, sym, ◌∙◌, ap, true, false, not, List, [], ◌∷◌, length, leb, arith, Str, str_eq_iff,
  contains, IsNodup,
}
use ct_firehose_filter.Event.{MatchEvent}
use ct_firehose_filter.Novelty.Sql.{NoveltyStore, ok, Sql}
use ct_firehose_filter.Novelty.Store.{Clock}
use ct_firehose_filter.Novelty.Capture.{is_recorded}
use ct_firehose_filter.Novelty.Keeps.{Holds, Keeps}
use ct_firehose_filter.Alert.Policy.{NoveltyPolicy, NoveltyAlert, ProcessStats}
use ct_firehose_filter.Alert.Brands.{unique_keywords, tier_a_brands}
use ct_firehose_filter.Alert.Process.{
  alerts_of_hosts, record_brands, process_none, process_single, process_brands, process_match,
}
use ct_firehose_filter.Alert.Ensures.{
  Ensures, Ensures-bind, Ensures-then, Ensures-if, Ensures-pure, Ensures-ok, Ensures-weaken,
}
use ct_firehose_filter.Alert.Stability.{Keeps-record_brands, Keeps-tier_a_brands}
use ct_firehose_filter.Alert.Recorded.{Recorded, Recorded-IsStable, OnOk-state}
use ct_firehose_filter.Alert.FirstSeen.{
  alerted_keys, Told, silent, fresh, Tells, process_coalition-Tells,
}

hosts_are_silent :
    (brand : Str) (ev : MatchEvent) (stats : ProcessStats) (novel : List Str)
    → alerted_keys (alerts_of_hosts brand ev stats novel).0 ≡ []
hosts_are_silent brand ev stats [] = refl
hosts_are_silent brand ev stats (host ∷ rest) = refl

process_brands-Tells :
    (clock : Clock) (policy : NoveltyPolicy) (full : List Str) (ev : MatchEvent) (brands : List Str)
    (s : NoveltyStore)
    → Ensures (Tells s.db) (process_brands clock policy full ev brands) s
unfolding process_brands process_none process_single
process_brands-Tells clock policy full ev [] s =
    Ensures-if (leb 2 (length full)) (λ _. Ensures-then _ (λ stats t. Ensures-pure _ (silent refl)))
      (λ _. Ensures-pure _ (silent refl))
process_brands-Tells clock policy full ev (brand ∷ []) s = Ensures-then _ λ stats t.
    Ensures-if (not policy.want_b) (λ _. Ensures-pure _ (silent refl))
      λ _. Ensures-then _ λ novel u. Ensures-pure _ (silent (hosts_are_silent brand ev stats novel))
process_brands-Tells clock policy full ev (a ∷ b ∷ rest) s =
    process_coalition-Tells clock policy full (a ∷ b ∷ rest) ev s

-- The alerted keys are different, none was stored for good before, and all are after.
pub record Once (s : NoveltyStore) (alerts : List NoveltyAlert) (t : NoveltyStore) : Type 0 where
  pub nodup : IsNodup (alerted_keys alerts)
  pub new : (k : Str) → Holds (Recorded k) s → contains (alerted_keys alerts) k ≡ false
  pub kept : (k : Str) → contains (alerted_keys alerts) k ≡ true → Holds (Recorded k) t

Told-Once :
    (s u : NoveltyStore) (alerts : List NoveltyAlert) (t : NoveltyStore)
    → ((k : Str) → Holds (Recorded k) s → Holds (Recorded k) u)
    → Told u.db alerts t
    → Once s alerts t
Told-Once s u alerts t carry (silent e) = record {
  nodup = rw e tt;
  new = λ k h. rw e refl;
  kept = λ k h. let c : false ≡ true = ap (λ l. contains l k) (sym e) ∙ h in absurd cc;
}
Told-Once s u alerts t carry (fresh f) = record {
  nodup = rw f.told (refl, tt);
  new = λ k h.
      let stored : is_recorded k u.db ≡ true = (carry k h).now in
      rw f.told (ground (arith, f.new, stored, str_eq_iff k f.key));
  kept = λ k h.
      let c : contains (f.key ∷ []) k ≡ true = ap (λ l. contains l k) (sym f.told) ∙ h in
      let same : f.key ≡ k = ground (arith, str_eq_iff k f.key) in rw (← same) f.kept;
}

-- What is stored for good stays so.
carried :
    {A : Type 0} (s : NoveltyStore) (m : Sql A)
    → ((k : Str) → Keeps (Recorded k) m)
    → Ensures (λ _ t. (k : Str) → Holds (Recorded k) s → Holds (Recorded k) t) m s
carried s m k = record {
  holds =
      OnOk-state (λ t. (j : Str) → Holds (Recorded j) s → Holds (Recorded j) t) (m s).0 (m s).1
        (λ j. (k j).at s);
}

-- Whatever statements fail and whatever transaction an earlier failure left open: a call that
-- succeeds alerts only coalitions whose key was not stored, stores for good what it alerts, and
-- alerts no coalition twice.
pub process_match-Once :
    (clock : Clock) (ignore : List Str) (policy : NoveltyPolicy) (ev : MatchEvent)
    (s s' : NoveltyStore) (alerts : List NoveltyAlert) (stats : ProcessStats)
    → process_match clock ignore policy ev s ≡ (ok (alerts, stats), s')
    → Once s alerts s'
unfolding process_match
process_match-Once clock ignore policy ev s s' alerts stats =
    let full = unique_keywords ev in
    Ensures-ok (λ o t. Once s o.0 t) (process_match clock ignore policy ev) s s' (alerts, stats)
      (Ensures-bind _
        (carried s (record_brands full) (λ k. Keeps-record_brands (Recorded-IsStable k) full))
        λ _ t h.
          Ensures-bind _
            (carried t (tier_a_brands ignore policy full)
              (λ k. Keeps-tier_a_brands (Recorded-IsStable k) ignore policy full))
            λ brands u g.
              Ensures-weaken (λ o v told. Told-Once s u o.0 v (λ k r. g k (h k r)) told)
                (process_brands-Tells clock policy full ev brands u))
