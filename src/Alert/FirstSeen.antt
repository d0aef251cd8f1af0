-- ===== src/Alert/FirstSeen.antt =====
-- src/novelty_alert.rs: a coalition is alerted once, whatever statements fail.
use ct_firehose_filter.Prelude.{
  ◌≡◌, refl, ap, Bool, true, false, not, ◌&&◌, List, [], ◌∷◌, ◌++◌, arith, if◌then◌else◌, Str,
}
use ct_firehose_filter.Prelude.Int.{ℤ}
use ct_firehose_filter.Event.{MatchEvent}
use ct_firehose_filter.Novelty.Sql.{Db, NoveltyStore}
use ct_firehose_filter.Novelty.Store.{insert_coalition, insert_multi_brand_cert, Clock, join_fields}
use ct_firehose_filter.Novelty.Capture.{is_recorded}
use ct_firehose_filter.Novelty.Keeps.{Holds, Keeps-if, Keeps-pure}
use ct_firehose_filter.Alert.Policy.{NoveltyPolicy, NoveltyAlert, NoveltyKind, tier_a, tier_b}
use ct_firehose_filter.Alert.Brands.{normalized_hosts}
use ct_firehose_filter.Alert.Process.{Outcome, alert_a, want_emit, process_coalition}
use ct_firehose_filter.Alert.Ensures.{Ensures, Ensures-any, Ensures-bind, Ensures-weaken}
use ct_firehose_filter.Alert.Gates.{told-Alerts}
use ct_firehose_filter.Alert.Stability.{Keeps-insert_hosts, Keeps-report_new}
use ct_firehose_filter.Alert.Recorded.{
  Recorded, Recorded-IsStable, Ensures-both, Ensures-kept, insert_multi_brand_cert-First,
}

abbrev pub key_of : NoveltyKind → List Str
key_of (tier_a brands) = join_fields brands ∷ []
key_of (tier_b brand host hosts) = []

-- The keys of the coalitions that are alerted.
abbrev pub alerted_keys : List NoveltyAlert → List Str
alerted_keys [] = []
alerted_keys (a ∷ rest) = key_of a.kind ++ alerted_keys rest

-- One coalition is alerted, whose key was not stored and now is.
pub record Fresh (start : Db) (alerts : List NoveltyAlert) (t : NoveltyStore) : Type 0 where
  pub key : Str
  pub told : alerted_keys alerts ≡ key ∷ []
  pub new : is_recorded key start ≡ false
  pub kept : Holds (Recorded key) t

pub data Told (start : Db) (alerts : List NoveltyAlert) (t : NoveltyStore) : Type 0 where
  silent : alerted_keys alerts ≡ [] → Told start alerts t
  fresh : Fresh start alerts t → Told start alerts t

abbrev pub Tells : Db → Outcome → NoveltyStore → Type 0
Tells start o t = Told start o.0 t

Told-once :
    (policy : NoveltyPolicy) (brands : List Str) (ev : MatchEvent) (emit is_new : Bool) (start : Db)
    (t : NoveltyStore) (alerts : List NoveltyAlert)
    → alerts ≡ (if emit && not (not is_new) then alert_a brands ev ∷ [] else [])
    → ((emit && is_new) ≡ true
        → (is_recorded (join_fields brands) start ≡ false)
          × Holds (Recorded (join_fields brands)) t)
    → Told start alerts t
Told-once policy brands ev true true start t alerts e h = fresh (record {
  key = join_fields brands;
  told = ap alerted_keys e;
  new = (h refl).0;
  kept = (h refl).1;
})
Told-once policy brands ev true false start t alerts e h = silent (ap alerted_keys e)
Told-once policy brands ev false is_new start t alerts e h = silent (ap alerted_keys e)

-- The condition under which the key of a coalition is stored for good.
abbrev Emits : Bool → Bool → Type 0
Emits emit is_new = (emit && is_new) ≡ true

inserted-Emits :
    (clock : Clock) (policy : NoveltyPolicy) (brands : List Str) (ev : MatchEvent) (ts : ℤ)
    (emit : Bool) (s : NoveltyStore)
    → Ensures
        (λ is_new t.
          Emits emit is_new
          → (is_recorded (join_fields brands) s.db ≡ false)
            × Holds (Recorded (join_fields brands)) t)
        (if emit
          then insert_multi_brand_cert clock brands ev ts
          else insert_coalition (join_fields brands) ts)
        s
inserted-Emits clock policy brands ev ts true s =
    Ensures-weaken (λ a t h e. h e) (insert_multi_brand_cert-First clock brands ev ts s)
inserted-Emits clock policy brands ev ts false s =
    Ensures-weaken (λ a t _ e. absurd cc) (Ensures-any (insert_coalition (join_fields brands) ts) s)

pub process_coalition-Tells :
    (clock : Clock) (policy : NoveltyPolicy) (full brands : List Str) (ev : MatchEvent)
    (s : NoveltyStore)
    → Ensures (Tells s.db) (process_coalition clock policy full brands ev) s
unfolding process_coalition
process_coalition-Tells clock policy full brands ev s =
    let stable = Recorded-IsStable (join_fields brands) in
    let emit = want_emit policy brands ev in
    Ensures-bind _ (inserted-Emits clock policy brands ev _ emit s) λ is_new t h.
      Ensures-bind _
        (Ensures-kept (Emits emit is_new)
          (Keeps-if policy.want_b _ _ (Keeps-insert_hosts stable _ (normalized_hosts ev) brands)
            (Keeps-pure tt))
          (λ e. (h e).1))
        λ _ u g.
          Ensures-weaken
            (λ o v r. Told-once policy brands ev emit is_new s.db v o.0 r.0 (λ e. ((h e).0, r.1 e)))
            (Ensures-both (told-Alerts policy full brands ev _ is_new (not is_new) u (ground arith))
              (Ensures-kept (Emits emit is_new)
                (Keeps-if (is_new && policy.want_a) _ _
                  (Keeps-report_new stable policy full brands ev _) (Keeps-pure _))
                g))
