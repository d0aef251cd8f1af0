-- ===== src/Alert/Recorded.antt =====
-- src/novelty.rs: the keys of the coalitions that are stored for good.
use ct_firehose_filter.Prelude.{
  ◌≡◌, refl, Bool, true, false, Option, none, some, List, arith, Str, str_eq_iff,
}
use ct_firehose_filter.Prelude.Int.{ℤ}
use ct_firehose_filter.Event.{MatchEvent}
use ct_firehose_filter.Novelty.Table.{lookup, lookup-insert_or_ignore}
use ct_firehose_filter.Novelty.Sql.{Db, NoveltyStore, Result, ok, err, Sql}
use ct_firehose_filter.Novelty.Store.{
  count_event, insert_partner, refresh_partners, count_multi_brand, new_coalition,
  insert_multi_brand_cert, Clock, join_fields,
}
use ct_firehose_filter.Novelty.Stuck.{insert_multi_brand_cert-stuck}
use ct_firehose_filter.Novelty.Capture.{
  Captured, captured, is_recorded, insert_multi_brand_cert-Committed,
}
use ct_firehose_filter.Novelty.Keeps.{Holds, Keeps}
use ct_firehose_filter.Novelty.Stable.{IsStable}
use ct_firehose_filter.Alert.Ensures.{OnOk, Ensures, Ensures-weaken}
use ct_firehose_filter.Alert.Counting.{OnOk-Committed}

-- The key of a coalition is stored, also after an undo.
abbrev pub Recorded : Str → Db → Type 0
Recorded key db = is_recorded key db ≡ true

Recorded-new_coalition :
    (key k : Str) (ts : ℤ) (db : Db) → Recorded key db → Recorded key (new_coalition k ts db).1
unfolding new_coalition
Recorded-new_coalition key k ts db h =
    ground (arith, lookup-insert_or_ignore k key ts db.coalitions)

pub Recorded-IsStable : (key : Str) → IsStable (Recorded key)
Recorded-IsStable key = record {
  event = λ brand db h. unfold count_event in h;
  partner = λ a b db h. unfold insert_partner in h;
  degree = λ brand db h. unfold refresh_partners in h;
  multi_brand = λ db h. unfold count_multi_brand in h;
  coalition = λ k ts db h. Recorded-new_coalition key k ts db h;
  cert = λ brands row db h. h;
  hosts = λ rows db h. h;
}

OnOk-both :
    {A : Type 0} (P Q : A → NoveltyStore → Type 0) (r : Result A) (s : NoveltyStore)
    → OnOk P r s
    → OnOk Q r s
    → OnOk (λ a t. P a t × Q a t) r s
OnOk-both P Q (ok a) s p q = (p, q)
OnOk-both P Q err s p q = tt

pub Ensures-both :
    {A : Type 0} {P Q : A → NoveltyStore → Type 0} {m : Sql A} {s : NoveltyStore}
    → Ensures P m s
    → Ensures Q m s
    → Ensures (λ a t. P a t × Q a t) m s
Ensures-both {P} {Q} {m} {s} p q = record { holds = OnOk-both P Q (m s).0 (m s).1 p.holds q.holds }

pub OnOk-state :
    {A : Type 0} (Q : NoveltyStore → Type 0) (r : Result A) (s : NoveltyStore)
    → Q s
    → OnOk (λ _ t. Q t) r s
OnOk-state Q (ok a) s q = q
OnOk-state Q err s q = tt

-- What an action keeps holds after it, under the same condition as before.
pub Ensures-kept :
    {A : Type 0} {P : Db → Type 0} {m : Sql A} (C : Type 0) {s : NoveltyStore}
    → Keeps P m
    → (C → Holds P s)
    → Ensures (λ _ t. C → Holds P t) m s
Ensures-kept {P} {m} C {s} k h = record {
  holds = OnOk-state (λ t. C → Holds P t) (m s).0 (m s).1 (λ c. k.at s (h c));
}

-- The insertion told that the key is new.
abbrev pub First : Str → Db → Bool → NoveltyStore → Type 0
First key start is_new t = is_new ≡ true → (is_recorded key start ≡ false) × Holds (Recorded key) t

captured-Recorded :
    (clock : Clock) (brands : List Str) (ev : MatchEvent) (ts : ℤ) (start db : Db)
    → db ≡ captured clock brands ev ts start
    → Recorded (join_fields brands) db
captured-Recorded clock brands ev ts start db e =
    rw e (unfold lookup in ground (arith, str_eq_iff (join_fields brands) (join_fields brands)))

Captured-First :
    (clock : Clock) (brands : List Str) (ev : MatchEvent) (ts : ℤ) (start : Db) (is_new : Bool)
    (t : NoveltyStore)
    → t.saved ≡ none
    → Captured clock brands ev ts start is_new t.db
    → First (join_fields brands) start is_new t
Captured-First clock brands ev ts start true t closed c _ = (
  ground arith,
  record { now = captured-Recorded clock brands ev ts start t.db c.1; undone = λ d e. cc },
)
Captured-First clock brands ev ts start false t closed c e = absurd cc

OnOk-err :
    {A : Type 0} (Q : A → NoveltyStore → Type 0) (r : Result A) (s : NoveltyStore)
    → r ≡ err
    → OnOk Q r s
OnOk-err Q (ok a) s e = absurd cc
OnOk-err Q err s e = tt

pub insert_multi_brand_cert-First :
    (clock : Clock) (brands : List Str) (ev : MatchEvent) (ts : ℤ) (s : NoveltyStore)
    → Ensures (First (join_fields brands) s.db) (insert_multi_brand_cert clock brands ev ts) s
insert_multi_brand_cert-First clock brands ev ts s = by_saved s.saved refl
  where
    by_saved :
        (o : Option Db)
        → s.saved ≡ o
        → Ensures (First (join_fields brands) s.db) (insert_multi_brand_cert clock brands ev ts) s
    by_saved none closed =
        Ensures-weaken (λ a t r. Captured-First clock brands ev ts s.db a t r.0 r.1)
          (record {
            holds =
                OnOk-Committed s.db s.closings _ _ _
                  (insert_multi_brand_cert-Committed clock brands ev ts s closed);
          })
    by_saved (some d) o = record {
      holds = OnOk-err _ _ _ (insert_multi_brand_cert-stuck clock brands ev ts s d o);
    }
