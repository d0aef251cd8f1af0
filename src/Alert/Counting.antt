-- ===== src/Alert/Counting.antt =====
-- src/novelty_alert.rs: the counting at the start of `process_match`.
use ct_firehose_filter.Prelude.{
  ◌≡◌, refl, sym, ◌∙◌, ap, false, not, Option, none, some, List, [], ◌∷◌, map, length, is_empty,
  arith, leb, if◌then◌else◌, Str, inl, inr, Bool-cases,
}
use ct_firehose_filter.Novelty.Sql.{
  Db, NoveltyStore, Ending, Result, ok, err, finish, statement, next_ending, later_endings,
}
use ct_firehose_filter.Novelty.Store.{
  run_all, count_event, cooccurrence_statements, record_appearances,
}
use ct_firehose_filter.Novelty.Atomic.{apply_all, Committed, record_cooccurrence-Committed}
use ct_firehose_filter.Novelty.Counts.{apply_all-map_keeps, cooccurrence-coalitions}
use ct_firehose_filter.Alert.Process.{record_brands}
use ct_firehose_filter.Alert.Ensures.{
  OnOk, Ensures, Ensures-bind, Ensures-if, Ensures-pure, Ensures-weaken,
}

-- The store after the match's brands are counted.
abbrev pub counted_db : List Str → Db → Db
counted_db full db =
    if leb 2 (length full)
    then apply_all (cooccurrence_statements full) db
    else apply_all (map count_event full) db

finish-applied :
    {A : Type 0} (e : Ending) (r : Option (A × Db)) (s : NoveltyStore)
    → OnOk (λ a t. (t.saved ≡ s.saved) × (r ≡ some (a, t.db))) (finish e r s).0 (finish e r s).1
finish-applied Ending.applied none s = tt
finish-applied Ending.applied (some (a, db)) s = (refl, refl)
finish-applied Ending.failed r s = tt
finish-applied Ending.rolled_back r s = tt

pub statement-applied :
    {A : Type 0} (run : Db → Option (A × Db)) (s : NoveltyStore)
    → Ensures (λ a t. (t.saved ≡ s.saved) × (run s.db ≡ some (a, t.db))) (statement run) s
unfolding statement
statement-applied run s = record {
  holds =
      finish-applied (next_ending s.endings) (run s.db)
        (record s { endings = later_endings s.endings });
}

abbrev Reached : NoveltyStore → Db → Unit {0} → NoveltyStore → Type 0
Reached s db a t = (t.saved ≡ s.saved) × (t.db ≡ db)

run_all-Reached :
    (fs : List (Db → Db)) (s : NoveltyStore)
    → Ensures (Reached s (apply_all fs s.db)) (run_all fs) s
unfolding run_all
run_all-Reached [] s = Ensures-pure _ (refl, refl)
run_all-Reached (f ∷ rest) s = Ensures-bind _ (statement-applied _ s) λ a t r.
    let e : t.db ≡ f s.db = cc in
    Ensures-weaken (λ b u q. (q.0 ∙ r.0, q.1 ∙ ap (apply_all rest) e)) (run_all-Reached rest t)

pub OnOk-Committed :
    {A : Type 0} (start : Db) (c : List Ending) (target : A → Db → Type 0) (r : Result A)
    (s : NoveltyStore)
    → Committed start c target r s
    → OnOk (λ a t. (t.saved ≡ none) × target a t.db) r s
OnOk-Committed start c target (ok a) s h = h
OnOk-Committed start c target err s h = tt

counted_nothing :
    (full : List Str) (db : Db)
    → not (is_empty full) ≡ false
    → apply_all (map count_event full) db ≡ db
counted_nothing [] db h = refl
counted_nothing (b ∷ full) db h = cc

pub record_brands-counted_db :
    (full : List Str) (s : NoveltyStore)
    → s.saved ≡ none
    → Ensures (λ _ t. (t.saved ≡ none) × (t.db ≡ counted_db full s.db)) (record_brands full) s
unfolding record_brands record_appearances
record_brands-counted_db full s closed =
    Ensures-if (leb 2 (length full))
      (λ several. rw several (record {
        holds =
            OnOk-Committed s.db s.closings _ _ _
              (record_cooccurrence-Committed full s closed (ground arith));
      }))
      (λ few. rw few (
        Ensures-if (not (is_empty full))
          (λ _.
            Ensures-weaken (λ _ t r. (r.0 ∙ closed, r.1))
              (run_all-Reached (map count_event full) s))
          (λ none_left. Ensures-pure _ (closed, sym (counted_nothing full s.db none_left)))))

pub counted_db-coalitions :
    (full : List Str) (db : Db) → (counted_db full db).coalitions ≡ db.coalitions
counted_db-coalitions full db = elim (Bool-cases (leb 2 (length full))) [
  | inl several ↦ rw several (cooccurrence-coalitions full db)
  | inr few ↦ rw few (
      apply_all-map_keeps (λ d. d.coalitions) count_event (λ b d. unfold count_event in refl) full
        db)
]
