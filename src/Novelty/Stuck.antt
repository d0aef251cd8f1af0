-- ===== src/Novelty/Stuck.antt =====
-- src/novelty.rs: what follows when `COMMIT` fails, after which no `ROLLBACK` is made.
use ct_firehose_filter.Prelude.{
  ℕ, zero, suc, ◌≡◌, ◌∙◌, refl, ap, Bool, true, false, none, some, List, [], ◌∷◌, all, any, arith,
  length, ltb, leb, ◌≤◌, Str, take,
}
use ct_firehose_filter.Prelude.Int.{ℤ}
use ct_firehose_filter.Event.{MatchEvent}
use ct_firehose_filter.Novelty.Sql.{
  Db, NoveltyStore, Ending, Result, ok, err, Sql, ◌>>=◌, statement, next_ending, later_endings,
  begin_immediate, close, commit, in_transaction,
}
use ct_firehose_filter.Novelty.Store.{
  run_all, cooccurrence_statements, record_cooccurrence, Clock, cert_body, insert_multi_brand_cert,
}
use ct_firehose_filter.Novelty.Atomic.{apply_all}

-- A later use of the store that opens a transaction.
pub data Transaction : Type 0 where
  cooccurrence : List Str → Transaction
  capture : Clock → List Str → MatchEvent → ℤ → Transaction

-- A co-occurrence of fewer than two brands opens none.
abbrev pub opens_one : Transaction → Bool
opens_one (cooccurrence brands) = leb 2 (length brands)
opens_one (capture clock brands ev ts) = true

abbrev is_ok : {A : Type 0} → Result A → Bool
is_ok (ok a) = true
is_ok err = false

abbrev pub run_transaction : Transaction → NoveltyStore → Bool × NoveltyStore
run_transaction (cooccurrence brands) s =
    (is_ok (record_cooccurrence brands s).0, (record_cooccurrence brands s).1)
run_transaction (capture clock brands ev ts) s = (
  is_ok (insert_multi_brand_cert clock brands ev ts s).0,
  (insert_multi_brand_cert clock brands ev ts s).1,
)

-- One after the other: whether each succeeded, and the store then.
abbrev pub run_transactions : List Transaction → NoveltyStore → List Bool × NoveltyStore
run_transactions [] s = ([], s)
run_transactions (t ∷ rest) s =
    let r = run_transaction t s in let later = run_transactions rest r.1 in (r.0 ∷ later.0, later.1)

abbrev pub is_applied : Ending → Bool
is_applied Ending.applied = true
is_applied _ = false

in_transaction-stuck :
    {A : Type 0} (body : Sql A) (s : NoveltyStore) (d : Db)
    → s.saved ≡ some d
    → ((in_transaction body s).0 ≡ err)
      × ((in_transaction body s).1.saved ≡ s.saved)
      × ((in_transaction body s).1.db ≡ s.db)
unfolding in_transaction begin_immediate ◌>>=◌
in_transaction-stuck body s d h = ground arith

pub insert_multi_brand_cert-stuck :
    (clock : Clock) (brands : List Str) (ev : MatchEvent) (ts : ℤ) (s : NoveltyStore) (d : Db)
    → s.saved ≡ some d
    → (insert_multi_brand_cert clock brands ev ts s).0 ≡ err
unfolding insert_multi_brand_cert ◌>>=◌
insert_multi_brand_cert-stuck clock brands ev ts s d h =
    rw (in_transaction-stuck (cert_body clock brands ev ts) s d h).0

run_transaction-stuck :
    (t : Transaction) (s : NoveltyStore) (d : Db)
    → s.saved ≡ some d
    → opens_one t ≡ true
    → ((run_transaction t s).0 ≡ false)
      × ((run_transaction t s).1.saved ≡ some d)
      × ((run_transaction t s).1.db ≡ s.db)
unfolding record_cooccurrence insert_multi_brand_cert ◌>>=◌
run_transaction-stuck (cooccurrence brands) s d h several =
    let e : ltb (length brands) 2 ≡ false = ground arith in
    let a = in_transaction-stuck (run_all (cooccurrence_statements brands)) s d h in
    rw e (ap is_ok a.0, a.1 ∙ h, a.2)
run_transaction-stuck (capture clock brands ev ts) s d h several =
    let b = in_transaction-stuck (cert_body clock brands ev ts) s d h in rw b.0 (refl, b.1 ∙ h, b.2)

run_transactions-stuck :
    (ts : List Transaction) (s : NoveltyStore) (d : Db)
    → s.saved ≡ some d
    → all opens_one ts ≡ true
    → (any (λ b. b) (run_transactions ts s).0 ≡ false)
      × ((run_transactions ts s).1.saved ≡ some d)
      × ((run_transactions ts s).1.db ≡ s.db)
run_transactions-stuck [] s d h o = (refl, h, refl)
run_transactions-stuck (t ∷ ts) s d h o =
    let one = run_transaction-stuck t s d h (ground arith) in
    let later = run_transactions-stuck ts (run_transaction t s).1 d one.1 (ground arith) in
    (rw (one.0, later.0) refl, later.1, later.2 ∙ one.2)

applied_first :
    (n : ℕ) (es : List Ending)
    → all is_applied (take (suc n) es) ≡ true
    → (next_ending es ≡ Ending.applied) × (all is_applied (take n (later_endings es)) ≡ true)
applied_first zero [] h = (refl, refl)
applied_first (suc n) [] h = (refl, refl)
applied_first n (Ending.applied ∷ es) h = (refl, h)
applied_first n (Ending.failed ∷ es) h = absurd cc
applied_first n (Ending.rolled_back ∷ es) h = absurd cc

-- Statements that all apply.
record Ran (fs : List (Db → Db)) (s : NoveltyStore) (r : Result (Unit {0}) × NoveltyStore)
    : Type 0 where
  pub answer : r.0 ≡ ok tt
  pub db : r.1.db ≡ apply_all fs s.db
  pub saved : r.1.saved ≡ s.saved
  pub closings : r.1.closings ≡ s.closings

run_all-Ran :
    (fs : List (Db → Db)) (s : NoveltyStore)
    → all is_applied (take (length fs) s.endings) ≡ true
    → Ran fs s (run_all fs s)
unfolding run_all ◌>>=◌ statement
run_all-Ran [] s h = record { answer = refl; db = refl; saved = refl; closings = refl }
run_all-Ran (f ∷ fs) s h =
    let (now, then_on) = applied_first (length fs) s.endings h in
    let t : NoveltyStore = record s { db = f s.db; endings = later_endings s.endings } in
    let later = run_all-Ran fs t then_on in
    rw now (record {
      answer = later.answer;
      db = later.db;
      saved = later.saved;
      closings = later.closings;
    })

failed_commit :
    (fs : List (Db → Db)) (s : NoveltyStore)
    → s.saved ≡ none
    → all is_applied (take (suc (length fs)) s.endings) ≡ true
    → next_ending s.closings ≡ Ending.failed
    → ((in_transaction (run_all fs) s).0 ≡ err)
      × ((in_transaction (run_all fs) s).1.saved ≡ some s.db)
      × ((in_transaction (run_all fs) s).1.db ≡ apply_all fs s.db)
unfolding in_transaction begin_immediate close commit ◌>>=◌
failed_commit fs s closed applies fails =
    let (now, then_on) = applied_first (length fs) s.endings applies in
    let t : NoveltyStore = record s { saved = some s.db; endings = later_endings s.endings } in
    let ran = run_all-Ran fs t then_on in
    rw (now, closed, ran.answer, ran.closings, fails, ran.saved) (refl, refl, ran.db)

-- When all statements of a co-occurrence of two brands or more apply and only its `COMMIT` fails,
-- the call fails and the transaction stays open: its changes are visible on the connection, though
-- not committed. Then every later co-occurrence of two brands or more and every later capture of a
-- coalition, in any sequence of them and however their statements end, fails and changes nothing.
pub failed_commit-stuck :
    (brands : List Str) (later : List Transaction) (s : NoveltyStore)
    → s.saved ≡ none
    → 2 ≤ length brands
    → all is_applied (take (suc (length (cooccurrence_statements brands))) s.endings) ≡ true
    → next_ending s.closings ≡ Ending.failed
    → all opens_one later ≡ true
    → let first = record_cooccurrence brands s in
      let rest = run_transactions later first.1 in
      (first.0 ≡ err)
      × (any (λ b. b) rest.0 ≡ false)
      × (rest.1.saved ≡ some s.db)
      × (rest.1.db ≡ apply_all (cooccurrence_statements brands) s.db)
unfolding record_cooccurrence
failed_commit-stuck brands later s closed several applies fails opens =
    let e : ltb (length brands) 2 ≡ false = ground arith in
    let one = failed_commit (cooccurrence_statements brands) s closed applies fails in
    rw e (
      let rest =
        run_transactions-stuck later (in_transaction (run_all (cooccurrence_statements brands)) s).1
          s.db one.1 opens in
      (one.0, rest.0, rest.1, rest.2 ∙ one.2))
