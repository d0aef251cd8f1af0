-- ===== src/Novelty/Capture.antt =====
-- src/novelty.rs: the transaction of `insert_multi_brand_cert`.
use ct_firehose_filter.Prelude.{
  ◌≡◌, Bool, true, false, none, some, List, ◌∷◌, arith, if◌then◌else◌, Str, is_some, not,
}
use ct_firehose_filter.Prelude.Int.{ℤ}
use ct_firehose_filter.Event.{MatchEvent}
use ct_firehose_filter.Novelty.Table.{
  lookup, insert_or_ignore, insert_or_ignore_old, insert_or_ignore_new,
}
use ct_firehose_filter.Novelty.Sql.{
  Ending, Db, NoveltyStore, Result, ok, err, continue, ◌>>=◌, pure,
}
use ct_firehose_filter.Novelty.Store.{
  Clock, cert_of, join_fields, join_csv, new_coalition, insert_coalition, insert_cert, capture_row,
  cert_body, insert_multi_brand_cert, send_nudge,
}
use ct_firehose_filter.Novelty.Atomic.{
  IsInside, Follows, bind-Follows, in_transaction-Committed, Committed,
}

-- What capturing a coalition writes: its key and its row.
abbrev pub captured : Clock → List Str → MatchEvent → ℤ → Db → Db
captured clock brands ev ts db = record db {
  coalitions = (join_fields brands, ts) ∷ db.coalitions;
  multi_brand_certs = (join_csv brands, cert_of clock ev ts) ∷ db.multi_brand_certs;
}

abbrev pub is_recorded : Str → Db → Bool
is_recorded key db = is_some (lookup key db.coalitions)

abbrev pub Captured : Clock → List Str → MatchEvent → ℤ → Db → Bool → Db → Type 0
Captured clock brands ev ts start inserted db =
    (inserted ≡ not (is_recorded (join_fields brands) start))
    × (db ≡ (if inserted then captured clock brands ev ts start else start))

module _ (clock : Clock) (brands : List Str) (ev : MatchEvent) (ts : ℤ) (start : Db)
    (c : List Ending) where
  abbrev KeyWritten : Bool → Db → Type 0
  KeyWritten is_new db =
      (is_new ≡ not (is_recorded (join_fields brands) start))
      × (db
          ≡ record start { coalitions = insert_or_ignore (join_fields brands) ts start.coalitions })

  row_written :
      (db after : Db) (a : Unit {0})
      → KeyWritten true db
      → insert_cert (join_csv brands) (cert_of clock ev ts) db ≡ some (a, after)
      → after ≡ captured clock brands ev ts start
  unfolding insert_cert
  row_written db after a m e =
      ground (arith, insert_or_ignore_new (join_fields brands) ts start.coalitions)

  nothing_new : (db : Db) → KeyWritten false db → db ≡ start
  nothing_new db m = ground (arith, insert_or_ignore_old (join_fields brands) ts start.coalitions)

  key_row :
      (db after : Db) (a : Bool)
      → db ≡ start
      → some (new_coalition (join_fields brands) ts db) ≡ some (a, after)
      → KeyWritten a after
  unfolding new_coalition
  key_row db after a d e = ground arith

  capture_row-Follows :
      (is_new : Bool) (s : NoveltyStore)
      → IsInside start c s
      → KeyWritten is_new s.db
      → Follows start c
          (Captured clock brands ev ts start)
          (capture_row clock brands ev ts is_new s).0
          (capture_row clock brands ev ts is_new s).1
  unfolding capture_row ◌>>=◌
  capture_row-Follows true s o m =
      bind-Follows start c (λ _ db. db ≡ captured clock brands ev ts start)
        (Captured clock brands ev ts start) (insert_cert (join_csv brands) (cert_of clock ev ts))
        (λ _. pure true) s o (λ a db. row_written s.db db a m) (λ a t ot e. (ot, (m.0, e)))
  capture_row-Follows false s o m = (o, (m.0, nothing_new s.db m))

  cert_body-Follows :
      (s : NoveltyStore)
      → IsInside start c s
      → s.db ≡ start
      → Follows start c
          (Captured clock brands ev ts start)
          (cert_body clock brands ev ts s).0
          (cert_body clock brands ev ts s).1
  unfolding cert_body insert_coalition ◌>>=◌
  cert_body-Follows s o d =
      bind-Follows start c KeyWritten (Captured clock brands ev ts start)
        (λ db. some (new_coalition (join_fields brands) ts db)) (capture_row clock brands ev ts) s o
        (λ a db. key_row s.db db a d) capture_row-Follows

send_nudge-Committed :
    (start : Db) (c : List Ending) (target : Bool → Db → Type 0) (r : Result Bool)
    (s : NoveltyStore)
    → Committed start c target r s
    → Committed start c target (continue r send_nudge s).0 (continue r send_nudge s).1
unfolding send_nudge
send_nudge-Committed start c target (ok true) s h = h
send_nudge-Committed start c target (ok false) s h = h
send_nudge-Committed start c target err s h = h

-- However the statements end, the key of a coalition and its captured row are written together or
-- not at all. The call succeeds with `true` exactly on a key that was not there, and then both are
-- written; with `false` nothing changes. After an error what is stored is what was there before and
-- no transaction is open, unless the closing `COMMIT` or `ROLLBACK` itself failed: then the
-- transaction is still open, and undoing it gives what was there before.
pub insert_multi_brand_cert-Committed :
    (clock : Clock) (brands : List Str) (ev : MatchEvent) (ts : ℤ) (s : NoveltyStore)
    → s.saved ≡ none
    → Committed s.db s.closings
        (Captured clock brands ev ts s.db)
        (insert_multi_brand_cert clock brands ev ts s).0
        (insert_multi_brand_cert clock brands ev ts s).1
unfolding insert_multi_brand_cert ◌>>=◌
insert_multi_brand_cert-Committed clock brands ev ts s closed =
    send_nudge-Committed s.db s.closings _ _ _ (
      in_transaction-Committed (Captured clock brands ev ts s.db) (cert_body clock brands ev ts) s
        closed (cert_body-Follows clock brands ev ts s.db s.closings))
