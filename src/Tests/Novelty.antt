-- ===== src/Tests/Novelty.antt =====
-- src/novelty.rs on small inputs.
use ct_firehose_filter.Prelude.{
  ◌+◌, ◌≡◌, refl, false, any, List, not, ◌&&◌, ◌||◌, some, [], ◌∷◌, str_eq, contains, arith, max,
  if◌then◌else◌,
}
use ct_firehose_filter.Prelude.Int.{pos}
use ct_firehose_filter.Novelty.Sql.{err}
use ct_firehose_filter.Novelty.Store.{
  cooccurrence_statements, record_cooccurrence, insert_multi_brand_cert, partner_count,
}
use ct_firehose_filter.Novelty.Atomic.{apply_all, Committed, record_cooccurrence-Committed}
use ct_firehose_filter.Novelty.Stuck.{Transaction, run_transactions, failed_commit-stuck}
use ct_firehose_filter.Novelty.Capture.{Captured, insert_multi_brand_cert-Committed}
use ct_firehose_filter.Novelty.Counts.{events_in, partners_in, occurrences, cooccurrence-events}
use ct_firehose_filter.Novelty.Partners.{pair_in, cooccurrence-pair, cooccurrence-partners}
use ct_firehose_filter.Tests.Data.{
  clock, alpha, beta, pair_event, empty_db, failing_store, refusing_store,
}

record_cooccurrence-Committed_example :
    Committed empty_db failing_store.closings
      (λ _ db. db ≡ apply_all (cooccurrence_statements (alpha ∷ beta ∷ [])) empty_db)
      (record_cooccurrence (alpha ∷ beta ∷ []) failing_store).0
      (record_cooccurrence (alpha ∷ beta ∷ []) failing_store).1
record_cooccurrence-Committed_example =
    record_cooccurrence-Committed (alpha ∷ beta ∷ []) failing_store refl (omega arith)

insert_multi_brand_cert-Committed_example :
    Committed empty_db failing_store.closings
      (Captured clock (alpha ∷ beta ∷ []) pair_event (pos 100) empty_db)
      (insert_multi_brand_cert clock (alpha ∷ beta ∷ []) pair_event (pos 100) failing_store).0
      (insert_multi_brand_cert clock (alpha ∷ beta ∷ []) pair_event (pos 100) failing_store).1
insert_multi_brand_cert-Committed_example =
    insert_multi_brand_cert-Committed clock (alpha ∷ beta ∷ []) pair_event (pos 100) failing_store
      refl

abbrev later : List Transaction
later =
    Transaction.capture clock (alpha ∷ beta ∷ []) pair_event (pos 100)
    ∷ Transaction.cooccurrence (beta ∷ alpha ∷ [])
    ∷ []

failed_commit-stuck_example :
    let first = record_cooccurrence (alpha ∷ beta ∷ []) refusing_store in
    let rest = run_transactions later first.1 in
    (first.0 ≡ err)
    × (any (λ b. b) rest.0 ≡ false)
    × (rest.1.saved ≡ some empty_db)
    × (rest.1.db ≡ apply_all (cooccurrence_statements (alpha ∷ beta ∷ [])) empty_db)
failed_commit-stuck_example =
    failed_commit-stuck (alpha ∷ beta ∷ []) later refusing_store refl (omega arith) refl refl refl

cooccurrence-events_example :
    events_in alpha (apply_all (cooccurrence_statements (alpha ∷ beta ∷ [])) empty_db)
    ≡ events_in alpha empty_db + occurrences alpha (alpha ∷ beta ∷ [])
cooccurrence-events_example = cooccurrence-events alpha (alpha ∷ beta ∷ []) empty_db

cooccurrence-pair_example :
    pair_in alpha beta (apply_all (cooccurrence_statements (alpha ∷ beta ∷ [])) empty_db) ≡ (
      pair_in alpha beta empty_db
      || (contains (alpha ∷ beta ∷ []) alpha
          && (contains (alpha ∷ beta ∷ []) beta && not (str_eq alpha beta))))
cooccurrence-pair_example = cooccurrence-pair alpha beta (alpha ∷ beta ∷ []) empty_db

cooccurrence-partners_example :
    partners_in alpha (apply_all (cooccurrence_statements (alpha ∷ beta ∷ [])) empty_db) ≡ (
      if contains (alpha ∷ beta ∷ []) alpha
      then max
          (partners_in alpha empty_db)
          (partner_count alpha (apply_all (cooccurrence_statements (alpha ∷ beta ∷ [])) empty_db))
      else partners_in alpha empty_db)
cooccurrence-partners_example = cooccurrence-partners alpha (alpha ∷ beta ∷ []) empty_db
