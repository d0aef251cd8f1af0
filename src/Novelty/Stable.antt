-- ===== src/Novelty/Stable.antt =====
-- src/novelty.rs: a property of the database that each single update keeps is kept by every
-- operation of the store.
use ct_firehose_filter.Prelude.{
  ◌≡◌, Bool, true, false, some, List, [], ◌∷◌, ◌++◌, map, if◌then◌else◌, Str, str_eq, length, ltb,
  arith, inl, inr, Bool-cases,
}
use ct_firehose_filter.Prelude.Int.{ℤ}
use ct_firehose_filter.Event.{MatchEvent}
use ct_firehose_filter.Novelty.Sql.{Db, Cert}
use ct_firehose_filter.Novelty.Store.{
  count_event, insert_partner, refresh_partners, count_multi_brand, partners_for, all_partners,
  cooccurrence_statements, record_cooccurrence, record_appearances, partner_degree, event_count,
  new_coalition, insert_coalition, insert_cert, capture_row, cert_body, insert_multi_brand_cert,
  send_nudge, insert_host, Clock, cert_of, join_fields, join_csv, has_host,
}
use ct_firehose_filter.Novelty.Keeps.{
  Keeps, AllKeep, Keeps-pure, Keeps-bind, Keeps-if, Keeps-statement, Keeps-query, Keeps-run_all,
  Keeps-in_transaction,
}

-- The updates of a database that the statements make.
pub record IsStable (P : Db → Type 0) : Type 0 where
  pub event : (brand : Str) (db : Db) → P db → P (count_event brand db)
  pub partner : (a b : Str) (db : Db) → P db → P (insert_partner a b db)
  pub degree : (brand : Str) (db : Db) → P db → P (refresh_partners brand db)
  pub multi_brand : (db : Db) → P db → P (count_multi_brand db)
  pub coalition : (key : Str) (ts : ℤ) (db : Db) → P db → P (new_coalition key ts db).1
  pub cert :
      (brands : Str) (row : Cert) (db : Db)
      → P db
      → P (record db { multi_brand_certs = (brands, row) ∷ db.multi_brand_certs })
  pub hosts : (rows : List (Str × Str × ℤ)) (db : Db) → P db → P (record db { hosts = rows })

module _ (P : Db → Type 0) where
  AllKeep-append : (fs gs : List (Db → Db)) → AllKeep P fs → AllKeep P gs → AllKeep P (fs ++ gs)
  AllKeep-append [] gs kf kg = kg
  AllKeep-append (f ∷ fs) gs kf kg = (kf.0, AllKeep-append fs gs kf.1 kg)

  AllKeep-map :
      (g : Str → Db → Db)
      → ((b : Str) (db : Db) → P db → P (g b db))
      → (brands : List Str) → AllKeep P (map g brands)
  AllKeep-map g k [] = tt
  AllKeep-map g k (b ∷ brands) = (k b, AllKeep-map g k brands)

module _ {P : Db → Type 0} (stable : IsStable P) where
  AllKeep-partners_for : (a : Str) (brands : List Str) → AllKeep P (partners_for a brands)
  unfolding partners_for
  AllKeep-partners_for a [] = tt
  AllKeep-partners_for a (b ∷ rest) = elim (Bool-cases (str_eq a b)) [
    | inl same ↦ rw same (AllKeep-partners_for a rest)
    | inr other ↦ rw other (stable.partner a b, AllKeep-partners_for a rest)
  ]

  AllKeep-all_partners : (rest brands : List Str) → AllKeep P (all_partners rest brands)
  unfolding all_partners
  AllKeep-all_partners [] brands = tt
  AllKeep-all_partners (a ∷ rest) brands =
      AllKeep-append P (partners_for a brands) (all_partners rest brands)
        (AllKeep-partners_for a brands) (AllKeep-all_partners rest brands)

  pub Keeps-record_cooccurrence : (brands : List Str) → Keeps P (record_cooccurrence brands)
  unfolding record_cooccurrence cooccurrence_statements
  Keeps-record_cooccurrence brands = Keeps-if (ltb (length brands) 2) _ _ (Keeps-pure tt) (
      Keeps-in_transaction _ (
        Keeps-run_all _ (
          AllKeep-append P (map count_event brands) _
            (AllKeep-map P count_event stable.event brands)
            (AllKeep-append P (all_partners brands brands) _ (AllKeep-all_partners brands brands) (
              AllKeep-append P (map refresh_partners brands) _
                (AllKeep-map P refresh_partners stable.degree brands) (stable.multi_brand, tt))))))

  pub Keeps-record_appearances : (brands : List Str) → Keeps P (record_appearances brands)
  unfolding record_appearances
  Keeps-record_appearances brands = Keeps-run_all _ (AllKeep-map P count_event stable.event brands)

  pub Keeps-insert_coalition : (key : Str) (ts : ℤ) → Keeps P (insert_coalition key ts)
  unfolding insert_coalition
  Keeps-insert_coalition key ts = Keeps-statement _ (λ db p a after e.
      let same : (new_coalition key ts db).1 ≡ after = cc in
      rw (← same) (stable.coalition key ts db p))

  insert_cert-keeps :
      (brands : Str) (row : Cert) (db : Db)
      → P db
      → (a : Unit {0}) (after : Db) → insert_cert brands row db ≡ some (a, after)
      → P after
  unfolding insert_cert
  insert_cert-keeps brands row db p a after e =
      let same : record db { multi_brand_certs = (brands, row) ∷ db.multi_brand_certs } ≡ after =
        ground arith in
      rw (← same) (stable.cert brands row db p)

  Keeps-capture_row :
      (clock : Clock) (brands : List Str) (ev : MatchEvent) (ts : ℤ) (is_new : Bool)
      → Keeps P (capture_row clock brands ev ts is_new)
  unfolding capture_row
  Keeps-capture_row clock brands ev ts true =
      Keeps-bind _ _ (Keeps-statement _ (insert_cert-keeps (join_csv brands) (cert_of clock ev ts)))
        (λ _. Keeps-pure true)
  Keeps-capture_row clock brands ev ts false = Keeps-pure false

  Keeps-send_nudge : (b : Bool) → Keeps P (send_nudge b)
  unfolding send_nudge
  Keeps-send_nudge true = record { at = λ s h. record { now = h.now; undone = h.undone } }
  Keeps-send_nudge false = record { at = λ s h. h }

  pub Keeps-insert_multi_brand_cert :
      (clock : Clock) (brands : List Str) (ev : MatchEvent) (ts : ℤ)
      → Keeps P (insert_multi_brand_cert clock brands ev ts)
  unfolding insert_multi_brand_cert cert_body
  Keeps-insert_multi_brand_cert clock brands ev ts =
      Keeps-bind _ _
        (Keeps-in_transaction _ (
          Keeps-bind _ _ (Keeps-insert_coalition (join_fields brands) ts)
            (Keeps-capture_row clock brands ev ts)))
        Keeps-send_nudge

  pub Keeps-insert_host : (brand host : Str) (ts : ℤ) → Keeps P (insert_host brand host ts)
  unfolding insert_host
  Keeps-insert_host brand host ts = Keeps-statement _ (λ db p a after e.
      let same : record db {
        hosts = if has_host brand host db.hosts then db.hosts else (brand, host, ts) ∷ db.hosts;
      }
          ≡ after =
        cc in
      rw (← same) (stable.hosts _ db p))

  pub Keeps-partner_degree : (brand : Str) → Keeps P (partner_degree brand)
  unfolding partner_degree
  Keeps-partner_degree brand = Keeps-query _

  pub Keeps-event_count : (brand : Str) → Keeps P (event_count brand)
  unfolding event_count
  Keeps-event_count brand = Keeps-query _
