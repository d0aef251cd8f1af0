-- ===== src/Novelty/Counts.antt =====
-- src/novelty.rs: what the statements of `record_cooccurrence` do to the counts.
use ct_firehose_filter.Prelude.{
  ℕ, ◌+◌, ◌≡◌, refl, ◌∙◌, ap, List, [], ◌∷◌, ◌++◌, map, arith, inl, inr, if◌then◌else◌, Str, str_eq,
  str_eq_iff, Bool-cases,
}
use ct_firehose_filter.Novelty.Table.{lookup, lookup-upsert, lookup-update}
use ct_firehose_filter.Novelty.Sql.{Db}
use ct_firehose_filter.Novelty.Store.{
  events_of, partners_of, count_event, insert_partner, refresh_partners, count_multi_brand,
  partners_for, all_partners, cooccurrence_statements,
}
use ct_firehose_filter.Novelty.Atomic.{apply_all}

-- How often the text stands in the list.
abbrev pub occurrences : Str → List Str → ℕ
occurrences x [] = 0
occurrences x (y ∷ ys) = (if str_eq x y then 1 else 0) + occurrences x ys

abbrev pub events_in : Str → Db → ℕ
events_in x db = events_of (lookup x db.brand_degree)

abbrev pub partners_in : Str → Db → ℕ
partners_in x db = partners_of (lookup x db.brand_degree)

pub apply_all-append :
    (fs gs : List (Db → Db)) (db : Db) → apply_all (fs ++ gs) db ≡ apply_all gs (apply_all fs db)
apply_all-append [] gs db = refl
apply_all-append (f ∷ fs) gs db = apply_all-append fs gs (f db)

-- A part of the database that no statement changes.
pub apply_all-map_keeps {ℓ} :
    {X : Type ℓ} (part : Db → X) (g : Str → Db → Db)
    → ((b : Str) (db : Db) → part (g b db) ≡ part db)
    → (brands : List Str) (db : Db) → part (apply_all (map g brands) db) ≡ part db
apply_all-map_keeps part g h [] db = refl
apply_all-map_keeps part g h (b ∷ brands) db = apply_all-map_keeps part g h brands (g b db) ∙ h b db

apply_all-partners_for_keeps {ℓ} :
    {X : Type ℓ} (part : Db → X)
    → ((a b : Str) (db : Db) → part (insert_partner a b db) ≡ part db)
    → (a : Str) (brands : List Str) (db : Db)
    → part (apply_all (partners_for a brands) db) ≡ part db
unfolding partners_for
apply_all-partners_for_keeps part h a [] db = refl
apply_all-partners_for_keeps part h a (b ∷ brands) db = elim (Bool-cases (str_eq a b)) [
  | inl same ↦ rw same (apply_all-partners_for_keeps part h a brands db)
  | inr other ↦
      rw other (apply_all-partners_for_keeps part h a brands (insert_partner a b db) ∙ h a b db)
]

pub apply_all-all_partners_keeps {ℓ} :
    {X : Type ℓ} (part : Db → X)
    → ((a b : Str) (db : Db) → part (insert_partner a b db) ≡ part db)
    → (rest brands : List Str) (db : Db) → part (apply_all (all_partners rest brands) db) ≡ part db
unfolding all_partners
apply_all-all_partners_keeps part h [] brands db = refl
apply_all-all_partners_keeps part h (a ∷ rest) brands db =
    ap part (apply_all-append (partners_for a brands) (all_partners rest brands) db)
    ∙ apply_all-all_partners_keeps part h rest brands (apply_all (partners_for a brands) db)
    ∙ apply_all-partners_for_keeps part h a brands db

-- The four groups of statements, one after the other.
module _ (brands : List Str) (db : Db) where
  abbrev pub counted : Db
  counted = apply_all (map count_event brands) db

  abbrev pub paired : Db
  paired = apply_all (all_partners brands brands) counted

  abbrev pub refreshed : Db
  refreshed = apply_all (map refresh_partners brands) paired

  pub cooccurrence_groups :
      apply_all (cooccurrence_statements brands) db ≡ count_multi_brand refreshed
  unfolding cooccurrence_statements
  cooccurrence_groups =
      apply_all-append (map count_event brands) _ db
      ∙ apply_all-append (all_partners brands brands) _ counted
      ∙ apply_all-append (map refresh_partners brands) _ paired

count_event-events :
    (x b : Str) (db : Db)
    → events_in x (count_event b db) ≡ events_in x db + (if str_eq x b then 1 else 0)
unfolding count_event
count_event-events x b db = rw lookup-upsert (ground (arith, str_eq_iff x b, str_eq_iff b x))

counted-events :
    (x : Str) (brands : List Str) (db : Db)
    → events_in x (counted brands db) ≡ events_in x db + occurrences x brands
counted-events x [] db = omega arith
counted-events x (b ∷ brands) db =
    omega (arith, counted-events x brands (count_event b db), count_event-events x b db)

refresh_partners-events :
    (x b : Str) (db : Db) → events_in x (refresh_partners b db) ≡ events_in x db
unfolding refresh_partners
refresh_partners-events x b db = rw lookup-update (ground (arith, str_eq_iff b x))

-- A co-occurrence counts one event for each mention of a brand, and none for any other.
pub cooccurrence-events :
    (x : Str) (brands : List Str) (db : Db)
    → events_in x (apply_all (cooccurrence_statements brands) db)
      ≡ events_in x db + occurrences x brands
unfolding count_multi_brand
cooccurrence-events x brands db =
    ap (events_in x) (cooccurrence_groups brands db)
    ∙ apply_all-map_keeps (events_in x) refresh_partners (refresh_partners-events x) brands
        (paired brands db)
    ∙ apply_all-all_partners_keeps (events_in x) (λ a b d. unfold insert_partner in refl) brands
        brands (counted brands db)
    ∙ counted-events x brands db

-- The counting leaves the recorded coalitions alone.
pub cooccurrence-coalitions :
    (brands : List Str) (db : Db)
    → (apply_all (cooccurrence_statements brands) db).coalitions ≡ db.coalitions
unfolding count_multi_brand
cooccurrence-coalitions brands db =
    ap (λ (d : Db). d.coalitions) (cooccurrence_groups brands db)
    ∙ apply_all-map_keeps (λ d. d.coalitions) refresh_partners
        (λ b d. unfold refresh_partners in refl) brands (paired brands db)
    ∙ apply_all-all_partners_keeps (λ d. d.coalitions) (λ a b d. unfold insert_partner in refl)
        brands brands (counted brands db)
    ∙ apply_all-map_keeps (λ d. d.coalitions) count_event (λ b d. unfold count_event in refl) brands
        db
