-- ===== src/Novelty/Partners.antt =====
-- src/novelty.rs: what the statements of `record_cooccurrence` do to the pairs of brands and to
-- the partner degrees.
use ct_firehose_filter.Prelude.{
  ℕ, ◌≡◌, refl, ◌∙◌, ap, Bool, ◌&&◌, ◌||◌, not, List, [], ◌∷◌, map, arith, inl, inr, if◌then◌else◌,
  max, Str, str_eq, str_eq_iff, contains, is_some, Bool-cases,
}
use ct_firehose_filter.Novelty.Table.{lookup, lookup-upsert, lookup-update}
use ct_firehose_filter.Novelty.Sql.{Db}
use ct_firehose_filter.Novelty.Store.{
  count_event, insert_partner, has_pair, partner_count, refresh_partners, count_multi_brand,
  partners_for, all_partners, cooccurrence_statements,
}
use ct_firehose_filter.Novelty.Atomic.{apply_all}
use ct_firehose_filter.Novelty.Counts.{
  partners_in, apply_all-append, apply_all-map_keeps, apply_all-all_partners_keeps, counted, paired,
  refreshed, cooccurrence_groups,
}

abbrev pub pair_in : Str → Str → Db → Bool
pair_in x y db = has_pair x y db.brand_partners

insert_partner-pair :
    (x y a b : Str) (db : Db)
    → pair_in x y (insert_partner a b db) ≡ (pair_in x y db || (str_eq x a && str_eq y b))
unfolding insert_partner
insert_partner-pair x y a b db = elim (Bool-cases (has_pair a b db.brand_partners)) [
  | inl old ↦ rw old (ground (arith, str_eq_iff x a, str_eq_iff y b))
  | inr new ↦ rw new (ground arith)
]

partners_for-pair :
    (x y a : Str) (brands : List Str) (db : Db)
    → pair_in x y (apply_all (partners_for a brands) db)
      ≡ (pair_in x y db || (str_eq x a && (contains brands y && not (str_eq x y))))
unfolding partners_for
partners_for-pair x y a [] db = ground arith
partners_for-pair x y a (b ∷ brands) db = elim (Bool-cases (str_eq a b)) [
  | inl same ↦ rw same (
      ground (
        arith,
        partners_for-pair x y a brands db,
        str_eq_iff a b,
        str_eq_iff x a,
        str_eq_iff x y,
        str_eq_iff y b,
      ))
  | inr other ↦ rw other (
      ground (
        arith,
        partners_for-pair x y a brands (insert_partner a b db),
        insert_partner-pair x y a b db,
        str_eq_iff a b,
        str_eq_iff x a,
        str_eq_iff x y,
        str_eq_iff y b,
      ))
]

all_partners-pair :
    (x y : Str) (rest brands : List Str) (db : Db)
    → pair_in x y (apply_all (all_partners rest brands) db)
      ≡ (pair_in x y db || (contains rest x && (contains brands y && not (str_eq x y))))
unfolding all_partners
all_partners-pair x y [] brands db = ground arith
all_partners-pair x y (a ∷ rest) brands db =
    ap (pair_in x y) (apply_all-append (partners_for a brands) (all_partners rest brands) db)
    ∙ all_partners-pair x y rest brands (apply_all (partners_for a brands) db)
    ∙ ground (arith, partners_for-pair x y a brands db)

-- After a co-occurrence two names are partners exactly if they were before or are two different
-- brands of the certificate.
pub cooccurrence-pair :
    (x y : Str) (brands : List Str) (db : Db)
    → pair_in x y (apply_all (cooccurrence_statements brands) db)
      ≡ (pair_in x y db || (contains brands x && (contains brands y && not (str_eq x y))))
unfolding count_multi_brand
cooccurrence-pair x y brands db =
    ap (pair_in x y) (cooccurrence_groups brands db)
    ∙ apply_all-map_keeps (pair_in x y) refresh_partners (λ b d. unfold refresh_partners in refl)
        brands (paired brands db)
    ∙ all_partners-pair x y brands brands (counted brands db)
    ∙ ap (λ b. b || (contains brands x && (contains brands y && not (str_eq x y))))
        (apply_all-map_keeps (pair_in x y) count_event (λ b d. unfold count_event in refl) brands
          db)

abbrev is_counted : Str → Db → Bool
is_counted x db = is_some (lookup x db.brand_degree)

count_event-is_counted :
    (x b : Str) (db : Db) → is_counted x (count_event b db) ≡ (is_counted x db || str_eq x b)
unfolding count_event
count_event-is_counted x b db = rw lookup-upsert (ground (arith, str_eq_iff x b, str_eq_iff b x))

counted-is_counted :
    (x : Str) (brands : List Str) (db : Db)
    → is_counted x (counted brands db) ≡ (is_counted x db || contains brands x)
counted-is_counted x [] db = ground arith
counted-is_counted x (b ∷ brands) db =
    ground (arith, counted-is_counted x brands (count_event b db), count_event-is_counted x b db)

count_event-partners : (x b : Str) (db : Db) → partners_in x (count_event b db) ≡ partners_in x db
unfolding count_event
count_event-partners x b db = rw lookup-upsert (ground (arith, str_eq_iff x b, str_eq_iff b x))

abbrev raised : Str → Bool → Db → ℕ
raised x b db = if b then max (partners_in x db) (partner_count x db) else partners_in x db

refresh_partners-partners :
    (x b : Str) (db : Db)
    → partners_in x (refresh_partners b db) ≡ raised x (str_eq b x && is_counted x db) db
unfolding refresh_partners
refresh_partners-partners x b db = rw lookup-update (ground (arith, str_eq_iff b x))

refresh_partners-is_counted :
    (x b : Str) (db : Db) → is_counted x (refresh_partners b db) ≡ is_counted x db
unfolding refresh_partners
refresh_partners-is_counted x b db = rw lookup-update (ground (arith, str_eq_iff b x))

refresh_partners-count :
    (x b : Str) (db : Db) → partner_count x (refresh_partners b db) ≡ partner_count x db
unfolding refresh_partners
refresh_partners-count x b db = refl

refreshed-partners :
    (x : Str) (brands : List Str) (db : Db)
    → partners_in x (apply_all (map refresh_partners brands) db)
      ≡ raised x (contains brands x && is_counted x db) db
refreshed-partners x [] db = refl
refreshed-partners x (b ∷ brands) db =
    refreshed-partners x brands (refresh_partners b db)
    ∙ ground (
      arith,
      refresh_partners-partners x b db,
      refresh_partners-is_counted x b db,
      refresh_partners-count x b db,
      str_eq_iff b x,
      str_eq_iff x b,
    )

module _ (x : Str) (brands : List Str) (db : Db) where
  paired-partners : partners_in x (paired brands db) ≡ partners_in x db
  paired-partners =
      apply_all-all_partners_keeps (partners_in x) (λ a b d. unfold insert_partner in refl) brands
        brands (counted brands db)
      ∙ apply_all-map_keeps (partners_in x) count_event (count_event-partners x) brands db

  paired-is_counted : is_counted x (paired brands db) ≡ (is_counted x db || contains brands x)
  paired-is_counted =
      apply_all-all_partners_keeps (is_counted x) (λ a b d. unfold insert_partner in refl) brands
        brands (counted brands db)
      ∙ counted-is_counted x brands db

  refreshed-count : partner_count x (refreshed brands db) ≡ partner_count x (paired brands db)
  refreshed-count =
      apply_all-map_keeps (partner_count x) refresh_partners (refresh_partners-count x) brands
        (paired brands db)

-- After a co-occurrence the degree of each of its brands is the number of the brand's partners,
-- if that is more than the degree before; the degree of any other name is unchanged.
pub cooccurrence-partners :
    (x : Str) (brands : List Str) (db : Db)
    → partners_in x (apply_all (cooccurrence_statements brands) db) ≡ (
        if contains brands x
        then max
            (partners_in x db)
            (partner_count x (apply_all (cooccurrence_statements brands) db))
        else partners_in x db)
unfolding count_multi_brand
cooccurrence-partners x brands db = rw cooccurrence_groups (
    ground (
      arith,
      refreshed-partners x brands (paired brands db),
      paired-partners x brands db,
      paired-is_counted x brands db,
      refreshed-count x brands db,
    ))
