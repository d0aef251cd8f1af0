-- ===== src/Alert/Hubs.antt =====
-- src/novelty_alert.rs: the queries of `tier_a_brands` against a filter of the brands.
use ct_firehose_filter.Prelude.{
  ◌≡◌, refl, sym, ◌∙◌, ap, ap₂, Bool, true, false, not, ◌&&◌, ◌||◌, some, List, [], ◌∷◌, filter,
  arith, leb, ltb, ◌==◌, if◌then◌else◌, Str, contains, IsAscending,
}
use ct_firehose_filter.Prelude.Int.{saturate_u32}
use ct_firehose_filter.Prelude.Sets.{filter-IsAscending, sort_of_IsAscending}
use ct_firehose_filter.Novelty.Sql.{
  Db, NoveltyStore, Ending, ◌>>=◌, pure, finish, statement, query, next_ending, later_endings,
}
use ct_firehose_filter.Novelty.Store.{partner_degree, event_count}
use ct_firehose_filter.Novelty.Counts.{events_in, partners_in}
use ct_firehose_filter.Alert.Policy.{NoveltyPolicy}
use ct_firehose_filter.Alert.Brands.{
  effective_degree, is_learned_hub, low_degree_brands, tier_a_brands,
}
use ct_firehose_filter.Alert.Ensures.{
  Ensures, OnOk, Ensures-bind, Ensures-if, Ensures-pure, Ensures-weaken,
}

-- What a query yields: the value read, and an unchanged database and transaction.
abbrev pub Reads : {A : Type 0} → NoveltyStore → A → A → NoveltyStore → Type 0
Reads s a b t = (b ≡ a) × (t.db ≡ s.db) × (t.saved ≡ s.saved)

finish-Reads :
    {A : Type 0} (read : Db → A) (e : Ending) (s : NoveltyStore)
    → OnOk
        (Reads s (read s.db))
        (finish e (some (read s.db, s.db)) s).0
        (finish e (some (read s.db, s.db)) s).1
finish-Reads read Ending.applied s = (refl, refl, refl)
finish-Reads read Ending.failed s = tt
finish-Reads read Ending.rolled_back s = tt

pub query-Reads :
    {A : Type 0} (read : Db → A) (s : NoveltyStore) → Ensures (Reads s (read s.db)) (query read) s
unfolding query statement
query-Reads read s = record {
  holds =
      finish-Reads read (next_ending s.endings) (record s { endings = later_endings s.endings });
}

pub partner_degree-Reads :
    (brand : Str) (s : NoveltyStore)
    → Ensures (Reads s (saturate_u32 (partners_in brand s.db))) (partner_degree brand) s
unfolding partner_degree
partner_degree-Reads brand s = query-Reads _ s

pub event_count-Reads :
    (brand : Str) (s : NoveltyStore)
    → Ensures (Reads s (saturate_u32 (events_in brand s.db))) (event_count brand) s
unfolding event_count
event_count-Reads brand s = query-Reads _ s

keep_step :
    (b : Str) (hub h : Bool) (out l : List Str)
    → hub ≡ h
    → out ≡ l
    → (if hub then out else b ∷ out) ≡ (if not h then b ∷ l else l)
keep_step b true true out l e f = f
keep_step b true false out l e f = cc
keep_step b false true out l e f = cc
keep_step b false false out l e f = ap (◌∷◌ b) f

filter-congr : (p q : Str → Bool) (l : List Str) → ((a : Str) → p a ≡ q a) → filter p l ≡ filter q l
filter-congr p q [] h = refl
filter-congr p q (x ∷ l) h = ap₂ (λ b r. if b then x ∷ r else r) (h x) (filter-congr p q l h)

module _ (ignore : List Str) (policy : NoveltyPolicy) where
  abbrev pub is_frequent : Db → Str → Bool
  is_frequent db brand =
      ltb 0 policy.max_brand_df && leb policy.max_brand_df (saturate_u32 (events_in brand db))

  abbrev pub is_packing_hub : Db → Str → Bool
  is_packing_hub db brand =
      ltb 0 policy.max_partner_degree
      && leb policy.max_partner_degree (saturate_u32 (partners_in brand db))

  -- An ignored name, a frequent one, or one with many partners.
  abbrev pub is_hub : Db → Str → Bool
  is_hub db brand = contains ignore brand || (is_frequent db brand || is_packing_hub db brand)

  frequent-Reads :
      (brand : Str) (s : NoveltyStore)
      → Ensures
          (Reads s (is_frequent s.db brand))
          (if ltb 0 policy.max_brand_df
            then (do n ← event_count brand; pure (leb policy.max_brand_df n))
            else pure false)
          s
  frequent-Reads brand s =
      Ensures-if (ltb 0 policy.max_brand_df)
        (λ on.
          Ensures-bind _ (event_count-Reads brand s)
            (λ n t r. Ensures-pure _ (ground arith, r.1, r.2)))
        (λ off. Ensures-pure _ (ground arith, refl, refl))

  effective_degree-Reads :
      (brand : Str) (s : NoveltyStore)
      → contains ignore brand ≡ false
      → Ensures
          (Reads s (saturate_u32 (partners_in brand s.db)))
          (effective_degree ignore policy brand)
          s
  unfolding effective_degree
  effective_degree-Reads brand s free =
      Ensures-bind _ (partner_degree-Reads brand s)
        (λ n t r. Ensures-pure _ (ground arith, r.1, r.2))

  packing_hub-Reads :
      (brand : Str) (s t : NoveltyStore)
      → contains ignore brand ≡ false
      → t.db ≡ s.db
      → t.saved ≡ s.saved
      → Ensures
          (Reads s (is_packing_hub s.db brand))
          (if ltb 0 policy.max_partner_degree
            then (do
              d ← effective_degree ignore policy brand
              pure (leb policy.max_partner_degree d))
            else pure false)
          t
  packing_hub-Reads brand s t free d c =
      Ensures-if (ltb 0 policy.max_partner_degree)
        (λ on.
          Ensures-bind _ (effective_degree-Reads brand t free)
            (λ n u r. Ensures-pure _ (ground arith, r.1 ∙ d, r.2 ∙ c)))
        (λ off. Ensures-pure _ (ground arith, d, c))

  -- The seed test: an ignored name where some gate is on.
  abbrev is_seed : Str → Bool
  is_seed brand =
      contains ignore brand && (ltb 0 policy.max_partner_degree || ltb 0 policy.max_brand_df)

  is_learned_hub-Reads :
      (brand : Str) (s : NoveltyStore)
      → ((policy.max_partner_degree == 0) && (policy.max_brand_df == 0)) ≡ false
      → Ensures (Reads s (is_hub s.db brand)) (is_learned_hub ignore policy brand) s
  unfolding is_learned_hub
  is_learned_hub-Reads brand s gated =
      Ensures-if (is_seed brand) (λ seed. Ensures-pure _ (ground arith, refl, refl))
        λ no_seed.
          let free : contains ignore brand ≡ false = ground arith in
          Ensures-bind _ (frequent-Reads brand s) λ frequent t r.
            Ensures-if frequent (λ is. Ensures-pure _ (ground arith, r.1, r.2))
              λ is_not.
                Ensures-weaken
                  (λ hub u q. (
                    let e : is_frequent s.db brand ≡ false = sym r.0 ∙ is_not in ground arith,
                    q.1,
                    q.2,
                  ))
                  (packing_hub-Reads brand s t free r.1 r.2)

  low_degree_brands-Reads :
      (full : List Str) (s : NoveltyStore)
      → ((policy.max_partner_degree == 0) && (policy.max_brand_df == 0)) ≡ false
      → Ensures
          (Reads s (filter (λ b. not (is_hub s.db b)) full))
          (low_degree_brands ignore policy full)
          s
  unfolding low_degree_brands
  low_degree_brands-Reads [] s gated = Ensures-pure _ (refl, refl, refl)
  low_degree_brands-Reads (b ∷ rest) s gated =
      Ensures-bind _ (is_learned_hub-Reads b s gated) λ hub t r.
        Ensures-bind _ (low_degree_brands-Reads rest t gated) λ out u q. Ensures-pure _ (
          keep_step b hub _ out _ r.0 (q.0 ∙ ap (λ d. filter (λ a. not (is_hub d a)) rest) r.1),
          q.1 ∙ r.1,
          q.2 ∙ r.2,
        )

  -- The brands that may form a coalition are those that are no hub in the store as it stands, in
  -- their order; the queries change nothing.
  pub tier_a_brands-Reads :
      (full : List Str) (s : NoveltyStore)
      → IsAscending full
      → Ensures
          (Reads s (filter (λ b. not (is_hub s.db b)) full))
          (tier_a_brands ignore policy full)
          s
  unfolding tier_a_brands
  tier_a_brands-Reads full s sorted =
      Ensures-if ((policy.max_partner_degree == 0) && (policy.max_brand_df == 0))
        (λ ungated. Ensures-pure _ (
          sort_of_IsAscending _ (filter-IsAscending (λ k. not (contains ignore k)) full sorted)
              ∙ filter-congr _ _ full (λ b. ground arith),
          refl,
          refl,
        ))
        (λ gated. low_degree_brands-Reads full s gated)
