-- ===== src/Watchlist/Matching.antt =====
-- src/watchlist.rs: `inspect_outcome` against its matching rule, in one pass over the suffixes.
use ct_firehose_filter.Prelude.{
  ◌≡◌, refl, sym, ap, ap₂, ◌∙◌, Bool, true, false, not, ◌&&◌, ◌||◌, List, [], ◌∷◌, arith, inl, inr,
  if◌then◌else◌, is_empty, filter, any, map, any-append, Str, str_eq, str_eq_refl, contains,
  Bool-cases, sort, sort-IsAscending, any-sort, length, is_empty-filter, is_some,
}
use ct_firehose_filter.Prelude.Int.{saturate_u32}
use ct_firehose_filter.Prelude.Sets.{
  collect_set, collect_set-IsNodup, contains-collect_set, contains_of_any, any_of_contains,
  contains-filter, filter-IsNodup, IsAscending-ext,
}
use ct_firehose_filter.Event
use ct_firehose_filter.Event.{FrameMeta}
use ct_firehose_filter.Watchlist.Names.{Psl, DomainWatchlist, new, new_with_suppress}
use ct_firehose_filter.Watchlist.Inspect.{
  InspectOutcome, no_outcome, suppressed, matched, scan, keeps, raw_name, outcome_of_scan,
  inspect_outcome,
}
use ct_firehose_filter.Watchlist.Keywords.{
  suffixes_of, all_suffixes, hits, scan-contains, scan-IsNodup, scan-kept_names,
}

-- The name is on the watchlist and not suppressed.
abbrev pub is_wanted : DomainWatchlist → Str → Bool
is_wanted w name = contains w.names name && not (contains w.suppress name)

-- The matching rule: a wanted name among the suffixes makes an event of the certificate's names
-- that have such a suffix and of all such names; a watchlist name that is suppressed makes none.
abbrev pub inspect_spec : DomainWatchlist → List Str → FrameMeta → InspectOutcome
inspect_spec w domains meta =
    if any (is_wanted w) (all_suffixes domains)
    then matched (
        Event.with_san_count
          (Event.new (filter (hits (is_wanted w)) domains)
            (sort (collect_set (filter (is_wanted w) (all_suffixes domains)))) meta.seen meta.source
            meta.fingerprint)
          (saturate_u32 (length domains)))
    else if any (contains w.names) (all_suffixes domains)
    then suppressed
    else no_outcome

any-all_suffixes :
    (p : Str → Bool) (domains : List Str) → any (hits p) domains ≡ any p (all_suffixes domains)
any-all_suffixes p [] = refl
any-all_suffixes p (raw ∷ rest) =
    ap (λ b. hits p raw || b) (any-all_suffixes p rest)
    ∙ sym (any-append p (suffixes_of raw) (all_suffixes rest))

-- A test of some member of a set, where the set holds the members of a list that pass another.
is_empty_of_members :
    (set : List Str) (p : Str → Bool) (l : List Str)
    → ((a : Str) → contains set a ≡ (p a && contains l a))
    → is_empty set ≡ not (any p l)
is_empty_of_members [] p l h = elim (Bool-cases (any p l)) [
  | inl some_member ↦ let (a, m, k) = contains_of_any p l some_member in ground (arith, h a)
  | inr no_member ↦ ground arith
]
is_empty_of_members (x ∷ set) p l h = ground (arith, any_of_contains p l x, h x, str_eq_refl x)

-- Two tests that agree on the members of a list.
any-congr :
    (p q : Str → Bool) (l : List Str)
    → ((a : Str) → contains l a ≡ true → p a ≡ q a)
    → any p l ≡ any q l
any-congr p q [] h = refl
any-congr p q (x ∷ l) h =
    ap₂ ◌||◌ (h x (ground (arith, str_eq_refl x))) (any-congr p q l (λ a m. h a (ground arith)))

filter-hits-congr :
    (p q : Str → Bool) (domains : List Str)
    → ((a : Str) → contains (all_suffixes domains) a ≡ true → p a ≡ q a)
    → filter (hits p) domains ≡ filter (hits q) domains
filter-hits-congr p q [] h = refl
filter-hits-congr p q (raw ∷ rest) h =
    let here : hits p raw ≡ hits q raw =
      any-congr p q (suffixes_of raw) (λ a m.
        h a (ground (arith, any-append (str_eq a) (suffixes_of raw) (all_suffixes rest)))) in
    let later : filter (hits p) rest ≡ filter (hits q) rest =
      filter-hits-congr p q rest (λ a m.
        h a (ground (arith, any-append (str_eq a) (suffixes_of raw) (all_suffixes rest)))) in
    ap₂ (λ b l. if b then raw ∷ l else l) here later

three_way {ℓ} :
    {A : Type ℓ} (x y z : A) (found wanted : Bool)
    → (wanted ≡ true → found ≡ true)
    → (if not found then x else if not wanted then y else if not wanted then y else z)
      ≡ (if wanted then z else if found then y else x)
three_way x y z true true h = refl
three_way x y z true false h = refl
three_way x y z false true h = cc (h refl)
three_way x y z false false h = refl

module _ (w : DomainWatchlist) (domains : List Str) where
  abbrev implicated : List Str
  implicated = (scan w.names domains ([], [])).0

  abbrev kept : List Str
  kept = filter (λ name. not (contains w.suppress name)) implicated

  kept-contains : (a : Str) → contains kept a ≡ (is_wanted w a && contains (all_suffixes domains) a)
  kept-contains a = ground (
    arith,
    contains-filter (λ name. not (contains w.suppress name)) implicated a,
    scan-contains w.names domains ([], []) a,
  )

  kept_domains :
      map raw_name (filter (keeps kept) (scan w.names domains ([], [])).1)
      ≡ filter (hits (is_wanted w)) domains
  kept_domains =
      scan-kept_names w.names kept (λ a m. ground (arith, kept-contains a)) domains ([], [])
      ∙ filter-hits-congr (contains kept) (is_wanted w) domains
          (λ a m. ground (arith, kept-contains a))

  kept_keywords : sort kept ≡ sort (collect_set (filter (is_wanted w) (all_suffixes domains)))
  kept_keywords =
      IsAscending-ext (sort kept) _
        (sort-IsAscending kept
          (filter-IsNodup _ implicated (scan-IsNodup w.names domains ([], []) tt)))
        (sort-IsAscending _ (collect_set-IsNodup (filter (is_wanted w) (all_suffixes domains))))
        (λ a.
          any-sort (str_eq a) kept
          ∙ kept-contains a
          ∙ ground (
            arith,
            contains-filter (is_wanted w) (all_suffixes domains) a,
            contains-collect_set (filter (is_wanted w) (all_suffixes domains)) a,
            any-sort (str_eq a) (collect_set (filter (is_wanted w) (all_suffixes domains))),
          ))

  outcome_of_scan_lem :
      (meta : FrameMeta)
      → outcome_of_scan w domains meta (scan w.names domains ([], [])) ≡ inspect_spec w domains meta
  unfolding outcome_of_scan
  outcome_of_scan_lem meta =
      rw
        (
          kept_domains,
          kept_keywords,
          is_empty_of_members implicated (contains w.names) (all_suffixes domains)
              (λ a. scan-contains w.names domains ([], []) a),
          is_empty_of_members kept (is_wanted w) (all_suffixes domains) kept-contains,
          is_empty-filter (hits (is_wanted w)) domains,
          any-all_suffixes (is_wanted w) domains,
        )
        (three_way _ _ _ _ _ (λ h.
          let (a, m, k) = contains_of_any (is_wanted w) (all_suffixes domains) h in
          any_of_contains (contains w.names) (all_suffixes domains) a m (ground arith)))

any-contains_nil : (l : List Str) → any (contains []) l ≡ false
any-contains_nil [] = refl
any-contains_nil (x ∷ l) = any-contains_nil l

any-is_wanted_nil :
    (w : DomainWatchlist) (l : List Str) → w.names ≡ [] → any (is_wanted w) l ≡ false
any-is_wanted_nil w [] e = refl
any-is_wanted_nil w (x ∷ l) e =
    let missing : contains w.names x ≡ false = rw e in ground (arith, any-is_wanted_nil w l e)

nil_of_is_empty {ℓ} : {A : Type ℓ} (l : List A) → is_empty l ≡ true → l ≡ []
nil_of_is_empty [] h = refl
nil_of_is_empty (x ∷ l) h = ground arith

-- Whatever the watchlist, the suppress list and the certificate's names, the inspection gives what
-- the matching rule `inspect_spec` says: the names with a wanted suffix, in their order, and all
-- wanted suffixes, sorted and each once; `fully_suppressed` when watchlist names were found and
-- all are suppressed; and nothing otherwise.
pub inspect_outcome-eq-inspect_spec :
    (w : DomainWatchlist) (domains : List Str) (meta : FrameMeta)
    → inspect_outcome w domains meta ≡ inspect_spec w domains meta
unfolding inspect_outcome
inspect_outcome-eq-inspect_spec w domains meta = elim (Bool-cases (is_empty w.names)) [
  | inl none_listed ↦
      let e = nil_of_is_empty w.names none_listed in
      rw (
        none_listed,
        any-is_wanted_nil w (all_suffixes domains) e,
        ap (λ l. any (contains l) (all_suffixes domains)) e
            ∙ any-contains_nil (all_suffixes domains),
      )
  | inr listed ↦ rw listed (outcome_of_scan_lem w domains meta)
]

nothing_suppressed :
    (w : DomainWatchlist) (domains : List Str) (meta : FrameMeta)
    → w.suppress ≡ []
    → (is_some (inspect_outcome w domains meta).event
        ≡ any (contains w.names) (all_suffixes domains))
      × ((inspect_outcome w domains meta).fully_suppressed ≡ false)
nothing_suppressed w domains meta e =
    let same : any (is_wanted w) (all_suffixes domains)
        ≡ any (contains w.names) (all_suffixes domains) =
      any-congr (is_wanted w) (contains w.names) (all_suffixes domains)
        (λ a m. let none_suppressed : contains w.suppress a ≡ false = rw e in ground arith) in
    rw inspect_outcome-eq-inspect_spec (ground arith, ground arith)

-- The watchlist that production builds suppresses nothing: a certificate gives an event exactly
-- when some suffix of one of its hosts is a watchlist name.
pub inspect_new :
    (psl : Psl) (watchlist domains : List Str) (meta : FrameMeta)
    → (is_some (inspect_outcome (new psl watchlist) domains meta).event
        ≡ any (contains (new psl watchlist).names) (all_suffixes domains))
      × ((inspect_outcome (new psl watchlist) domains meta).fully_suppressed ≡ false)
unfolding new new_with_suppress
inspect_new psl watchlist domains meta = nothing_suppressed (new psl watchlist) domains meta refl
