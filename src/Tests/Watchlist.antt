-- ===== src/Tests/Watchlist.antt =====
-- src/watchlist.rs on small inputs.
use ct_firehose_filter.Prelude.{
  ◌≡◌, refl, true, false, ◌↔◌, ◌⊎◌, ◌++◌, List, [], ◌∷◌, any, Str, codes, contains, IsNodup,
  is_some,
}
use ct_firehose_filter.Watchlist.Host.{
  normalize_host, host_suffixes, normalize_host-eq_of_case, mem-host_suffixes,
}
use ct_firehose_filter.Watchlist.Names.{
  etld1, is_entry_of, new, new_with_suppress, new_with_suppress-contains,
}
use ct_firehose_filter.Watchlist.Inspect.{inspect_outcome}
use ct_firehose_filter.Watchlist.Keywords.{all_suffixes}
use ct_firehose_filter.Watchlist.Matching.{
  inspect_spec, inspect_outcome-eq-inspect_spec, inspect_new,
}
use ct_firehose_filter.Tests.Data.{com_psl, meta, alpha, beta}

abbrev names : List Str
names = codes "*.x.a.com" ∷ codes "B.com." ∷ []

abbrev domains : List Str
domains = codes "Login.A.com" ∷ codes "nota.com" ∷ codes "b.com" ∷ []

normalize_host-eq_of_case_example :
    normalize_host (codes "*.A.com.") ≡ normalize_host (codes "*.a.COM.")
normalize_host-eq_of_case_example =
    normalize_host-eq_of_case (codes "*.A.com.") (codes "*.a.COM.") refl

mem-host_suffixes_example :
    (contains (host_suffixes (codes "x.a.com")) alpha ≡ true)
    ↔ ((alpha ≡ codes "x.a.com") ⊎ ((p : Str) × (codes "x.a.com" ≡ p ++ (b'.' ∷ alpha))))
mem-host_suffixes_example = mem-host_suffixes (codes "x.a.com") alpha

new_with_suppress-contains_example :
    (contains (new_with_suppress com_psl names (beta ∷ [])).names alpha
      ≡ any (λ raw. is_entry_of com_psl alpha (etld1 com_psl raw)) names)
    × (contains (new_with_suppress com_psl names (beta ∷ [])).suppress alpha
        ≡ any (λ raw. is_entry_of com_psl alpha (etld1 com_psl raw)) (beta ∷ []))
    × IsNodup (new_with_suppress com_psl names (beta ∷ [])).names
    × IsNodup (new_with_suppress com_psl names (beta ∷ [])).suppress
new_with_suppress-contains_example = new_with_suppress-contains com_psl names (beta ∷ []) alpha

inspect_outcome-eq-inspect_spec_example :
    inspect_outcome (new_with_suppress com_psl names (beta ∷ [])) domains meta
    ≡ inspect_spec (new_with_suppress com_psl names (beta ∷ [])) domains meta
inspect_outcome-eq-inspect_spec_example =
    inspect_outcome-eq-inspect_spec (new_with_suppress com_psl names (beta ∷ [])) domains meta

inspect_new_example :
    (is_some (inspect_outcome (new com_psl names) domains meta).event
      ≡ any (contains (new com_psl names).names) (all_suffixes domains))
    × ((inspect_outcome (new com_psl names) domains meta).fully_suppressed ≡ false)
inspect_new_example = inspect_new com_psl names domains meta
