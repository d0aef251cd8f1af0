-- ===== src/Watchlist/Keywords.antt =====
-- src/watchlist.rs: what the scan of `inspect_outcome` collects, in terms of all suffixes of all
-- the certificate's hosts.
use ct_firehose_filter.Prelude.{
  ◌≡◌, sym, ap, ◌∙◌, Bool, true, false, ◌&&◌, ◌||◌, Option, none, some, List, [], ◌∷◌, ◌++◌, arith,
  if◌then◌else◌, filter, any, map, any-append, Str, str_eq, str_eq_iff, contains, IsNodup,
  append-nil, append_assoc, filter-append, map-append,
}
use ct_firehose_filter.Prelude.Sets.{
  insert, contains-insert, insert-IsNodup, contains_of_any, any_of_contains,
}
use ct_firehose_filter.Watchlist.Host.{normalize_host, host_suffixes}
use ct_firehose_filter.Watchlist.Inspect.{Scan, implicate, scan_host, scan, keeps, raw_name}

abbrev pub host_names : Option Str → List Str
host_names none = []
host_names (some host) = host_suffixes host

abbrev pub suffixes_of : Str → List Str
suffixes_of raw = host_names (normalize_host raw)

abbrev pub all_suffixes : List Str → List Str
all_suffixes [] = []
all_suffixes (raw ∷ rest) = suffixes_of raw ++ all_suffixes rest

-- Some suffix of the name's host passes the test.
abbrev pub hits : (Str → Bool) → Str → Bool
hits p raw = any p (suffixes_of raw)

module _ (names : List Str) where
  implicate-hit :
      (cands : List Str) (acc : List Str × Bool)
      → (implicate names cands acc).1 ≡ (acc.1 || any (contains names) cands)
  unfolding implicate
  implicate-hit [] acc = ground arith
  implicate-hit (c ∷ cands) acc = implicate-hit cands _ ∙ ground arith

  implicate-contains :
      (cands : List Str) (acc : List Str × Bool) (a : Str)
      → contains (implicate names cands acc).0 a
        ≡ (contains acc.0 a || (contains names a && contains cands a))
  unfolding implicate
  implicate-contains [] acc a = ground arith
  implicate-contains (c ∷ cands) acc a =
      implicate-contains cands _ a ∙ ground (arith, contains-insert c a acc.0, str_eq_iff a c)

  implicate-IsNodup :
      (cands : List Str) (acc : List Str × Bool)
      → IsNodup acc.0
      → IsNodup (implicate names cands acc).0
  unfolding implicate
  implicate-IsNodup [] acc d = d
  implicate-IsNodup (c ∷ cands) acc d = implicate-IsNodup cands _ (step_IsNodup (contains names c))
    where
      step_IsNodup : (b : Bool) → IsNodup (if b then (insert c acc.0, true) else acc).0
      step_IsNodup true = insert-IsNodup c acc.0 d
      step_IsNodup false = d

  scan_host-contains :
      (raw : Str) (o : Option Str) (acc : Scan) (a : Str)
      → contains (scan_host names raw o acc).0 a
        ≡ (contains acc.0 a || (contains names a && contains (host_names o) a))
  unfolding scan_host
  scan_host-contains raw none acc a = ground arith
  scan_host-contains raw (some host) acc a =
      implicate-contains (host_suffixes host) (acc.0, false) a

  -- The scan implicates the watchlist names among all suffixes.
  pub scan-contains :
      (domains : List Str) (acc : Scan) (a : Str)
      → contains (scan names domains acc).0 a
        ≡ (contains acc.0 a || (contains names a && contains (all_suffixes domains) a))
  unfolding scan
  scan-contains [] acc a = ground arith
  scan-contains (raw ∷ rest) acc a =
      scan-contains rest _ a
      ∙ ground (
        arith,
        scan_host-contains raw (normalize_host raw) acc a,
        any-append (str_eq a) (suffixes_of raw) (all_suffixes rest),
      )

  scan_host-IsNodup :
      (raw : Str) (o : Option Str) (acc : Scan)
      → IsNodup acc.0
      → IsNodup (scan_host names raw o acc).0
  unfolding scan_host
  scan_host-IsNodup raw none acc d = d
  scan_host-IsNodup raw (some host) acc d = implicate-IsNodup (host_suffixes host) (acc.0, false) d

  pub scan-IsNodup :
      (domains : List Str) (acc : Scan) → IsNodup acc.0 → IsNodup (scan names domains acc).0
  unfolding scan
  scan-IsNodup [] acc d = d
  scan-IsNodup (raw ∷ rest) acc d =
      scan-IsNodup rest _ (scan_host-IsNodup raw (normalize_host raw) acc d)

  module _ (kept : List Str)
      (within : (a : Str) → contains kept a ≡ true → contains names a ≡ true) where
    -- A host without a watchlist name has no kept name either.
    kept-hit :
        (cands : List Str) → any (contains kept) cands ≡ true → any (contains names) cands ≡ true
    kept-hit cands h =
        let (a, m, k) = contains_of_any (contains kept) cands h in
        any_of_contains (contains names) cands a m (within a k)

    abbrev kept_names : List (Str × Str) → List Str
    kept_names hosts = map raw_name (filter (keeps kept) hosts)

    kept_names-append :
        (hosts : List (Str × Str)) (raw host : Str) (hit : Bool)
        → hit ≡ any (contains names) (host_suffixes host)
        → kept_names (if hit then hosts ++ ((raw, host) ∷ []) else hosts)
          ≡ kept_names hosts ++ (if any (contains kept) (host_suffixes host) then raw ∷ [] else [])
    kept_names-append hosts raw host true e = rw filter-append (rw map-append (ground arith))
    kept_names-append hosts raw host false e =
        ground (arith, kept-hit (host_suffixes host), append-nil (kept_names hosts))

    scan_host-kept_names :
        (raw : Str) (o : Option Str) (acc : Scan)
        → kept_names (scan_host names raw o acc).1
          ≡ kept_names acc.1 ++ (if any (contains kept) (host_names o) then raw ∷ [] else [])
    unfolding scan_host
    scan_host-kept_names raw none acc = sym (append-nil (kept_names acc.1))
    scan_host-kept_names raw (some host) acc =
        kept_names-append acc.1 raw host _ (implicate-hit (host_suffixes host) (acc.0, false))

    -- The names that the second loop keeps are those with a kept suffix, in their order.
    pub scan-kept_names :
        (domains : List Str) (acc : Scan)
        → map raw_name (filter (keeps kept) (scan names domains acc).1)
          ≡ map raw_name (filter (keeps kept) acc.1) ++ filter (hits (contains kept)) domains
    unfolding scan
    scan-kept_names [] acc = sym (append-nil (kept_names acc.1))
    scan-kept_names (raw ∷ rest) acc =
        scan-kept_names rest _
        ∙ ap (λ l. l ++ filter (hits (contains kept)) rest)
            (scan_host-kept_names raw (normalize_host raw) acc)
        ∙ append_assoc (kept_names acc.1) _ (filter (hits (contains kept)) rest)
        ∙ ap (λ l. kept_names acc.1 ++ l) (ground arith)
