-- ===== src/Watchlist/Inspect.antt =====
-- src/watchlist.rs, `inspect_outcome`: the loops over the certificate's names and their suffixes.
use ct_firehose_filter.Prelude.{
  Bool, true, false, not, Option, none, some, List, [], ◌∷◌, ◌++◌, if◌then◌else◌, is_empty, length,
  filter, any, map, Str, contains, sort,
}
use ct_firehose_filter.Prelude.Int.{saturate_u32}
use ct_firehose_filter.Prelude.Sets.{insert}
use ct_firehose_filter.Event
use ct_firehose_filter.Event.{MatchEvent, FrameMeta}
use ct_firehose_filter.Watchlist.Host.{normalize_host, host_suffixes}
use ct_firehose_filter.Watchlist.Names.{DomainWatchlist}

pub record InspectOutcome : Type 0 where
  pub event : Option MatchEvent
  pub fully_suppressed : Bool

abbrev pub no_outcome : InspectOutcome
no_outcome = record { event = none; fully_suppressed = false }

abbrev pub suppressed : InspectOutcome
suppressed = record { event = none; fully_suppressed = true }

abbrev pub matched : MatchEvent → InspectOutcome
matched event = record { event = some event; fully_suppressed = false }

-- The loop over the suffixes of one host: the implicated names, and whether one was found.
unfoldable pub implicate : List Str → List Str → List Str × Bool → List Str × Bool
implicate names [] acc = acc
implicate names (candidate ∷ rest) (implicated, hit) =
    implicate names rest
      (if contains names candidate then (insert candidate implicated, true) else (implicated, hit))

abbrev pub Scan : Type 0
Scan = List Str × List (Str × Str)

-- The body of the loop over the certificate's names, after `normalize_host`.
unfoldable pub scan_host : List Str → Str → Option Str → Scan → Scan
unfolding implicate
scan_host names raw none acc = acc
scan_host names raw (some host) (implicated, san_hosts) =
    let (implicated', hit) = implicate names (host_suffixes host) (implicated, false) in
    (implicated', if hit then san_hosts ++ ((raw, host) ∷ []) else san_hosts)

unfoldable pub scan : List Str → List Str → Scan → Scan
unfolding scan_host
scan names [] acc = acc
scan names (raw ∷ rest) acc = scan names rest (scan_host names raw (normalize_host raw) acc)

-- `host_suffixes(&host).any(|candidate| implicated.contains(candidate))`
abbrev pub keeps : List Str → Str × Str → Bool
keeps implicated (raw, host) = any (contains implicated) (host_suffixes host)

abbrev pub raw_name : Str × Str → Str
raw_name (raw, host) = raw

unfoldable pub outcome_of_scan : DomainWatchlist → List Str → FrameMeta → Scan → InspectOutcome
unfolding sort
outcome_of_scan w domains meta (implicated, san_hosts) =
    if is_empty implicated
    then no_outcome
    else (let kept = filter (λ name. not (contains w.suppress name)) implicated in
        if is_empty kept
        then suppressed
        else (let matched_domains = map raw_name (filter (keeps kept) san_hosts) in
            if is_empty matched_domains
            then suppressed
            else matched (
                Event.with_san_count
                  (Event.new matched_domains (sort kept) meta.seen meta.source meta.fingerprint)
                  (saturate_u32 (length domains)))))

unfoldable pub inspect_outcome : DomainWatchlist → List Str → FrameMeta → InspectOutcome
unfolding scan outcome_of_scan
inspect_outcome w domains meta =
    if is_empty w.names
    then no_outcome
    else outcome_of_scan w domains meta (scan w.names domains ([], []))
