-- ===== src/Tests/Process.antt =====
-- src/main.rs on small inputs.
use ct_firehose_filter.Watchlist.Names.{etld1}
use ct_firehose_filter.Prelude.Sets.{insert}
use ct_firehose_filter.Prelude.{◌≤◌, ◌≡◌, refl, true, false, none, some, List, [], ◌∷◌, codes}
use ct_firehose_filter.Watchlist.Hot.{Files, len, load_domain_file, parse_domain_lines, new_hot}
use ct_firehose_filter.Watchlist.Names.{DomainWatchlist, new}
use ct_firehose_filter.Config.{Config}
use ct_firehose_filter.Process.{Shared, Round, build_watchlist, start_watchlist, reload_all}
use ct_firehose_filter.Process.Reload.{latest, reload_all-latest, start_watchlist_lem}
use ct_firehose_filter.Tests.Data.{com_psl}
use ct_firehose_filter.Tests.Config.{loaded}

abbrev no_files : Files
no_files = record { exists = λ p. false; read = λ p. none }

abbrev one_file : Files
one_file = record { exists = λ p. true; read = λ p. some (codes "# brands\nA.com\nb.com\n") }

abbrev rounds : List Round
rounds =
    record { files = no_files; joined = true; snapshot = none }
    ∷ record { files = one_file; joined = false; snapshot = none }
    ∷ record { files = one_file; joined = true; snapshot = none }
    ∷ record { files = no_files; joined = true; snapshot = none }
    ∷ []

abbrev shared : Shared
shared = record { hot = record { inner = record { names = []; suppress = [] } }; provenance = none }

reload_all-latest_example :
    (reload_all com_psl (codes "domains.txt") rounds shared).hot.inner
    ≡ latest com_psl (codes "domains.txt") rounds shared.hot.inner
reload_all-latest_example = reload_all-latest com_psl (codes "domains.txt") rounds shared

abbrev small : Config
small = record loaded { watchlist_min_len = 2 }

abbrev names : DomainWatchlist
names = new com_psl (codes "A.com" ∷ codes "b.com" ∷ [])

starts : start_watchlist com_psl one_file small ≡ some (new_hot names)
unfolding start_watchlist build_watchlist load_domain_file new parse_domain_lines etld1 com_psl
    insert
starts = refl

start_watchlist_lem_example :
    (2 ≤ len names) × (build_watchlist com_psl one_file small.watchlist_file ≡ some names)
start_watchlist_lem_example = start_watchlist_lem com_psl one_file small (new_hot names) refl starts
