-- ===== src/Process.antt =====
-- src/main.rs: the start of the process, and the task that loads the watchlist again. Files, the
-- environment and the Public Suffix List parser are parameters, as in Watchlist and Config.
pub mod Reload
use ct_firehose_filter.Prelude.{
  ℕ, ◌∷◌, Bool, true, false, not, ◌&&◌, ◌||◌, Option, none, some, List, [], is_empty, ltb,
  if◌then◌else◌, Str, codes, str_eq, trim, to_ascii_lowercase,
}
use ct_firehose_filter.Watchlist.Names.{Psl}
use ct_firehose_filter.Watchlist.Names.{DomainWatchlist, new}
use ct_firehose_filter.Watchlist.Hot.{HotWatchlist, Files, len, load_domain_file, new_hot, swap}
use ct_firehose_filter.Config.{Env, Config, is_prod}
use ct_firehose_filter.Archive.Event.{ConfigProvenance}

abbrev flag_of : Bool → Option Str → Bool
flag_of default none = default
flag_of default (some raw) =
    let s = to_ascii_lowercase (trim raw) in
    not (
      is_empty s
      || str_eq s (codes "0")
      || str_eq s (codes "false")
      || str_eq s (codes "no")
      || str_eq s (codes "off"))

unfoldable pub env_flag : Env → Str → Bool → Bool
env_flag env key default = flag_of default (env key)

abbrev new_if_read : Psl → Option (List Str) → Option DomainWatchlist
new_if_read psl none = none
new_if_read psl (some names) = some (new psl names)

unfoldable pub build_watchlist : Psl → Files → Str → Option DomainWatchlist
build_watchlist psl files path = new_if_read psl (load_domain_file files path)

abbrev pub long_enough : Config → DomainWatchlist → Bool
long_enough config w = not (is_prod config.egress && ltb (len w) config.watchlist_min_len)

abbrev pub hot_if_long : Config → Option DomainWatchlist → Option HotWatchlist
hot_if_long config none = none
hot_if_long config (some w) = if long_enough config w then some (new_hot w) else none

-- The watchlist that the process starts with, if it starts.
unfoldable pub start_watchlist : Psl → Files → Config → Option HotWatchlist
start_watchlist psl files config =
    hot_if_long config (build_watchlist psl files config.watchlist_file)

-- What the task changes: the watchlist, and the provenance if there is an archive.
pub record Shared : Type 0 where
  pub hot : HotWatchlist
  pub provenance : Option ConfigProvenance

-- The files as a round finds them, and the snapshot of the configuration, if it can be written.
pub record Round : Type 0 where
  pub files : Files
  pub joined : Bool
  pub snapshot : Option ConfigProvenance

abbrev stored : Option ConfigProvenance → Option ConfigProvenance → Option ConfigProvenance
stored none new = none
stored (some old) none = some old
stored (some old) (some new) = some new

abbrev pub after_load : Option ConfigProvenance → Option DomainWatchlist → Shared → Shared
after_load snapshot none s = s
after_load snapshot (some w) s = record {
  hot = swap w s.hot;
  provenance = stored s.provenance snapshot;
}

-- One round of the task's loop.
unfoldable pub reload : Psl → Str → Round → Shared → Shared
unfolding swap
reload psl path r s =
    if r.joined then after_load r.snapshot (build_watchlist psl r.files path) s else s

unfoldable pub reload_all : Psl → Str → List Round → Shared → Shared
unfolding reload
reload_all psl path [] s = s
reload_all psl path (r ∷ rest) s = reload_all psl path rest (reload psl path r s)
