-- ===== src/Watchlist/Hot.antt =====
-- src/watchlist.rs: `HotWatchlist`, the shorter calls of `inspect_outcome`, and the reading of
-- domain files. The file system is a parameter: the text of a path, or none when it is missing or
-- cannot be read.
use ct_firehose_filter.Prelude.{
  ℕ, Bool, false, not, ◌&&◌, ◌||◌, ◌==◌, Option, none, some, List, [], ◌∷◌, ◌++◌, map, filter,
  is_empty, length, if◌then◌else◌, Str, split, trim,
}
use ct_firehose_filter.Event.{MatchEvent, FrameMeta}
use ct_firehose_filter.Watchlist.Names.{DomainWatchlist}
use ct_firehose_filter.Watchlist.Inspect.{InspectOutcome, inspect_outcome}

abbrev pub len : DomainWatchlist → ℕ
len w = length w.names

abbrev pub suppress_len : DomainWatchlist → ℕ
suppress_len w = length w.suppress

abbrev pub no_meta : FrameMeta
no_meta = record { seen = none; source = none; fingerprint = none }

unfoldable pub inspect_with_meta : DomainWatchlist → List Str → FrameMeta → Option MatchEvent
inspect_with_meta w domains meta = (inspect_outcome w domains meta).event

unfoldable pub inspect : DomainWatchlist → List Str → Option MatchEvent
inspect w domains = inspect_with_meta w domains no_meta

-- The pointer that `ArcSwap` holds.
pub record HotWatchlist : Type 0 where
  pub inner : DomainWatchlist

abbrev pub new_hot : DomainWatchlist → HotWatchlist
new_hot w = record { inner = w }

unfoldable pub swap : DomainWatchlist → HotWatchlist → HotWatchlist
swap w hot = record hot { inner = w }

unfoldable pub inspect_hot : HotWatchlist → List Str → FrameMeta → InspectOutcome
inspect_hot hot domains meta = inspect_outcome hot.inner domains meta

-- A line of `str::lines` may end in a carriage return, which `trim` takes off, and an empty last
-- line is dropped as all empty lines are.
abbrev starts_with_hash : Str → Bool
starts_with_hash [] = false
starts_with_hash (c ∷ s) = c == b'#'

unfoldable pub parse_domain_lines : Str → List Str
unfolding split trim
parse_domain_lines text =
    filter (λ line. not (is_empty line) && not (starts_with_hash line)) (map trim (split 0x0a text))

-- `exists` and `read` of a path.
pub record Files : Type 0 where
  pub exists : Str → Bool
  pub read : Str → Option Str

unfoldable pub load_domain_file : Files → Str → Option (List Str)
load_domain_file files path = elim (files.read path) [
  | none ↦ none
  | some text ↦ some (parse_domain_lines text)
]

unfoldable pub load_suppress_file : Files → Str → Option (List Str)
load_suppress_file files path =
    if is_empty path || not (files.exists path) then some [] else load_domain_file files path

abbrev append_names : Option (List Str) → Option (List Str) → Option (List Str)
append_names none later = none
append_names (some names) none = none
append_names (some names) (some more) = some (names ++ more)

unfoldable pub load_suppress_and_glue : Files → Str → Str → Option (List Str)
load_suppress_and_glue files suppress_path glue_path =
    append_names (load_suppress_file files suppress_path) (load_suppress_file files glue_path)
