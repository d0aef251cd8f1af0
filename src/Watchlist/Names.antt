-- ===== src/Watchlist/Names.antt =====
-- src/watchlist.rs: the watchlist's state and how it is filled: `etld1`, `new_with_suppress` and
-- `parse_domain_lines`. The Public Suffix List parser (crate `addr`) is a parameter.
use ct_firehose_filter.Prelude.{
  ℕ, ◌≡◌, Bool, false, not, ◌&&◌, ◌||◌, Option, none, some, List, [], ◌∷◌, arith, leb,
  if◌then◌else◌, is_empty, length, filter, any, Str, str_eq, split, to_ascii_lowercase, contains,
  Option-cases, inl, inr, IsNodup,
}
use ct_firehose_filter.Prelude.Sets.{insert, contains-insert, insert-IsNodup}
use ct_firehose_filter.Watchlist.Host.{normalize_host}

-- What `addr::parse_domain_name` returns for a name that it accepts.
pub record Parsed : Type 0 where
  pub suffix : Str
  pub has_known_suffix : Bool
  pub is_icann : Bool
  pub root : Option Str

abbrev pub Psl : Type 0
Psl = Str → Option Parsed

pub record DomainWatchlist : Type 0 where
  pub names : List Str
  pub suppress : List Str

-- The labels of a host that are not empty.
abbrev label_count : Str → ℕ
label_count host = length (filter (λ l. not (is_empty l)) (split b'.' host))

unfoldable pub registrable : Parsed → Str → Option Str
unfolding split
registrable parsed host =
    if parsed.has_known_suffix
      && str_eq (to_ascii_lowercase parsed.suffix) (to_ascii_lowercase host)
    then (if parsed.is_icann || leb (label_count host) 2 then none else some host)
    else elim parsed.root [ none ↦ none | some root ↦ some (to_ascii_lowercase root) ]

module _ (psl : Psl) where
  unfoldable pub etld1 : Str → Option Str
  unfolding normalize_host registrable
  etld1 raw = elim (normalize_host raw) [
    | none ↦ none
    | some host ↦ elim (psl host) [ none ↦ none | some parsed ↦ registrable parsed host ]
  ]

  add_entry : Option Str → List Str → List Str
  add_entry none names = names
  add_entry (some name) names = insert name names

  -- The loop over the entries of a list.
  unfoldable pub insert_all : List Str → List Str → List Str
  unfolding add_entry
  insert_all names [] = names
  insert_all names (raw ∷ rest) = insert_all (add_entry (etld1 raw) names) rest

  unfoldable pub new_with_suppress : List Str → List Str → DomainWatchlist
  unfolding insert_all
  new_with_suppress watchlist suppress = record {
    names = insert_all [] watchlist;
    suppress = insert_all [] suppress;
  }

  unfoldable pub new : List Str → DomainWatchlist
  unfolding new_with_suppress
  new watchlist = new_with_suppress watchlist []

  abbrev pub is_entry_of : Str → Option Str → Bool
  is_entry_of n none = false
  is_entry_of n (some name) = str_eq n name

  insert_all-contains :
      (names entries : List Str) (n : Str)
      → contains (insert_all names entries) n
        ≡ (contains names n || any (λ raw. is_entry_of n (etld1 raw)) entries)
  unfolding insert_all
  insert_all-contains names [] n = ground arith
  insert_all-contains names (raw ∷ rest) n = elim (Option-cases (etld1 raw)) [
    | inl e ↦ rw e (insert_all-contains names rest n)
    | inr (name, e) ↦ rw e (
        ground
          (arith, insert_all-contains (insert name names) rest n, contains-insert name n names))
  ]

  insert_all-IsNodup :
      (names entries : List Str) → IsNodup names → IsNodup (insert_all names entries)
  unfolding insert_all
  insert_all-IsNodup names [] d = d
  insert_all-IsNodup names (raw ∷ rest) d = elim (Option-cases (etld1 raw)) [
    | inl e ↦ rw e (insert_all-IsNodup names rest d)
    | inr (name, e) ↦
        rw e (insert_all-IsNodup (insert name names) rest (insert-IsNodup name names d))
  ]

  -- A name is on the watchlist, and on the suppress list, exactly when it is the eTLD+1 of an
  -- entry that was given; no name is held twice.
  pub new_with_suppress-contains :
      (watchlist suppress : List Str) (n : Str)
      → (contains (new_with_suppress watchlist suppress).names n
          ≡ any (λ raw. is_entry_of n (etld1 raw)) watchlist)
        × (contains (new_with_suppress watchlist suppress).suppress n
            ≡ any (λ raw. is_entry_of n (etld1 raw)) suppress)
        × IsNodup (new_with_suppress watchlist suppress).names
        × IsNodup (new_with_suppress watchlist suppress).suppress
  unfolding new_with_suppress
  new_with_suppress-contains watchlist suppress n = (
    insert_all-contains [] watchlist n,
    insert_all-contains [] suppress n,
    insert_all-IsNodup [] watchlist tt,
    insert_all-IsNodup [] suppress tt,
  )
