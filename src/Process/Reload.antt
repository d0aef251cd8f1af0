-- ===== src/Process/Reload.antt =====
-- src/main.rs: the watchlist that is in use.
use ct_firehose_filter.Prelude.{
  ◌≤◌, ◌≡◌, subst, refl, ap, sym, ◌∙◌, true, Option, none, some, List, [], ◌∷◌, if◌then◌else◌, Str,
  arith, Bool-cases, inl, inr,
}
use ct_firehose_filter.Watchlist.Names.{Psl}
use ct_firehose_filter.Watchlist.Names.{DomainWatchlist}
use ct_firehose_filter.Watchlist.Hot.{HotWatchlist, Files, len, swap, new_hot}
use ct_firehose_filter.Config.{Config, is_prod}
use ct_firehose_filter.Process.{
  build_watchlist, start_watchlist, long_enough, hot_if_long, Shared, Round, reload, reload_all,
  after_load,
}
use ct_firehose_filter.Archive.Event.{ConfigProvenance}

-- What a round loads, if it does.
abbrev pub loaded : Psl → Str → Round → Option DomainWatchlist
loaded psl path r = if r.joined then build_watchlist psl r.files path else none

abbrev pub or_kept : Option DomainWatchlist → DomainWatchlist → DomainWatchlist
or_kept none w = w
or_kept (some new) w = new

-- The last watchlist that was loaded, or the first.
abbrev pub latest : Psl → Str → List Round → DomainWatchlist → DomainWatchlist
latest psl path [] w = w
latest psl path (r ∷ rest) w = latest psl path rest (or_kept (loaded psl path r) w)

after_load_lem :
    (p : Option ConfigProvenance) (o : Option DomainWatchlist) (s : Shared)
    → (after_load p o s).hot.inner ≡ or_kept o s.hot.inner
unfolding swap
after_load_lem p none s = refl
after_load_lem p (some w) s = refl

reload_lem :
    (psl : Psl) (path : Str) (r : Round) (s : Shared)
    → (reload psl path r s).hot.inner ≡ or_kept (loaded psl path r) s.hot.inner
unfolding reload
reload_lem psl path r s = elim (Bool-cases r.joined) [
  | inr lost ↦ rw lost refl
  | inl back ↦ rw back (after_load_lem r.snapshot (build_watchlist psl r.files path) s)
]

-- However many rounds of loading fail, the watchlist in use is the last one that was loaded, or the
-- one of the start if none was.
pub reload_all-latest :
    (psl : Psl) (path : Str) (rounds : List Round) (s : Shared)
    → (reload_all psl path rounds s).hot.inner ≡ latest psl path rounds s.hot.inner
unfolding reload_all
reload_all-latest psl path [] s = refl
reload_all-latest psl path (r ∷ rest) s =
    reload_all-latest psl path rest (reload psl path r s)
    ∙ ap (latest psl path rest) (reload_lem psl path r s)

hot_if_long_sound :
    (config : Config) (o : Option DomainWatchlist) (hot : HotWatchlist)
    → is_prod config.egress ≡ true
    → hot_if_long config o ≡ some hot
    → (config.watchlist_min_len ≤ len hot.inner) × (o ≡ some hot.inner)
hot_if_long_sound config none hot p h = absurd cc
hot_if_long_sound config (some w) hot p h = elim (Bool-cases (long_enough config w)) [
  | inr short ↦
      let e : none ≡ some hot = ap (λ b. if b then some (new_hot w) else none) (sym short) ∙ h in
      absurd cc
  | inl long ↦
      let e : some (new_hot w) ≡ some hot =
        ap (λ b. if b then some (new_hot w) else none) (sym long) ∙ h in
      let same : new_hot w ≡ hot = cc in
      let least : config.watchlist_min_len ≤ len w = ground arith in
      (
        subst (λ x. config.watchlist_min_len ≤ len x) (ap (λ x. x.inner) same) least,
        ap (λ x. some x.inner) same,
      )
]

-- With the product on, a process that starts has a watchlist of the least length at least, and it
-- is the one of its file.
pub start_watchlist_lem :
    (psl : Psl) (files : Files) (config : Config) (hot : HotWatchlist)
    → is_prod config.egress ≡ true
    → start_watchlist psl files config ≡ some hot
    → (config.watchlist_min_len ≤ len hot.inner)
      × (build_watchlist psl files config.watchlist_file ≡ some hot.inner)
unfolding start_watchlist
start_watchlist_lem psl files config hot p h =
    hot_if_long_sound config (build_watchlist psl files config.watchlist_file) hot p h
