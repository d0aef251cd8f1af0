-- ===== src/Watchlist/Host.antt =====
-- src/watchlist.rs, `normalize_host` and `host_suffixes`.
use ct_firehose_filter.Prelude.{
  ◌≡◌, ℕ, ◌⊎◌, ◌↔◌, sym, refl, ap, ◌∙◌, true, ◌&&◌, Option, none, some, List, [], ◌∷◌, ◌++◌, arith,
  ◌==◌, if◌then◌else◌, is_empty, Str, codes, str_eq, str_eq_iff, trim, drop_end, strip_prefix,
  to_ascii_lowercase, to_ascii_lowercase_idem, trim-lower, drop_end-lower, contains, Bool-cases,
  inl, inr, str_eq_refl, lower,
}

abbrev pub star_dot : Str
star_dot = codes "*."

-- `s.strip_prefix("*.").unwrap_or(s)`
abbrev pub strip_star : Str → Str
strip_star s = elim (strip_prefix star_dot s) [ none ↦ s | some rest ↦ rest ]

unfoldable pub normalize_host : Str → Option Str
unfolding trim strip_prefix
normalize_host raw =
    let trimmed = trim (drop_end (λ c. c == b'.') (trim raw)) in
    if is_empty trimmed
    then none
    else (let host = strip_star (to_ascii_lowercase trimmed) in
        if is_empty host then none else some host)

-- The suffixes that follow a dot, longest first.
unfoldable pub after_dots : Str → List Str
after_dots [] = []
after_dots (c ∷ s) = if c == b'.' then s ∷ after_dots s else after_dots s

unfoldable pub host_suffixes : Str → List Str
unfolding after_dots
host_suffixes host = host ∷ after_dots host

wildcard : normalize_host (codes " *.EU.Acme.com. ") ≡ some (codes "eu.acme.com")
unfolding normalize_host
wildcard = refl

suffixes : host_suffixes (codes "a.b.com") ≡ codes "a.b.com" ∷ codes "b.com" ∷ codes "com" ∷ []
unfolding host_suffixes
suffixes = refl

dot_blind : (c : ℕ) → (lower c == b'.') ≡ (c == b'.')
dot_blind c = ground arith

trimmed-lower :
    (raw : Str)
    → trim (drop_end (λ c. c == b'.') (trim (to_ascii_lowercase raw)))
      ≡ to_ascii_lowercase (trim (drop_end (λ c. c == b'.') (trim raw)))
trimmed-lower raw =
    ap (λ s. trim (drop_end (λ c. c == b'.') s)) (trim-lower raw)
    ∙ ap trim (drop_end-lower (λ c. c == b'.') dot_blind (trim raw))
    ∙ trim-lower (drop_end (λ c. c == b'.') (trim raw))

is_empty-lower : (s : Str) → is_empty (to_ascii_lowercase s) ≡ is_empty s
is_empty-lower [] = refl
is_empty-lower (c ∷ s) = refl

-- A host is normalized alike whatever the case of its letters.
pub normalize_host-lower :
    (raw : Str) → normalize_host (to_ascii_lowercase raw) ≡ normalize_host raw
unfolding normalize_host
normalize_host-lower raw =
    rw
      (
        trimmed-lower raw,
        is_empty-lower (trim (drop_end (λ c. c == b'.') (trim raw))),
        to_ascii_lowercase_idem (trim (drop_end (λ c. c == b'.') (trim raw))),
      )
      refl

-- Two spellings of a name that differ in case alone normalize to one host.
pub normalize_host-eq_of_case :
    (raw other : Str)
    → to_ascii_lowercase raw ≡ to_ascii_lowercase other
    → normalize_host raw ≡ normalize_host other
normalize_host-eq_of_case raw other e =
    sym (normalize_host-lower raw) ∙ ap normalize_host e ∙ normalize_host-lower other

after_dots_sound :
    (h s : Str) → contains (after_dots h) s ≡ true → (p : Str) × (h ≡ p ++ (b'.' ∷ s))
unfolding after_dots
after_dots_sound [] s m = ground arith
after_dots_sound (c ∷ h) s m = elim (Bool-cases ((c == b'.') && str_eq s h)) [
  | inl here ↦ ([], ground (arith, str_eq_iff s h))
  | inr there ↦ let (p, e) = after_dots_sound h s (ground arith) in (c ∷ p, ap (◌∷◌ c) e)
]

after_dots_complete : (p s : Str) → contains (after_dots (p ++ (b'.' ∷ s))) s ≡ true
unfolding after_dots
after_dots_complete [] s = ground (arith, str_eq_refl s)
after_dots_complete (c ∷ p) s = ground (arith, after_dots_complete p s)

-- The suffixes of a host are the host itself and what follows one of its dots, and nothing else:
-- a name inside a label is no suffix.
pub mem-host_suffixes :
    (h s : Str)
    → (contains (host_suffixes h) s ≡ true) ↔ ((s ≡ h) ⊎ ((p : Str) × (h ≡ p ++ (b'.' ∷ s))))
unfolding host_suffixes
mem-host_suffixes h s = (
  λ m. elim (Bool-cases (str_eq s h)) [
    | inl same ↦ inl ((str_eq_iff s h).0 same)
    | inr other ↦ inr (after_dots_sound h s (ground arith))
  ],
  elim [
    | inl e ↦ ground (arith, str_eq_iff s h)
    | inr (p, e) ↦ rw e (ground (arith, after_dots_complete p s))
  ],
)
