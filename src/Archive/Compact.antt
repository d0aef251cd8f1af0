-- ===== src/Archive/Compact.antt =====
-- src/archive.rs: the sample of a certificate's names that a line keeps.
use ct_firehose_filter.Prelude.{ℕ, ◌≤◌, ◌≡◌, ◌⊎◌, true, List, ◌++◌, length, Str, contains, IsNodup}
use ct_firehose_filter.Archive.Event.{Sample}

-- What the loops keep to.
record IsValid (limit : ℕ) (s : Sample) : Type 0 where
  pub once : IsNodup s.out
  pub same : (a : Str) → contains s.seen a ≡ contains s.out a
  pub most : length s.out ≤ limit

-- What a loop over `domains` adds.
record Adds (limit : ℕ) (domains : List Str) (s t : Sample) : Type 0 where
  pub more : List Str
  pub added : t.out ≡ s.out ++ more
  pub from : (a : Str) → contains more a ≡ true → contains domains a ≡ true
  pub filled :
      (limit ≤ length t.out) ⊎ ((a : Str) → contains domains a ≡ true → contains t.out a ≡ true)

-- A sample of at most `limit` names, none twice: names that matched, as many as there is room for,
-- and then others of the certificate, again as many as there is room for.
pub record IsSampled (limit : ℕ) (all_domains matched out : List Str) : Type 0 where
  pub first : List Str
  pub rest : List Str
  pub parts : out ≡ first ++ rest
  pub once : IsNodup out
  pub most : length out ≤ limit
  pub first_matched : (a : Str) → contains first a ≡ true → contains matched a ≡ true
  pub rest_listed : (a : Str) → contains rest a ≡ true → contains all_domains a ≡ true
  pub no_match_left :
      (limit ≤ length first) ⊎ ((a : Str) → contains matched a ≡ true → contains first a ≡ true)
  pub none_left :
      (limit ≤ length out) ⊎ ((a : Str) → contains all_domains a ≡ true → contains out a ≡ true)
