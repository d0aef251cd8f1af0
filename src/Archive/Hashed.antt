-- ===== src/Archive/Hashed.antt =====
-- src/archive.rs: the text whose digest `write_config_snapshot` takes.
use ct_firehose_filter.Prelude.{
  ℕ, ◌≡◌, ◌⊎◌, inl, inr, refl, sym, ap, ◌∙◌, Bool, true, false, not, ◌==◌, Option, none, some, List,
  [], ◌∷◌, any, all, arith, Str, codes, split, Option-cases,
}
use ct_firehose_filter.Config.{Env, or_else, or_default}
use ct_firehose_filter.Archive.Event.{ConfigProvenance}
use ct_firehose_filter.Archive.Snapshot.{
  push_line, copy_and_hash, hash_input, write_config_snapshot,
}

abbrev pub has_newline : Str → Bool
has_newline s = any (λ c. c == b'\n') s

split-push_line :
    (value rest : Str) (lines : List Str)
    → has_newline value ≡ false
    → split b'\n' rest ≡ lines
    → split b'\n' (push_line value rest) ≡ value ∷ lines
unfolding split
split-push_line [] rest lines h e = ap (◌∷◌ []) e
split-push_line (c ∷ value) rest lines h e =
    let other : (c == b'\n') ≡ false = ground arith in
    rw (other, split-push_line value rest lines (ground arith) e) refl

-- The environment variables that are read.
abbrev pub hashed_keys : List Str
hashed_keys =
    codes "GIT_SHA"
    ∷ codes "SOURCE_VERSION"
    ∷ codes "NOVELTY_TIERS"
    ∷ codes "NOVELTY_MAX_COALITION"
    ∷ codes "NOVELTY_MAX_SANS"
    ∷ codes "NOVELTY_MAX_PARTNER_DEGREE"
    ∷ codes "NOVELTY_MAX_BRAND_DF"
    ∷ codes "NOVELTY_CALIBRATE_SECS"
    ∷ codes "NOVELTY_CALIBRATE_EVENTS"
    ∷ []

abbrev pub is_clean : Env → Str → Bool
is_clean env key = not (has_newline (or_default (env key) []))

-- The value of a variable, or its default if it is not set.
abbrev pub IsValueOf : Env → Str → Str → Str → Type 0
IsValueOf env key default value = (env key ≡ some value) ⊎ ((env key ≡ none) × (value ≡ default))

-- The digest of a file, or that of an empty one if it does not exist.
abbrev pub IsDigest : (List ℕ → Str) → Option (List ℕ) → Str → Type 0
IsDigest sha256_hex file value =
    ((bytes : List ℕ) × (file ≡ some bytes) × (value ≡ sha256_hex bytes))
    ⊎ ((file ≡ none) × (value ≡ sha256_hex []))

-- A snapshot whose hash is the digest of a text of these lines, and of an empty one at the end.
pub record IsHashed (sha256_hex : List ℕ → Str) (read : Str → Option (List ℕ)) (env : Env)
    (watchlist suppress glue : Str) (r : Option ConfigProvenance) : Type 0 where
  pub prov : ConfigProvenance
  pub text : Str
  pub wl_hash : Str
  pub sup_hash : Str
  pub glue_hash : Str
  pub git_sha : Str
  pub novelty_tiers : Str
  pub novelty_max_coalition : Str
  pub novelty_max_sans : Str
  pub novelty_max_partner_degree : Str
  pub novelty_max_brand_df : Str
  pub novelty_calibrate_secs : Str
  pub novelty_calibrate_events : Str
  pub answered : r ≡ some prov
  pub hashed : prov.config_hash ≡ sha256_hex text
  pub lines :
      split b'\n' text
      ≡ wl_hash ∷ sup_hash ∷ glue_hash ∷ git_sha ∷ novelty_tiers ∷ novelty_max_coalition
        ∷ novelty_max_sans ∷ novelty_max_partner_degree ∷ novelty_max_brand_df
        ∷ novelty_calibrate_secs ∷ novelty_calibrate_events ∷ [] ∷ []
  pub of_watchlist : IsDigest sha256_hex (read watchlist) wl_hash
  pub of_suppress : IsDigest sha256_hex (read suppress) sup_hash
  pub of_glue : IsDigest sha256_hex (read glue) glue_hash
  pub of_git_sha :
      (env (codes "GIT_SHA") ≡ some git_sha)
      ⊎ ((env (codes "GIT_SHA") ≡ none)
          × IsValueOf env (codes "SOURCE_VERSION") (codes "unknown") git_sha)
  pub of_novelty_tiers : IsValueOf env (codes "NOVELTY_TIERS") (codes "A") novelty_tiers
  pub of_novelty_max_coalition :
      IsValueOf env (codes "NOVELTY_MAX_COALITION") (codes "5") novelty_max_coalition
  pub of_novelty_max_sans : IsValueOf env (codes "NOVELTY_MAX_SANS") (codes "32") novelty_max_sans
  pub of_novelty_max_partner_degree :
      IsValueOf env (codes "NOVELTY_MAX_PARTNER_DEGREE") (codes "25") novelty_max_partner_degree
  pub of_novelty_max_brand_df :
      IsValueOf env (codes "NOVELTY_MAX_BRAND_DF") (codes "25") novelty_max_brand_df
  pub of_novelty_calibrate_secs :
      IsValueOf env (codes "NOVELTY_CALIBRATE_SECS") (codes "0") novelty_calibrate_secs
  pub of_novelty_calibrate_events :
      IsValueOf env (codes "NOVELTY_CALIBRATE_EVENTS") (codes "0") novelty_calibrate_events

or_default-IsValueOf :
    (env : Env) (key default : Str) → IsValueOf env key default (or_default (env key) default)
or_default-IsValueOf env key default = elim (Option-cases (env key)) [
  | inl unset ↦ inr (unset, ap (λ o. or_default o default) unset)
  | inr (v, e) ↦ inl (e ∙ ap (λ o. some (or_default o default)) (sym e))
]

or_default-clean :
    (o : Option Str) (default : Str)
    → has_newline default ≡ false
    → not (has_newline (or_default o [])) ≡ true
    → has_newline (or_default o default) ≡ false
or_default-clean none default h k = h
or_default-clean (some v) default h k = ground arith

or_else-clean :
    (a b : Option Str)
    → not (has_newline (or_default a [])) ≡ true
    → not (has_newline (or_default b [])) ≡ true
    → not (has_newline (or_default (or_else a b) [])) ≡ true
or_else-clean none b h k = k
or_else-clean (some v) b h k = h

copy_and_hash-IsDigest :
    (sha256_hex : List ℕ → Str) (read : Str → Option (List ℕ)) (src : Str)
    → IsDigest sha256_hex (read src) (copy_and_hash sha256_hex read src)
unfolding copy_and_hash
copy_and_hash-IsDigest sha256_hex read src = elim (Option-cases (read src)) [
  | inl missing ↦ rw missing (inr (refl, refl))
  | inr (bytes, e) ↦ rw e (inl (bytes, refl, refl))
]

copy_and_hash-clean :
    (sha256_hex : List ℕ → Str) (read : Str → Option (List ℕ)) (src : Str)
    → ((bytes : List ℕ) → has_newline (sha256_hex bytes) ≡ false)
    → has_newline (copy_and_hash sha256_hex read src) ≡ false
unfolding copy_and_hash
copy_and_hash-clean sha256_hex read src h = elim (Option-cases (read src)) [
  | inl missing ↦ rw missing (h [])
  | inr (bytes, e) ↦ rw e (h bytes)
]

git_sha_of :
    (env : Env)
    → let sha =
        or_default
          (or_else (env (codes "GIT_SHA")) (env (codes "SOURCE_VERSION")))
          (codes "unknown") in
      (env (codes "GIT_SHA") ≡ some sha)
      ⊎ ((env (codes "GIT_SHA") ≡ none)
          × IsValueOf env (codes "SOURCE_VERSION") (codes "unknown") sha)
git_sha_of env = elim (Option-cases (env (codes "GIT_SHA"))) [
  | inl unset ↦
      inr (unset, rw unset (or_default-IsValueOf env (codes "SOURCE_VERSION") (codes "unknown")))
  | inr (v, e) ↦ inl (rw e refl)
]

-- When everything of the snapshot can be written, and no digest and none of the environment
-- variables named here has a line break, the hash of a configuration is the digest of a text whose
-- lines are, in this order: the digests of the files of the watchlist, of the suppressed and of the
-- glue names; `GIT_SHA`, or else `SOURCE_VERSION`, or else "unknown"; and the seven settings of the
-- novelty rules, each its variable or, if that is not set, its default.
pub write_config_snapshot-IsHashed :
    (sha256_hex : List ℕ → Str) (read : Str → Option (List ℕ)) (env : Env) (secs : Option ℕ)
    (watchlist suppress glue : Str)
    → ((bytes : List ℕ) → has_newline (sha256_hex bytes) ≡ false)
    → all (is_clean env) hashed_keys ≡ true
    → IsHashed sha256_hex read env watchlist suppress glue
        (write_config_snapshot sha256_hex read env secs true watchlist suppress glue)
unfolding write_config_snapshot hash_input split
write_config_snapshot-IsHashed sha256_hex read env secs watchlist suppress glue hex clean =
    let file = copy_and_hash-IsDigest sha256_hex read in
    let set = or_default-IsValueOf env in
    let digest = λ (src : Str). copy_and_hash-clean sha256_hex read src hex in
    record {
      prov = _;
      text = _;
      wl_hash = _;
      sup_hash = _;
      glue_hash = _;
      git_sha = _;
      novelty_tiers = _;
      novelty_max_coalition = _;
      novelty_max_sans = _;
      novelty_max_partner_degree = _;
      novelty_max_brand_df = _;
      novelty_calibrate_secs = _;
      novelty_calibrate_events = _;
      answered = refl;
      hashed = refl;
      lines = split-push_line _ _ _ (digest watchlist) (
          split-push_line _ _ _ (digest suppress) (
            split-push_line _ _ _ (digest glue) (
              split-push_line _ _ _
                (or_default-clean (or_else (env (codes "GIT_SHA")) (env (codes "SOURCE_VERSION")))
                  (codes "unknown") refl
                  (or_else-clean (env (codes "GIT_SHA")) (env (codes "SOURCE_VERSION"))
                    (ground arith) (ground arith)))
                (split-push_line _ _ _
                  (or_default-clean (env (codes "NOVELTY_TIERS")) (codes "A") refl (ground arith))
                  (split-push_line _ _ _
                    (or_default-clean (env (codes "NOVELTY_MAX_COALITION")) (codes "5") refl
                      (ground arith))
                    (split-push_line _ _ _
                      (or_default-clean (env (codes "NOVELTY_MAX_SANS")) (codes "32") refl
                        (ground arith))
                      (split-push_line _ _ _
                        (or_default-clean (env (codes "NOVELTY_MAX_PARTNER_DEGREE")) (codes "25")
                          refl (ground arith))
                        (split-push_line _ _ _
                          (or_default-clean (env (codes "NOVELTY_MAX_BRAND_DF")) (codes "25") refl
                            (ground arith))
                          (split-push_line _ _ _
                            (or_default-clean (env (codes "NOVELTY_CALIBRATE_SECS")) (codes "0")
                              refl (ground arith))
                            (split-push_line _ _ _
                              (or_default-clean (env (codes "NOVELTY_CALIBRATE_EVENTS")) (codes "0")
                                refl (ground arith))
                              refl))))))))));
      of_watchlist = file watchlist;
      of_suppress = file suppress;
      of_glue = file glue;
      of_git_sha = git_sha_of env;
      of_novelty_tiers = set (codes "NOVELTY_TIERS") (codes "A");
      of_novelty_max_coalition = set (codes "NOVELTY_MAX_COALITION") (codes "5");
      of_novelty_max_sans = set (codes "NOVELTY_MAX_SANS") (codes "32");
      of_novelty_max_partner_degree = set (codes "NOVELTY_MAX_PARTNER_DEGREE") (codes "25");
      of_novelty_max_brand_df = set (codes "NOVELTY_MAX_BRAND_DF") (codes "25");
      of_novelty_calibrate_secs = set (codes "NOVELTY_CALIBRATE_SECS") (codes "0");
      of_novelty_calibrate_events = set (codes "NOVELTY_CALIBRATE_EVENTS") (codes "0");
    }
