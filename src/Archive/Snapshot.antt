-- ===== src/Archive/Snapshot.antt =====
-- src/archive.rs: `write_config_snapshot`, whose result every line of the archive carries. The digest
-- (crate `sha2`, in hexadecimal), the contents of the files and the clock are parameters.
use ct_firehose_filter.Prelude.{
  ℕ, Bool, not, Option, none, some, List, [], ◌∷◌, ◌++◌, if◌then◌else◌, Str, codes,
}
use ct_firehose_filter.Prelude.Numbers.{decimal}
use ct_firehose_filter.Config.{Env, or_else, or_default}
use ct_firehose_filter.Archive.Event.{ConfigProvenance}

abbrev hash_of : (List ℕ → Str) → Option (List ℕ) → Str
hash_of sha256_hex none = sha256_hex []
hash_of sha256_hex (some bytes) = sha256_hex bytes

-- The digest of a file's copy; a file that does not exist is copied as an empty one.
unfoldable pub copy_and_hash : (List ℕ → Str) → (Str → Option (List ℕ)) → Str → Str
copy_and_hash sha256_hex read src = hash_of sha256_hex (read src)

-- What the hash of a configuration is made of.
pub record Settings : Type 0 where
  pub wl_hash : Str
  pub sup_hash : Str
  pub glue_hash : Str
  pub git_sha : Str
  pub novelty_tiers : Str
  pub novelty_max_coalition : Str
  pub novelty_max_sans : Str
  pub novelty_max_partner_degree : Str
  pub novelty_max_brand_df : Str
  pub novelty_calibrate_secs : Str
  pub novelty_calibrate_events : Str

abbrev pub settings : Env → Str → Str → Str → Settings
settings env wl_hash sup_hash glue_hash = record {
  wl_hash = wl_hash;
  sup_hash = sup_hash;
  glue_hash = glue_hash;
  git_sha =
      or_default (or_else (env (codes "GIT_SHA")) (env (codes "SOURCE_VERSION"))) (codes "unknown");
  novelty_tiers = or_default (env (codes "NOVELTY_TIERS")) (codes "A");
  novelty_max_coalition = or_default (env (codes "NOVELTY_MAX_COALITION")) (codes "5");
  novelty_max_sans = or_default (env (codes "NOVELTY_MAX_SANS")) (codes "32");
  novelty_max_partner_degree = or_default (env (codes "NOVELTY_MAX_PARTNER_DEGREE")) (codes "25");
  novelty_max_brand_df = or_default (env (codes "NOVELTY_MAX_BRAND_DF")) (codes "25");
  novelty_calibrate_secs = or_default (env (codes "NOVELTY_CALIBRATE_SECS")) (codes "0");
  novelty_calibrate_events = or_default (env (codes "NOVELTY_CALIBRATE_EVENTS")) (codes "0");
}

-- A value on a line of its own, before the lines of what is pushed later.
abbrev pub push_line : Str → Str → Str
push_line value rest = value ++ (b'\n' ∷ rest)

unfoldable pub hash_input : Settings → Str
hash_input c = push_line c.wl_hash (
    push_line c.sup_hash (
      push_line c.glue_hash (
        push_line c.git_sha (
          push_line c.novelty_tiers (
            push_line c.novelty_max_coalition (
              push_line c.novelty_max_sans (
                push_line c.novelty_max_partner_degree (
                  push_line c.novelty_max_brand_df (
                    push_line c.novelty_calibrate_secs
                      (push_line c.novelty_calibrate_events []))))))))))

-- `secs` is the clock's reading, if it is not before 1970, and `writes` whether every file and
-- directory of the snapshot can be written.
unfoldable pub write_config_snapshot :
    (List ℕ → Str)
    → (Str → Option (List ℕ))
    → Env
    → Option ℕ
    → Bool
    → Str
    → Str
    → Str
    → Option ConfigProvenance
unfolding copy_and_hash hash_input
write_config_snapshot sha256_hex read env secs writes watchlist suppress glue =
    if not writes
    then none
    else some (record {
      config_hash = sha256_hex (
          hash_input (
            settings env (copy_and_hash sha256_hex read watchlist)
              (copy_and_hash sha256_hex read suppress) (copy_and_hash sha256_hex read glue)));
      snapshot_id = decimal (elim secs [ none ↦ 0 | some n ↦ n ]);
    })
