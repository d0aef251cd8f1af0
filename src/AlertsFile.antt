-- ===== src/AlertsFile.antt =====
-- src/alerts_file.rs: the file of alerts, its rotation and the writing of a line. How the calls of
-- the file system end is an input, and so are the clock and the size of a compressed file. A path
-- is the name in its directory. A write or a flush that fails is taken to leave nothing: that its
-- line may stay in the writer's buffer and reach the file with a later one is not modelled.
pub mod Lost
use ct_firehose_filter.Prelude.{
  ℕ, ◌+◌, ◌*◌, Bool, true, false, not, ◌&&◌, ◌||◌, ◌==◌, Option, none, some, List, [], ◌∷◌, ◌++◌,
  filter, length, leb, ltb, map, max, if◌then◌else◌, Str, codes, str_eq, trim, to_ascii_lowercase,
}
use ct_firehose_filter.Config.{Env, lenient}
use ct_firehose_filter.Chunks.{File, add_sizes, is_rotated_sibling, list_rotated, prune_oldest}
use ct_firehose_filter.Chunks.Seal.{GzipAnswer, gzip_seal, exists, rename, free_name}

pub record AlertsFileConfig : Type 0 where
  pub path : Str
  pub max_bytes : ℕ
  pub max_total_bytes : ℕ
  pub gzip_rotated : Bool

abbrev gzip_of : Option Str → Bool
gzip_of none = true
gzip_of (some raw) =
    let s = to_ascii_lowercase (trim raw) in
    not (
      str_eq s (codes "0")
      || str_eq s (codes "false")
      || str_eq s (codes "no")
      || str_eq s (codes "off"))

unfoldable pub alerts_from_env : Env → Str → AlertsFileConfig
alerts_from_env env path = record {
  path = path;
  max_bytes = max (lenient (env (codes "NOVELTY_ALERTS_MAX_BYTES")) (256 * 1024 * 1024)) 1024;
  max_total_bytes =
      max (lenient (env (codes "NOVELTY_ALERTS_MAX_TOTAL_BYTES")) (20 * 1024 * 1024 * 1024)) 1024;
  gzip_rotated = gzip_of (env (codes "NOVELTY_ALERTS_GZIP"));
}

-- How the calls end that one operation makes.
pub record Answers : Type 0 where
  pub nanos : ℕ
  pub writes : Bool
  pub stats : Bool
  pub renames : Bool
  pub gzip : GzipAnswer
  pub lists : Bool
  pub deletes : Str → Bool
  pub opens : Bool

-- The writer appends to the file that has this name now, or to one that is deleted.
pub record AlertsFile : Type 0 where
  pub files : List File
  pub target : Option Str

abbrev is_at : Option Str → Str → Bool
is_at none name = false
is_at (some target) name = str_eq name target

abbrev append_line : Option Str → List ℕ → File → File
append_line target line f =
    if is_at target f.name
    then record f { lines = f.lines ++ (line ∷ []); size = f.size + (length line + 1) }
    else f

abbrev pub put_line : List ℕ → AlertsFile → AlertsFile
put_line line s = record s { files = map (append_line s.target line) s.files }

abbrev pub file_len : Str → List File → ℕ
file_len name [] = 0
file_len name (f ∷ files) = if str_eq f.name name then f.size else file_len name files

-- A saturating sum, which does not depend on the order.
unfoldable pub total_alerts_bytes : Str → List File → ℕ
total_alerts_bytes path files =
    add_sizes (add_sizes 0 (filter (λ f. str_eq f.name path) files))
      (filter (λ f. is_rotated_sibling path f.name) files)

-- Whether the directory can be listed, and what is left of it.
unfoldable pub prune_to_budget : AlertsFileConfig → Answers → List File → Bool × List File
unfolding prune_oldest list_rotated total_alerts_bytes
prune_to_budget cfg io files = if not io.lists then (false, files) else (
  true,
  prune_oldest (total_alerts_bytes cfg.path) cfg.max_total_bytes (λ name. false) io.deletes
      (list_rotated cfg.path files) files,
)

-- The name under which the writer's file is found after its files have changed.
abbrev found_at : Str → List File → Option Str
found_at name files = if exists name files then some name else none

abbrev pub moved_to : Str → Str → Option Str → Option Str
moved_to from to none = none
moved_to from to (some name) = if str_eq name from then some to else some name

abbrev pub still_there : List File → Option Str → Option Str
still_there files none = none
still_there files (some name) = found_at name files

module _ (gz_size : List (List ℕ) → ℕ) (cfg : AlertsFileConfig) (io : Answers) where
  abbrev pub compressed_if : Str → List File → List File
  compressed_if name files =
      if cfg.gzip_rotated then gzip_seal gz_size io.gzip name files else files

  -- The file is renamed, compressed if that is wanted, and the directory pruned.
  abbrev pub sealed : AlertsFile → Bool × AlertsFile
  sealed s =
      let name = free_name cfg.path io.nanos s.files in
      let pruned = prune_to_budget cfg io (compressed_if name (rename cfg.path name s.files)) in
      (
        pruned.0,
        record {
          files = pruned.1;
          target = still_there pruned.1 (moved_to cfg.path name s.target);
        },
      )

  unfoldable pub rotate_if_needed : AlertsFile → Bool × AlertsFile
  unfolding gzip_seal rename prune_to_budget
  rotate_if_needed s =
      if (cfg.max_bytes == 0) || not (exists cfg.path s.files)
      then (true, s)
      else if not io.stats
      then (false, s)
      else if ltb (file_len cfg.path s.files) cfg.max_bytes
      then (true, s)
      else if not io.renames
      then (false, s)
      else sealed s

  abbrev pub made : List File → List File
  made files =
      if exists cfg.path files
      then files
      else files ++ (record { name = cfg.path; lines = []; size = 0 } ∷ [])

  abbrev pub open_if : Bool × AlertsFile → Bool × AlertsFile
  open_if (false, s) = (false, s)
  open_if (true, s) =
      if io.opens
      then (true, record { files = made s.files; target = some cfg.path })
      else (false, s)

  -- On an error the writer stays as it is.
  unfoldable pub open_append : AlertsFile → Bool × AlertsFile
  unfolding rotate_if_needed
  open_append s = open_if (rotate_if_needed s)

  abbrev pub reopen_if : Bool × AlertsFile → Bool × AlertsFile
  reopen_if (false, s) = (false, s)
  reopen_if (true, s) = open_append s

  abbrev pub rotate_if_large : AlertsFile → Bool × AlertsFile
  rotate_if_large s =
      if exists cfg.path s.files && io.stats && leb cfg.max_bytes (file_len cfg.path s.files)
      then reopen_if (rotate_if_needed s)
      else (true, s)

  -- The line is in the file once `write_all` and `flush` have succeeded.
  unfoldable pub write_line : List ℕ → AlertsFile → Bool × AlertsFile
  unfolding rotate_if_needed open_append
  write_line line s = if not io.writes then (false, s) else rotate_if_large (put_line line s)
