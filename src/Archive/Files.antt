-- ===== src/Archive/Files.antt =====
-- src/archive.rs: the directory of the archive. Its other directories are those of the snapshots,
-- as the sizes of the files in them; a file that cannot be read is not among them.
use ct_firehose_filter.Prelude.{
  ℕ, Bool, not, ◌||◌, ◌==◌, List, [], ◌∷◌, if◌then◌else◌, Str, codes, str_eq,
}
use ct_firehose_filter.Config.{ArchiveConfig}
use ct_firehose_filter.Chunks.{
  File, saturating_add, add_sizes, is_rotated_sibling, rotated_sort_key, list_rotated, prune_oldest,
}

abbrev pub live_name : Str
live_name = codes "matches.jsonl"

-- What stands in a directory of the archive's: a file, or a directory with the sizes of its files.
pub data Inner : Type 0 where
  inner_file : ℕ → Inner
  inner_dir : List ℕ → Inner

pub record Dir : Type 0 where
  pub files : List File
  pub folders : List (List Inner)

abbrev add_numbers : ℕ → List ℕ → ℕ
add_numbers total [] = total
add_numbers total (n ∷ sizes) = add_numbers (saturating_add total n) sizes

abbrev add_inner : ℕ → List Inner → ℕ
add_inner total [] = total
add_inner total (inner_file n ∷ entries) = add_inner (saturating_add total n) entries
add_inner total (inner_dir sizes ∷ entries) = add_inner (add_numbers total sizes) entries

abbrev add_folders : ℕ → List (List Inner) → ℕ
add_folders total [] = total
add_folders total (folder ∷ folders) = add_folders (add_inner total folder) folders

-- A directory that cannot be read counts as one without entries, whose total is 0.
unfoldable pub dir_byte_total : Dir → ℕ
dir_byte_total d = add_folders (add_sizes 0 d.files) d.folders

abbrev pub is_sealed_archive_name : Str → Bool
is_sealed_archive_name name = is_rotated_sibling live_name name

abbrev pub sealed_sort_key : Str → ℕ
sealed_sort_key name = rotated_sort_key name

abbrev pub list_sealed : List File → List Str
list_sealed files = list_rotated live_name files

abbrev pub is_live : Str → Bool
is_live name = str_eq name live_name

-- The directory's files after the pruning; `lists` is whether it can be listed, and `deletes` whether
-- the deletion of a file succeeds.
unfoldable pub prune_sealed_to_budget : ArchiveConfig → Bool → (Str → Bool) → Dir → Dir
unfolding dir_byte_total prune_oldest
prune_sealed_to_budget cfg lists deletes d =
    if (cfg.max_total_bytes == 0) || not lists then d else record d {
      files =
          prune_oldest (λ files. dir_byte_total (record d { files = files })) cfg.max_total_bytes
            is_live deletes (list_sealed d.files) d.files;
    }
