-- ===== src/Archive/Pruned.antt =====
-- src/archive.rs: what a pruning leaves of the archive.
use ct_firehose_filter.Prelude.{
  ◌≤◌, ◌≡◌, ◌⊎◌, refl, ap, ◌∙◌, Bool, true, false, not, ◌||◌, ◌==◌, List, [], ◌∷◌, all, filter,
  arith, inl, inr, Str, str_eq_iff, strip_prefix,
}
use ct_firehose_filter.Config.{ArchiveConfig}
use ct_firehose_filter.Chunks.{File, is_rotated_sibling}
use ct_firehose_filter.Chunks.Budget.{Leaves, prune_oldest-Leaves}
use ct_firehose_filter.Archive.Files.{
  Dir, dir_byte_total, live_name, is_live, is_sealed_archive_name, prune_sealed_to_budget,
}

-- The live file's name is not that of a sealed chunk, and is no compressed one's.
live-not_sealed : is_sealed_archive_name live_name ≡ false
unfolding is_rotated_sibling strip_prefix
live-not_sealed = refl

pub record IsPrunedTo (cfg : ArchiveConfig) (deletes : Str → Bool) (d result : Dir) : Type 0 where
  pub folders : result.folders ≡ d.folders
  pub files :
      Leaves
        (λ files. dir_byte_total (record d { files = files }))
        cfg.max_total_bytes
        is_live
        deletes
        live_name
        d.files
        result.files
  pub others :
      filter (λ f. not (is_sealed_archive_name f.name)) result.files
      ≡ filter (λ f. not (is_sealed_archive_name f.name)) d.files
  pub within :
      (dir_byte_total result ≤ cfg.max_total_bytes)
      ⊎ (all (λ f. not (is_sealed_archive_name f.name) || not (deletes f.name)) result.files ≡ true)

pub sealed-not_live : (name : Str) → is_live name ≡ true → is_sealed_archive_name name ≡ false
sealed-not_live name h =
    ap is_sealed_archive_name ((str_eq_iff name live_name).0 h) ∙ live-not_sealed

only_deletes :
    (deletes : Str → Bool) (files : List File)
    → all
        (λ f. not (is_sealed_archive_name f.name) || (is_live f.name || not (deletes f.name)))
        files
      ≡ true
    → all (λ f. not (is_sealed_archive_name f.name) || not (deletes f.name)) files ≡ true
only_deletes deletes [] h = refl
only_deletes deletes (f ∷ files) h =
    ground (arith, sealed-not_live f.name, only_deletes deletes files)

-- With a budget that is not zero, and a directory that can be listed, a pruning deletes the
-- sealed chunks in the order of their times, the oldest first, and each only while the archive
-- takes more than the budget. Every other file stays as it is, the live one and the snapshots
-- among them. Afterwards the archive keeps to the budget, or no sealed chunk is left but those
-- whose deletion failed.
pub prune_sealed_to_budget-IsPrunedTo :
    (cfg : ArchiveConfig) (deletes : Str → Bool) (d : Dir)
    → (cfg.max_total_bytes == 0) ≡ false
    → IsPrunedTo cfg deletes d (prune_sealed_to_budget cfg true deletes d)
unfolding prune_sealed_to_budget
prune_sealed_to_budget-IsPrunedTo cfg deletes d h =
    let total = λ (files : List File). dir_byte_total (record d { files = files }) in
    let l = prune_oldest-Leaves total cfg.max_total_bytes is_live deletes live_name d.files in
    rw h (record {
      folders = refl;
      files = l;
      others = l.others;
      within = elim l.within [
        | inl fits ↦ inl fits
        | inr stuck ↦ inr (only_deletes deletes _ stuck)
      ];
    })
