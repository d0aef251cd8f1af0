-- ===== src/Archive/Sealing.antt =====
-- src/archive.rs: what sealing the live file does to the files of the archive.
use ct_firehose_filter.Prelude.{
  ◌≡◌, refl, Bool, false, not, ◌||◌, ◌==◌, List, [], ◌∷◌, any, arith, Bool-cases, inl, inr, Str,
}
use ct_firehose_filter.Chunks.{File}
use ct_firehose_filter.Config.{ArchiveConfig}
use ct_firehose_filter.Archive.Files.{Dir, live_name, is_live, list_sealed, prune_sealed_to_budget}
use ct_firehose_filter.Chunks.Seal.{exists}
use ct_firehose_filter.Archive.Writer.{live_len}
use ct_firehose_filter.Chunks.Gone.{none-prune}

module _ (q : File → Bool) where
  pub none-prune_sealed :
      (cfg : ArchiveConfig) (lists : Bool) (deletes : Str → Bool) (d : Dir)
      → any q d.files ≡ false
      → any q (prune_sealed_to_budget cfg lists deletes d).files ≡ false
  unfolding prune_sealed_to_budget
  none-prune_sealed cfg lists deletes d h =
      elim (Bool-cases ((cfg.max_total_bytes == 0) || not lists)) [
        | inl off ↦ rw off h
        | inr prunes ↦ rw prunes (none-prune q _ _ is_live deletes (list_sealed d.files) d.files h)
      ]

pub live_len-none : (files : List File) → exists live_name files ≡ false → live_len files ≡ 0
live_len-none [] h = refl
live_len-none (f ∷ files) h = ground (arith, live_len-none files)
