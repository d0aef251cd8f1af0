-- ===== src/AlertsFile/Lost.antt =====
-- src/alerts_file.rs: what becomes of the alerts once their file could not be opened again.
use ct_firehose_filter.Prelude.{
  ℕ, ◌<◌, ◌≡◌, refl, ap, ◌∙◌, Bool, true, false, not, ◌&&◌, ◌||◌, ◌==◌, Option, none, some, List,
  [], ◌∷◌, ◌++◌, all, ltb, leb, if◌then◌else◌, Str, str_eq, str_eq_iff, str_eq_refl, length,
  length-append, arith, Bool-cases, inl, inr,
}
use ct_firehose_filter.Chunks.{File, gz, remove, u128_max, list_rotated, prune_oldest}
use ct_firehose_filter.Chunks.Gone.{free_name-ne, none-gzip_seal, none-prune}
use ct_firehose_filter.Chunks.Seal.{compresses, put_sealed, gzip_seal, exists, rename, free_name}
use ct_firehose_filter.AlertsFile.{
  AlertsFileConfig, Answers, AlertsFile, put_line, rotate_if_large, rotate_if_needed, open_append,
  open_if, reopen_if, sealed, prune_to_budget, total_alerts_bytes, compressed_if, made, still_there,
  moved_to, file_len, write_line,
}

-- A writer on a deleted file.
abbrev pub without_file : List File → AlertsFile
without_file files = record { files = files; target = none }

put-nowhere :
    (line : List ℕ) (files : List File) → (put_line line (without_file files)).files ≡ files
put-nowhere line [] = refl
put-nowhere line (f ∷ files) = ap (◌∷◌ f) (put-nowhere line files)

longer-name : (name : Str) → str_eq (name ++ gz) name ≡ false
longer-name name = elim (Bool-cases (str_eq (name ++ gz) name)) [
  | inl same ↦
      let e : length (name ++ gz) ≡ length name =
        ap length ((str_eq_iff (name ++ gz) name).0 same) in
      absurd (omega (arith, e, length-append name gz))
  | inr other ↦ other
]

module _ (gz_size : List (List ℕ) → ℕ) (cfg : AlertsFileConfig) where
  write-nowhere :
      (io : Answers) (line : List ℕ) (files : List File)
      → exists cfg.path files ≡ false
      → io.writes ≡ true
      → write_line gz_size cfg io line (without_file files) ≡ (true, without_file files)
  unfolding write_line
  write-nowhere io line files e w = let same = put-nowhere line files in rw (w, same, e) refl

  -- The calls, one after the other: the answers, and the files then.
  abbrev pub write_lines : List (Answers × List ℕ) → AlertsFile → List Bool × AlertsFile
  write_lines [] s = ([], s)
  write_lines (c ∷ calls) s =
      let r = write_line gz_size cfg c.0 c.1 s in
      let later = write_lines calls r.1 in (r.0 ∷ later.0, later.1)

  write_lines-nowhere :
      (calls : List (Answers × List ℕ)) (files : List File)
      → exists cfg.path files ≡ false
      → all (λ c. c.0.writes) calls ≡ true
      → (all (λ b. b) (write_lines calls (without_file files)).0 ≡ true)
        × ((write_lines calls (without_file files)).1.files ≡ files)
  write_lines-nowhere [] files e w = (refl, refl)
  write_lines-nowhere (c ∷ calls) files e w =
      rw (write-nowhere c.0 c.1 files e (ground arith))
        (write_lines-nowhere calls files e (ground arith))

  -- A compressed file is gone under its name.
  compressed-gone :
      (name : Str) (files : List File)
      → exists name (put_sealed gz_size compresses name files) ≡ false
  compressed-gone name [] = refl
  compressed-gone name (f ∷ files) = elim (Bool-cases (str_eq f.name name)) [
    | inl same ↦
        let longer : str_eq (f.name ++ gz) name ≡ false =
          ap (λ n. str_eq (n ++ gz) name) ((str_eq_iff f.name name).0 same) ∙ longer-name name in
        rw (same, longer) (compressed-gone name files)
    | inr other ↦ rw (other, other) (compressed-gone name files)
  ]

  -- What `sealed` returns of a pruning and of where the writer was.
  abbrev result : Str → Bool × List File → Option Str → Bool × AlertsFile
  result name pruned target = (
    pruned.0,
    record { files = pruned.1; target = still_there pruned.1 (moved_to cfg.path name target) },
  )

  record IsSealed (r : Bool × AlertsFile) : Type 0 where
    pub files : List File
    pub gone : exists cfg.path files ≡ false
    pub same : r ≡ (true, without_file files)

  sealed-IsSealed :
      (io : Answers) (s : AlertsFile)
      → s.target ≡ some cfg.path
      → io.nanos < u128_max
      → cfg.gzip_rotated ≡ true
      → io.gzip ≡ compresses
      → io.lists ≡ true
      → IsSealed (sealed gz_size cfg io s)
  unfolding prune_to_budget gzip_seal
  sealed-IsSealed io s t n g z l =
      let name = free_name cfg.path io.nanos s.files in
      let (h1, h2) = free_name-ne cfg.path io.nanos s.files n in
      let moved = rename cfg.path name s.files in
      let packed = gzip_seal gz_size compresses name moved in
      let pruned =
        prune_oldest (total_alerts_bytes cfg.path) cfg.max_total_bytes (λ name. false) io.deletes
          (list_rotated cfg.path packed) packed in
      let no_path : exists cfg.path pruned ≡ false =
        none-prune (λ f. str_eq f.name cfg.path) (total_alerts_bytes cfg.path) cfg.max_total_bytes
          (λ name. false) io.deletes (list_rotated cfg.path packed) packed
          (none-gzip_seal cfg.path gz_size compresses name s.files h1 h2) in
      let no_name : exists name pruned ≡ false =
        none-prune (λ f. str_eq f.name name) (total_alerts_bytes cfg.path) cfg.max_total_bytes
          (λ name. false) io.deletes (list_rotated cfg.path packed) packed
          (compressed-gone name (remove (name ++ gz) moved)) in
      let packs : compressed_if gz_size cfg io name moved ≡ packed =
        ap (λ b. if b then gzip_seal gz_size io.gzip name moved else moved) g
        ∙ ap (λ a. gzip_seal gz_size a name moved) z in
      let prunes : prune_to_budget cfg io (compressed_if gz_size cfg io name moved)
          ≡ (true, pruned) =
        ap (prune_to_budget cfg io) packs
        ∙ ap (λ b. if not b then (false, packed) else (true, pruned)) l in
      record {
        files = pruned;
        gone = no_path;
        same =
            ap (λ r. result name r s.target) prunes
            ∙ ap (result name (true, pruned)) t
            ∙ rw (str_eq_refl cfg.path, no_name) refl;
      }

  rotate_if_needed-due :
      (io : Answers) (s : AlertsFile)
      → (cfg.max_bytes == 0) ≡ false
      → exists cfg.path s.files ≡ true
      → io.stats ≡ true
      → ltb (file_len cfg.path s.files) cfg.max_bytes ≡ false
      → io.renames ≡ true
      → rotate_if_needed gz_size cfg io s ≡ sealed gz_size cfg io s
  unfolding rotate_if_needed
  rotate_if_needed-due io s m e st due r =
      let out = sealed gz_size cfg io s in
      let renames = if not io.renames then (false, s) else out in
      let sized = if ltb (file_len cfg.path s.files) cfg.max_bytes then (true, s) else renames in
      let first : ((cfg.max_bytes == 0) || not (exists cfg.path s.files)) ≡ false = ground arith in
      ap (λ b. if b then (true, s) else if not io.stats then (false, s) else sized) first
      ∙ ap (λ b. if not b then (false, s) else sized) st
      ∙ ap (λ b. if b then (true, s) else renames) due
      ∙ ap (λ b. if not b then (false, s) else out) r

  rotate_if_needed-missing :
      (io : Answers) (files : List File)
      → (cfg.max_bytes == 0) ≡ false
      → exists cfg.path files ≡ false
      → rotate_if_needed gz_size cfg io (without_file files) ≡ (true, without_file files)
  unfolding rotate_if_needed
  rotate_if_needed-missing io files m e = rw (m, e) refl

  -- With a size limit that is not zero and chunks that are compressed: when the file of alerts
  -- reaches its limit with a line and is renamed and compressed, at a time below 2 ^ 128 - 1,
  -- and the directory is pruned, but a new file cannot be opened, the alert at hand is answered
  -- as not written. From then on every alert is answered as written, as long as its write does
  -- not fail, but none of them reaches a file: the directory stays as it is.
  pub write_lines-Loses :
      (io : Answers) (line : List ℕ) (s : AlertsFile) (calls : List (Answers × List ℕ))
      → s.target ≡ some cfg.path
      → io.nanos < u128_max
      → cfg.gzip_rotated ≡ true
      → io.writes ≡ true
      → (cfg.max_bytes == 0) ≡ false
      → (exists cfg.path (put_line line s).files
          && io.stats
          && leb cfg.max_bytes (file_len cfg.path (put_line line s).files))
        ≡ true
      → io.renames ≡ true
      → io.gzip ≡ compresses
      → io.lists ≡ true
      → io.opens ≡ false
      → all (λ c. c.0.writes) calls ≡ true
      → let r = write_line gz_size cfg io line s in
        (r.0 ≡ false)
        × (all (λ b. b) (write_lines calls r.1).0 ≡ true)
        × ((write_lines calls r.1).1.files ≡ r.1.files)
  unfolding write_line open_append
  write_lines-Loses io line s calls t n g w m due r z l o h =
      let put = put_line line s in
      let done = sealed-IsSealed io put t n g z l in
      let lost = without_file done.files in
      let rotates = rotate_if_needed-due io put m (ground arith) (ground arith) (ground arith) r in
      let nothing = rotate_if_needed-missing io done.files m done.gone in
      let refused : write_line gz_size cfg io line s ≡ (false, lost) =
        ap (λ b. if not b then (false, s) else rotate_if_large gz_size cfg io put) w
        ∙ ap
            (λ b.
              if b
              then reopen_if gz_size cfg io (rotate_if_needed gz_size cfg io put)
              else (true, put))
            due
        ∙ ap (reopen_if gz_size cfg io) (rotates ∙ done.same)
        ∙ ap (open_if gz_size cfg io) nothing
        ∙ ap
            (λ b.
              if b
              then (true, record { files = made gz_size cfg io done.files; target = some cfg.path })
              else (false, lost))
            o in
      let (answers, files) = write_lines-nowhere calls done.files done.gone h in
      rw refused (refl, answers, files)
