-- ===== src/Archive/Lost.antt =====
-- src/archive.rs: what becomes of the lines once the live file could not be opened again.
use ct_firehose_filter.Prelude.{
  ℕ, ◌+◌, ◌*◌, ◌≤◌, ◌<◌, ◌≡◌, refl, ap, ◌∙◌, Bool, true, false, not, ◌&&◌, Option, List, [], ◌∷◌,
  all, length, ltb, if◌then◌else◌, arith, Bool-cases, Option-cases, is_some, inl, inr, Str,
}
use ct_firehose_filter.Event.{MatchEvent}
use ct_firehose_filter.Metrics.{PipelineMetrics}
use ct_firehose_filter.Config.{ArchiveConfig}
use ct_firehose_filter.Chunks.{u128_max}
use ct_firehose_filter.Archive.Event.{MatchArchiveEvent, ConfigProvenance}
use ct_firehose_filter.Archive.Files.{Dir, live_name, prune_sealed_to_budget, is_live}
use ct_firehose_filter.Chunks.Seal.{exists, gzip_seal, rename}
use ct_firehose_filter.Chunks.Gone.{free_name-ne, none-gzip_seal}
use ct_firehose_filter.Archive.Sealing.{none-prune_sealed, live_len-none}
use ct_firehose_filter.Archive.Writer.{
  Answers, MatchArchive, live_len, rotated_path, rotate_live_if_needed, rotate_if_due, rotate,
  ◌then◌, flush_writer, write_all, count_session, append_line, line_of, record_enqueued, flushed,
}

-- A call of `record_enqueued`.
pub record Call : Type 0 where
  pub io : Answers
  pub prov : ConfigProvenance
  pub ev : MatchEvent
  pub all_domains : List Str

-- An archive whose writer appends to a file that is deleted.
abbrev pub without_live : Dir → List (List ℕ) → ℕ → Option PipelineMetrics → MatchArchive
without_live dir buffered session metrics = record {
  dir = dir;
  on_live = false;
  buffered = buffered;
  session = session;
  metrics = metrics;
}

record IsWithoutLive (dir : Dir) (r : Bool × MatchArchive) : Type 0 where
  pub buffered : List (List ℕ)
  pub session : ℕ
  pub metrics : Option PipelineMetrics
  pub same : r ≡ (true, without_live dir buffered session metrics)

module _ (gz_size : List (List ℕ) → ℕ) (cfg : ArchiveConfig)
    (to_vec : MatchArchiveEvent → Option (List ℕ)) where
  -- The calls, one after the other: the answers, and the archive then.
  abbrev pub record_all : List Call → MatchArchive → List Bool × MatchArchive
  record_all [] s = ([], s)
  record_all (c ∷ calls) s =
      let r = record_enqueued gz_size cfg c.io to_vec c.prov c.ev c.all_domains s in
      let later = record_all calls r.1 in (r.0 ∷ later.0, later.1)

  -- No call of the file system fails, and the line is made.
  abbrev pub works : Call → Bool
  works c =
      c.io.flushes
      && c.io.writes
      && c.io.flushes_again
      && is_some (line_of gz_size cfg c.io to_vec c.prov c.ev c.all_domains)

  module _ (io : Answers) (dir : Dir) where
    rotate-without :
        (buffered : List (List ℕ)) (session : ℕ) (metrics : Option PipelineMetrics)
        → 1 ≤ cfg.max_bytes
        → exists live_name dir.files ≡ false
        → io.flushes ≡ true
        → rotate_live_if_needed gz_size cfg io (without_live dir buffered session metrics)
          ≡ (true, without_live dir [] session metrics)
    unfolding rotate_live_if_needed
    rotate-without buffered session metrics m e f =
        let short : ltb (live_len dir.files) cfg.max_bytes ≡ true =
          ap (λ n. ltb n cfg.max_bytes) (live_len-none dir.files e) ∙ ground arith in
        rw (f, short) refl

    write-without :
        (line : List ℕ) (session : ℕ) (metrics : Option PipelineMetrics)
        → io.writes ≡ true
        → IsWithoutLive dir (write_all gz_size cfg io line (without_live dir [] session metrics))
    write-without line session metrics w = elim (Bool-cases (ltb (length line) 8192)) [
      | inl short ↦
          rw short
            (record { buffered = line ∷ []; session = session; metrics = metrics; same = refl })
      | inr long ↦
          rw (long, w) (record { buffered = []; session = session; metrics = metrics; same = refl })
    ]

    count-without :
        (n : ℕ) (buffered : List (List ℕ)) (session : ℕ) (metrics : Option PipelineMetrics)
        → io.flushes_again ≡ true
        → IsWithoutLive dir
            (count_session gz_size cfg io n (without_live dir buffered session metrics))
    count-without n buffered session metrics f = elim (Bool-cases (ltb (session + n) (64 * 1024))) [
      | inl few ↦
          rw few
            (record { buffered = buffered; session = session + n; metrics = metrics; same = refl })
      | inr many ↦
          rw (many, f) (record { buffered = []; session = 0; metrics = metrics; same = refl })
    ]

    append-without :
        (line : List ℕ) (buffered : List (List ℕ)) (session : ℕ) (metrics : Option PipelineMetrics)
        → 1 ≤ cfg.max_bytes
        → exists live_name dir.files ≡ false
        → io.flushes ≡ true
        → io.writes ≡ true
        → io.flushes_again ≡ true
        → IsWithoutLive dir
            (append_line gz_size cfg io line (without_live dir buffered session metrics))
    append-without line buffered session metrics m e f w a =
        let one = write-without line session metrics w in
        let two = count-without (length line) one.buffered one.session one.metrics a in
        rw (rotate-without buffered session metrics m e f, one.same, two.same)
          (record { buffered = two.buffered; session = two.session; metrics = _; same = refl })

  record-without :
      (c : Call) (dir : Dir) (buffered : List (List ℕ)) (session : ℕ)
      (metrics : Option PipelineMetrics)
      → 1 ≤ cfg.max_bytes
      → exists live_name dir.files ≡ false
      → works c ≡ true
      → IsWithoutLive dir (
          record_enqueued gz_size cfg c.io to_vec c.prov c.ev c.all_domains
            (without_live dir buffered session metrics))
  unfolding record_enqueued
  record-without c dir buffered session metrics m e h =
      elim (Option-cases (line_of gz_size cfg c.io to_vec c.prov c.ev c.all_domains)) [
        | inl nothing ↦ let no = ap is_some nothing in absurd (ground arith)
        | inr (json, made) ↦ rw made (
            append-without c.io dir _ buffered session metrics m e (ground arith) (ground arith)
              (ground arith))
      ]

  record_all-without :
      (calls : List Call) (dir : Dir) (buffered : List (List ℕ)) (session : ℕ)
      (metrics : Option PipelineMetrics)
      → 1 ≤ cfg.max_bytes
      → exists live_name dir.files ≡ false
      → all works calls ≡ true
      → (all (λ b. b) (record_all calls (without_live dir buffered session metrics)).0 ≡ true)
        × ((record_all calls (without_live dir buffered session metrics)).1.dir ≡ dir)
  record_all-without [] dir buffered session metrics m e h = (refl, refl)
  record_all-without (c ∷ calls) dir buffered session metrics m e h =
      let one = record-without c dir buffered session metrics m e (ground arith) in
      rw one.same
        (record_all-without calls dir one.buffered one.session one.metrics m e (ground arith))

  -- The rotation fails with the live file gone.
  record IsFailed (r : Bool × MatchArchive) : Type 0 where
    pub dir : Dir
    pub session : ℕ
    pub metrics : Option PipelineMetrics
    pub gone : exists live_name dir.files ≡ false
    pub same : r ≡ (false, without_live dir [] session metrics)

  rotate-IsFailed :
      (io : Answers) (t : MatchArchive)
      → io.nanos < u128_max
      → io.renames ≡ true
      → io.reopens ≡ false
      → IsFailed (rotate gz_size cfg io t)
  rotate-IsFailed io t n r o =
      let path = rotated_path io.nanos t.dir.files in
      let (h1, h2) = free_name-ne live_name io.nanos t.dir.files n in
      let d : Dir = record t.dir {
        files = gzip_seal gz_size io.gzip path (rename live_name path t.dir.files);
      } in
      rw (r, o)
        (record {
          dir = prune_sealed_to_budget cfg io.lists io.deletes d;
          session = t.session;
          metrics = t.metrics;
          gone =
              none-prune_sealed (λ f. is_live f.name) cfg io.lists io.deletes d
                (none-gzip_seal live_name gz_size io.gzip path t.dir.files h1 h2);
          same = refl;
        })

  -- With a size limit that is not zero: when the live file has reached it and was renamed, at a
  -- time below 2 ^ 128 - 1, but a new one cannot be opened, the rotation fails. From then on
  -- every match is answered as recorded, as long as no call fails and its line can be made, but
  -- none of them reaches a file: the directory stays as it is.
  pub record_all-Loses :
      (io : Answers) (s : MatchArchive) (calls : List Call)
      → io.nanos < u128_max
      → 1 ≤ cfg.max_bytes
      → io.flushes ≡ true
      → ltb (live_len (flushed s).dir.files) cfg.max_bytes ≡ false
      → io.opens_placeholder ≡ true
      → io.renames ≡ true
      → io.reopens ≡ false
      → all works calls ≡ true
      → let r = rotate_live_if_needed gz_size cfg io s in
        (r.0 ≡ false)
        × (all (λ b. b) (record_all calls r.1).0 ≡ true)
        × ((record_all calls r.1).1.dir ≡ r.1.dir)
  unfolding rotate_live_if_needed
  record_all-Loses io s calls n m f due p r o h =
      let failed = rotate-IsFailed io (flushed s) n r o in
      let t = flushed s in
      let same : rotate_live_if_needed gz_size cfg io s
          ≡ (false, without_live failed.dir [] failed.session failed.metrics) =
        ap (λ b. flush_writer b io.flush_torn s then rotate_if_due gz_size cfg io) f
        ∙ ap
            (λ b.
              if b
              then (true, t)
              else if not io.opens_placeholder
              then (false, t)
              else rotate gz_size cfg io t)
            due
        ∙ ap (λ b. if not b then (false, t) else rotate gz_size cfg io t) p
        ∙ failed.same in
      let (answers, dir) =
        record_all-without calls failed.dir [] failed.session failed.metrics m failed.gone h in
      rw same (refl, answers, dir)
