-- ===== src/Archive/Writer.antt =====
-- src/archive.rs: `MatchArchive`. How the calls of the file system end is an input, and so are the
-- clock, the JSON of a line (crate `serde_json`) and the size of a compressed file (crate `flate2`).
-- A flush or a write that fails may have written a first part, which then stands in the file as a
-- piece of a line. No other thread holds a lock when it panics.
use ct_firehose_filter.Prelude.{
  ℕ, ◌+◌, ◌*◌, Bool, true, false, not, Option, none, some, List, [], ◌∷◌, ◌++◌, map, take, drop,
  length, ltb, if◌then◌else◌, Str,
}
use ct_firehose_filter.Event.{MatchEvent}
use ct_firehose_filter.Metrics.{PipelineMetrics, fetch_add}
use ct_firehose_filter.Config.{ArchiveConfig}
use ct_firehose_filter.Chunks.{File}
use ct_firehose_filter.Archive.Event.{
  MatchArchiveEvent, ConfigProvenance, from_match, compact_all_domains,
}
use ct_firehose_filter.Archive.Files.{Dir, live_name, is_live, prune_sealed_to_budget}
use ct_firehose_filter.Chunks.Seal.{GzipAnswer, gzip_seal, free_name, exists, rename}

-- How the calls end that one operation makes. `secs` and `nanos` are the clock's, and the
-- number of bytes that reach the file, when a flush or a write fails, is one of the `torn`.
pub record Answers : Type 0 where
  pub secs : Option ℕ
  pub nanos : ℕ
  pub flushes : Bool
  pub flush_torn : ℕ
  pub opens_placeholder : Bool
  pub renames : Bool
  pub gzip : GzipAnswer
  pub lists : Bool
  pub deletes : Str → Bool
  pub reopens : Bool
  pub writes : Bool
  pub torn : ℕ
  pub flushes_again : Bool
  pub flush_again_torn : ℕ

-- The writer appends to the live file, or else to one that is deleted already: the placeholder.
pub record MatchArchive : Type 0 where
  pub dir : Dir
  pub on_live : Bool
  pub buffered : List (List ℕ)
  pub session : ℕ
  pub metrics : Option PipelineMetrics

abbrev pub bytes_of : List (List ℕ) → ℕ
bytes_of [] = 0
bytes_of (line ∷ lines) = length line + bytes_of lines

abbrev pub append_to : List (List ℕ) → File → File
append_to lines f =
    if is_live f.name
    then record f { lines = f.lines ++ lines; size = f.size + bytes_of lines }
    else f

-- Lines reach the file that the writer has open.
abbrev pub put_lines : List (List ℕ) → MatchArchive → MatchArchive
put_lines lines s =
    if s.on_live
    then record s { dir = record s.dir { files = map (append_to lines) s.dir.files } }
    else s

-- The bytes of lines, one after the other.
abbrev pub joined : List (List ℕ) → List ℕ
joined [] = []
joined (line ∷ lines) = line ++ joined lines

-- A part of a text, as a piece in place of its lines.
abbrev pub piece : List ℕ → List (List ℕ)
piece [] = []
piece (b ∷ bytes) = (b ∷ bytes) ∷ []

-- After a flush that fails, the buffer holds what was not written.
abbrev pub flushed_partly : ℕ → MatchArchive → MatchArchive
flushed_partly n s = record (put_lines (piece (take n (joined s.buffered))) s) {
  buffered = piece (drop n (joined s.buffered));
}

abbrev pub flushed : MatchArchive → MatchArchive
flushed s = record (put_lines s.buffered s) { buffered = [] }

-- `BufWriter::flush`
abbrev pub flush_writer : Bool → ℕ → MatchArchive → Bool × MatchArchive
flush_writer answer n s = if answer then (true, flushed s) else (false, flushed_partly n s)

abbrev pub live_len : List File → ℕ
live_len [] = 0
live_len (f ∷ files) = if is_live f.name then f.size else live_len files

abbrev pub rotated_path : ℕ → List File → Str
rotated_path ts files = free_name live_name ts files

abbrev pub empty_live : File
empty_live = record { name = live_name; lines = []; size = 0 }

-- Opens the live file, which is made if there is none.
abbrev pub open_live : List File → List File
open_live files = if exists live_name files then files else files ++ (empty_live ∷ [])

abbrev with_files : List File → MatchArchive → MatchArchive
with_files files s = record s { dir = record s.dir { files = files } }

infixl 10 ◌then◌
abbrev pub ◌then◌ : Bool × MatchArchive → (MatchArchive → Bool × MatchArchive) → Bool × MatchArchive
◌then◌ r f = let later = f r.1 in if r.0 then later else (false, r.1)

module _ (gz_size : List (List ℕ) → ℕ) (cfg : ArchiveConfig) (io : Answers) where
  -- The live file is renamed, compressed, and the archive pruned.
  abbrev pub sealed : MatchArchive → MatchArchive
  sealed s =
      let path = rotated_path io.nanos s.dir.files in
      let files = gzip_seal gz_size io.gzip path (rename live_name path s.dir.files) in
      record s {
        dir = prune_sealed_to_budget cfg io.lists io.deletes (record s.dir { files = files });
      }

  abbrev pub reopened : MatchArchive → MatchArchive
  reopened s = record (with_files (open_live s.dir.files) s) { on_live = true; buffered = [] }

  -- From the placeholder on, which is the writer's file until the live one is open again.
  abbrev pub rotate : MatchArchive → Bool × MatchArchive
  rotate s =
      let held = record s { on_live = false; buffered = [] } in
      if not io.renames
      then (false, held)
      else if not io.reopens
      then (false, sealed held)
      else (true, reopened (sealed held))

  abbrev pub rotate_if_due : MatchArchive → Bool × MatchArchive
  rotate_if_due s =
      if ltb (live_len s.dir.files) cfg.max_bytes
      then (true, s)
      else if not io.opens_placeholder
      then (false, s)
      else rotate s

  unfoldable pub rotate_live_if_needed : MatchArchive → Bool × MatchArchive
  unfolding gzip_seal rename prune_sealed_to_budget
  rotate_live_if_needed s = flush_writer io.flushes io.flush_torn s then rotate_if_due

  -- `write_all` on an empty buffer, of 8 KiB: a longer line goes to the file at once.
  abbrev pub write_all : List ℕ → MatchArchive → Bool × MatchArchive
  write_all line s =
      if ltb (length line) 8192
      then (true, record s { buffered = s.buffered ++ (line ∷ []) })
      else if io.writes
      then (true, put_lines (line ∷ []) s)
      else (false, put_lines (piece (take io.torn line)) s)

  abbrev pub count_session : ℕ → MatchArchive → Bool × MatchArchive
  count_session n s =
      let t = record s { session = s.session + n } in
      if ltb t.session (64 * 1024)
      then (true, t)
      else if io.flushes_again
      then (true, record (flushed t) { session = 0 })
      else (false, flushed_partly io.flush_again_torn t)

  abbrev counted : ℕ → Option PipelineMetrics → Option PipelineMetrics
  counted n none = none
  counted n (some m) = some (record m {
    archive_events_written = fetch_add m.archive_events_written 1;
    archive_bytes_written = fetch_add m.archive_bytes_written n;
  })

  abbrev pub count_written : ℕ → MatchArchive → MatchArchive
  count_written n s = record s { metrics = counted n s.metrics }

  abbrev pub append_line : List ℕ → MatchArchive → Bool × MatchArchive
  append_line line s =
      rotate_live_if_needed s then write_all line then count_session (length line) then λ s.
      (true, count_written (length line) s)

  abbrev pub record_line : Option (List ℕ) → MatchArchive → Bool × MatchArchive
  record_line none s = (false, s)
  record_line (some json) s = append_line (json ++ (b'\n' ∷ [])) s

  abbrev pub line_of :
      (MatchArchiveEvent → Option (List ℕ))
      → ConfigProvenance
      → MatchEvent
      → List Str
      → Option (List ℕ)
  line_of to_vec prov ev all_domains =
      let (domains, truncated) =
        compact_all_domains all_domains ev.matched_domains cfg.max_all_domains in
      to_vec (from_match io.secs ev domains truncated prov)

  -- Whether the match is recorded, and the archive then.
  unfoldable pub record_enqueued :
      (MatchArchiveEvent → Option (List ℕ))
      → ConfigProvenance
      → MatchEvent
      → List Str
      → MatchArchive
      → Bool × MatchArchive
  unfolding rotate_live_if_needed compact_all_domains
  record_enqueued to_vec prov ev all_domains s = record_line (line_of to_vec prov ev all_domains) s

-- `MatchArchive::open`, of a directory that is there, once its file is open.
unfoldable pub open_archive : ArchiveConfig → Answers → Option PipelineMetrics → Dir → MatchArchive
unfolding prune_sealed_to_budget
open_archive cfg io metrics d = record {
  dir = prune_sealed_to_budget cfg io.lists io.deletes (record d { files = open_live d.files });
  on_live = true;
  buffered = [];
  session = 0;
  metrics = metrics;
}
