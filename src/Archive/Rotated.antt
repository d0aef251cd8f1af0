-- ===== src/Archive/Rotated.antt =====
-- src/archive.rs: a rotation leaves the log as it is, and a writer that is ready.
use ct_firehose_filter.Prelude.{
  ℕ, take, drop, [], ◌<◌, ◌≡◌, ◌⊎◌, refl, sym, ap, ap₂, ◌∙◌, subst, Bool, true, false, ◌==◌, List,
  ◌++◌, append-nil, ltb, if◌then◌else◌, Bool-cases, inl, inr,
}
use ct_firehose_filter.Config.{ArchiveConfig}
use ct_firehose_filter.Chunks.{File, gz, u128_max}
use ct_firehose_filter.Archive.Files.{prune_sealed_to_budget}
use ct_firehose_filter.Chunks.Seal.{exists}
use ct_firehose_filter.Chunks.Gone.{free_name-ne}
use ct_firehose_filter.Archive.Log.{
  lines_of, log_bytes, joined-split, piece-drop-nil, IsLast, append_to-IsLast, lines_of-append_to,
}
use ct_firehose_filter.Archive.Files.{live_name}
use ct_firehose_filter.Archive.Writer.{
  Answers, MatchArchive, live_len, rotated_path, flushed, flushed_partly, joined, piece,
  flush_writer, sealed, reopened, rotate_if_due, rotate_live_if_needed, ◌then◌,
}
use ct_firehose_filter.Archive.Resealed.{leaves_both, reseal}

-- What the archive keeps to between two calls: its writer is on the live file, or a rotation is due.
pub record IsOpen (cfg : ArchiveConfig) (s : MatchArchive) : Type 0 where
  pub last : IsLast s.dir.files
  pub writer :
      (s.on_live ≡ true) ⊎ ((s.buffered ≡ []) × (ltb (live_len s.dir.files) cfg.max_bytes ≡ false))

-- A step that leaves the log as it is.
pub record Same (cfg : ArchiveConfig) (s t : MatchArchive) : Type 0 where
  pub opened : IsOpen cfg t
  pub log : log_bytes t ≡ log_bytes s

-- A rotation, after which the writer is ready if it succeeds.
pub record Rotated (cfg : ArchiveConfig) (s : MatchArchive) (r : Bool × MatchArchive) : Type 0 where
  pub same : Same cfg s r.1
  pub ready : r.0 ≡ true → (r.1.on_live ≡ true) × (r.1.buffered ≡ [])

-- The names that a rotation gives are free, its compression does not leave two copies, and the live
-- file can be opened again.
pub record IsClean (io : Answers) (files : List File) : Type 0 where
  pub time : io.nanos < u128_max
  pub free : exists (rotated_path io.nanos files) files ≡ false
  pub free_gz : exists (rotated_path io.nanos files ++ gz) files ≡ false
  pub one_copy : leaves_both io.gzip ≡ false
  pub opens : io.reopens ≡ true

module _ (gz_size : List (List ℕ) → ℕ) (cfg : ArchiveConfig) where
  flushed-Same : (s : MatchArchive) → IsOpen cfg s → Same cfg s (flushed s)
  flushed-Same s o = elim (Bool-cases s.on_live) [
    | inl on ↦ rw on (record {
      opened = record { last = append_to-IsLast s.buffered s.dir.files o.last; writer = inl refl };
      log = ap joined (append-nil _ ∙ lines_of-append_to s.buffered s.dir.files o.last);
    })
    | inr off ↦ elim o.writer [
      | inl on ↦ absurd cc
      | inr (nothing, due) ↦ rw off (record {
        opened = record { last = o.last; writer = inr (refl, due) };
        log = ap (λ b. joined (lines_of s.dir.files ++ b)) (sym nothing);
      })
    ]
  ]

  -- A flush that fails moves a part of the buffer to the file.
  pub flushed_partly-Same :
      (n : ℕ) (s : MatchArchive) → IsOpen cfg s → Same cfg s (flushed_partly n s)
  flushed_partly-Same n s o = elim (Bool-cases s.on_live) [
    | inl on ↦
        let moved = piece (take n (joined s.buffered)) in
        rw on (record {
          opened = record { last = append_to-IsLast moved s.dir.files o.last; writer = inl refl };
          log =
              ap (λ l. joined (l ++ piece (drop n (joined s.buffered))))
                (lines_of-append_to moved s.dir.files o.last)
              ∙ joined-split (lines_of s.dir.files) s.buffered n;
        })
    | inr off ↦ elim o.writer [
      | inl on ↦ absurd cc
      | inr (nothing, due) ↦
          let rest : piece (drop n (joined s.buffered)) ≡ [] =
            ap (λ b. piece (drop n (joined b))) nothing ∙ piece-drop-nil n in
          rw off (record {
            opened = record { last = o.last; writer = inr (rest, due) };
            log = ap (λ b. joined (lines_of s.dir.files ++ b)) (rest ∙ sym nothing);
          })
    ]
  ]

  reopened-Same :
      (io : Answers) (t : MatchArchive)
      → t.buffered ≡ []
      → IsOpen cfg t
      → IsClean io t.dir.files
      → (cfg.max_total_bytes == 0) ≡ true
      → Same cfg t (
          reopened gz_size cfg io
            (sealed gz_size cfg io (record t { on_live = false; buffered = [] })))
  unfolding prune_sealed_to_budget
  reopened-Same io t b o c off =
      let path = rotated_path io.nanos t.dir.files in
      let (h, g) = free_name-ne live_name io.nanos t.dir.files c.time in
      let again = reseal gz_size io.gzip path t.dir.files o.last c.free c.free_gz h g c.one_copy in
      rw off (record {
        opened = record { last = again.last; writer = inl refl };
        log = ap joined (ap₂ ◌++◌ again.lines (sym b));
      })

  rotate_if_due-Rotated :
      (io : Answers) (t : MatchArchive)
      → t.buffered ≡ []
      → IsOpen cfg t
      → IsClean io t.dir.files
      → (cfg.max_total_bytes == 0) ≡ true
      → Rotated cfg t (rotate_if_due gz_size cfg io t)
  rotate_if_due-Rotated io t b o c off =
      elim (Bool-cases (ltb (live_len t.dir.files) cfg.max_bytes)) [
        | inl short ↦ rw short (record {
          same = record { opened = o; log = refl };
          ready = λ _. (elim o.writer [ inl on ↦ on | inr (nothing, due) ↦ absurd cc ], b);
        })
        | inr due ↦ elim (Bool-cases io.opens_placeholder) [
          | inr fails ↦
              rw (due, fails)
                (record { same = record { opened = o; log = refl }; ready = λ h. absurd cc })
          | inl opens ↦ elim (Bool-cases io.renames) [
            | inr fails ↦
                rw (due, opens, fails)
                  (record {
                    same = record {
                      opened = record { last = o.last; writer = inr (refl, due) };
                      log = ap (λ l. joined (lines_of t.dir.files ++ l)) (sym b);
                    };
                    ready = λ h. absurd cc;
                  })
            | inl renames ↦
                rw (due, opens, renames, c.opens)
                  (record { same = reopened-Same io t b o c off; ready = λ _. (refl, refl) })
          ]
        ]
      ]

  pub rotate_live_if_needed-Rotated :
      (io : Answers) (s : MatchArchive)
      → IsOpen cfg s
      → IsClean io (flushed s).dir.files
      → (cfg.max_total_bytes == 0) ≡ true
      → Rotated cfg s (rotate_live_if_needed gz_size cfg io s)
  unfolding rotate_live_if_needed
  rotate_live_if_needed-Rotated io s o c off = elim (Bool-cases io.flushes) [
    | inr fails ↦
        subst (Rotated cfg s)
          (ap (λ b. flush_writer b io.flush_torn s then rotate_if_due gz_size cfg io) (sym fails))
          (record { same = flushed_partly-Same io.flush_torn s o; ready = λ h. absurd cc })
    | inl flushes ↦
        let f = flushed-Same s o in
        let r = rotate_if_due-Rotated io (flushed s) refl f.opened c off in
        subst (Rotated cfg s)
          (ap (λ b. flush_writer b io.flush_torn s then rotate_if_due gz_size cfg io) (sym flushes))
          (record {
            same = record { opened = r.same.opened; log = r.same.log ∙ f.log };
            ready = r.ready;
          })
  ]
