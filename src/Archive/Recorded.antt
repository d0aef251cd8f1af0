-- ===== src/Archive/Recorded.antt =====
-- src/archive.rs: a match that is recorded is a line of the archive, the last one.
use ct_firehose_filter.Prelude.{
  ℕ, take, ◌+◌, ◌*◌, ◌≡◌, ◌⊎◌, ◌≤◌, refl, sym, ap, ap₂, ◌∙◌, subst, Bool, true, false, ◌==◌, Option,
  some, List, [], ◌∷◌, ◌++◌, append-nil, append_assoc, length, ltb, if◌then◌else◌, Bool-cases, inl,
  inr, arith, Str,
}
use ct_firehose_filter.Event.{MatchEvent}
use ct_firehose_filter.Config.{ArchiveConfig}
use ct_firehose_filter.Archive.Event.{MatchArchiveEvent, ConfigProvenance}
use ct_firehose_filter.Archive.Log.{
  lines_of, logged, log_bytes, joined-append, joined-append_piece, append_to-IsLast,
  lines_of-append_to,
}
use ct_firehose_filter.Archive.Writer.{
  Answers, MatchArchive, flushed, rotate_live_if_needed, write_all, count_session, append_line,
  record_enqueued, record_line, put_lines, joined, piece, count_written, line_of, ◌then◌,
}
use ct_firehose_filter.Archive.Rotated.{
  IsOpen, IsClean, Same, flushed_partly-Same, rotate_live_if_needed-Rotated,
}

module _ (gz_size : List (List ℕ) → ℕ) (cfg : ArchiveConfig) where
  -- A step that adds `line` to the log, or fails: then the log is as it was, or a line of 8 KiB or
  -- more was written to the file itself, and the part of it that was written is added.
  pub record Adds (io : Answers) (line : List ℕ) (s : MatchArchive) (r : Bool × MatchArchive)
      : Type 0 where
    pub opened : IsOpen cfg r.1
    pub log :
        (log_bytes r.1 ≡ log_bytes s ++ line)
        ⊎ (((log_bytes r.1 ≡ log_bytes s) × (r.0 ≡ false))
            ⊎ ((log_bytes r.1 ≡ log_bytes s ++ take io.torn line)
                × (r.0 ≡ false)
                × (io.writes ≡ false)
                × (8192 ≤ length line)))

  -- Lines that reach the file at once, when nothing is buffered.
  logged-put_lines :
      (lines : List (List ℕ)) (s : MatchArchive)
      → IsOpen cfg s
      → s.on_live ≡ true
      → s.buffered ≡ []
      → logged (put_lines lines s) ≡ logged s ++ lines
  logged-put_lines lines s o on b = rw on (
      ap₂ ◌++◌ (lines_of-append_to lines s.dir.files o.last) b
      ∙ append-nil _
      ∙ ap (λ l. l ++ lines)
          (sym (append-nil (lines_of s.dir.files)) ∙ ap (λ b. lines_of s.dir.files ++ b) (sym b)))

  put_lines-IsOpen :
      (lines : List (List ℕ)) (s : MatchArchive)
      → IsOpen cfg s
      → s.on_live ≡ true
      → IsOpen cfg (put_lines lines s)
  put_lines-IsOpen lines s o on =
      rw on (record { last = append_to-IsLast lines s.dir.files o.last; writer = inl refl })

  write_all-Adds :
      (io : Answers) (line : List ℕ) (s : MatchArchive)
      → IsOpen cfg s
      → s.on_live ≡ true
      → s.buffered ≡ []
      → Adds io line s (write_all gz_size cfg io line s)
  write_all-Adds io line s o on b = elim (Bool-cases (ltb (length line) 8192)) [
    | inl short ↦ rw short (record {
      opened = record { last = o.last; writer = inl on };
      log = inl (
          ap joined (sym (append_assoc (lines_of s.dir.files) s.buffered (line ∷ [])))
          ∙ joined-append (logged s) (line ∷ [])
          ∙ ap (λ l. log_bytes s ++ l) (append-nil line));
    })
    | inr long ↦ elim (Bool-cases io.writes) [
      | inr fails ↦
          rw (long, fails)
            (record {
              opened = put_lines-IsOpen (piece (take io.torn line)) s o on;
              log = inr (
                  inr (
                    ap joined (logged-put_lines (piece (take io.torn line)) s o on b)
                        ∙ joined-append_piece (logged s) (take io.torn line),
                    refl,
                    refl,
                    ground arith,
                  ));
            })
      | inl writes ↦
          rw (long, writes)
            (record {
              opened = put_lines-IsOpen (line ∷ []) s o on;
              log = inl (
                  ap joined (logged-put_lines (line ∷ []) s o on b)
                  ∙ joined-append (logged s) (line ∷ [])
                  ∙ ap (λ l. log_bytes s ++ l) (append-nil line));
            })
    ]
  ]

  write_all-on_live :
      (io : Answers) (line : List ℕ) (s : MatchArchive)
      → s.on_live ≡ true
      → (write_all gz_size cfg io line s).1.on_live ≡ true
  write_all-on_live io line s on = elim (Bool-cases (ltb (length line) 8192)) [
    | inl short ↦ rw (short, on) refl
    | inr long ↦ elim (Bool-cases io.writes) [
      | inr fails ↦ rw (long, fails, on) refl
      | inl writes ↦ rw (long, writes, on) refl
    ]
  ]

  count_session-Same :
      (io : Answers) (n : ℕ) (s : MatchArchive)
      → IsOpen cfg s
      → s.on_live ≡ true
      → Same cfg s (count_session gz_size cfg io n s).1
  count_session-Same io n s o on = elim (Bool-cases (ltb (s.session + n) (64 * 1024))) [
    | inl few ↦ rw few (record { opened = record { last = o.last; writer = inl on }; log = refl })
    | inr many ↦
        let t = record s { session = s.session + n } in
        let open_t : IsOpen cfg t = record { last = o.last; writer = inl on } in
        elim (Bool-cases io.flushes_again) [
          | inr fails ↦
              let partly = flushed_partly-Same gz_size cfg io.flush_again_torn t open_t in
              rw (many, fails) (record { opened = partly.opened; log = partly.log })
          | inl flushes ↦
              rw (many, flushes, on)
                (record {
                  opened = record {
                    last = append_to-IsLast s.buffered s.dir.files o.last;
                    writer = inl refl;
                  };
                  log = ap joined (append-nil _ ∙ lines_of-append_to s.buffered s.dir.files o.last);
                })
        ]
  ]

  -- A step before one that may add a line, and a step after it.
  then-Adds :
      (io : Answers) (line : List ℕ) (s : MatchArchive) (r : Bool × MatchArchive)
      (f : MatchArchive → Bool × MatchArchive)
      → Same cfg s r.1
      → (r.0 ≡ true → Adds io line r.1 (f r.1))
      → Adds io line s (r then f)
  then-Adds io line s (false, t) f same next = record {
    opened = same.opened;
    log = inr (inl (same.log, refl));
  }
  then-Adds io line s (true, t) f same next =
      let a = next refl in
      record {
        opened = a.opened;
        log = elim a.log [
          | inl added ↦ inl (added ∙ ap (λ l. l ++ line) same.log)
          | inr (inl (kept, refused)) ↦ inr (inl (kept ∙ same.log, refused))
          | inr (inr (torn, refused, fails, long)) ↦
              inr (inr (torn ∙ ap (λ l. l ++ take io.torn line) same.log, refused, fails, long))
        ];
      }

  Adds-then :
      (io : Answers) (line : List ℕ) (s : MatchArchive) (r : Bool × MatchArchive)
      (f : MatchArchive → Bool × MatchArchive)
      → Adds io line s r
      → (r.0 ≡ true → Same cfg r.1 (f r.1).1)
      → Adds io line s (r then f)
  Adds-then io line s (false, t) f a next = a
  Adds-then io line s (true, t) f a next =
      let same = next refl in
      record {
        opened = same.opened;
        log = elim a.log [
          | inl added ↦ inl (same.log ∙ added)
          | inr (inl (kept, refused)) ↦ absurd cc
          | inr (inr (torn, refused, fails, long)) ↦ absurd cc
        ];
      }

  then-on_live :
      (r : Bool × MatchArchive) (f : MatchArchive → Bool × MatchArchive)
      → (r.0 ≡ true → (f r.1).1.on_live ≡ true)
      → (r then f).0 ≡ true
      → (r then f).1.on_live ≡ true
  then-on_live (false, t) f next h = absurd cc
  then-on_live (true, t) f next h = next refl

  append_line-Adds :
      (io : Answers) (line : List ℕ) (s : MatchArchive)
      → IsOpen cfg s
      → IsClean io (flushed s).dir.files
      → (cfg.max_total_bytes == 0) ≡ true
      → Adds io line s (append_line gz_size cfg io line s)
  append_line-Adds io line s o c off =
      let r = rotate_live_if_needed gz_size cfg io s in
      let w = write_all gz_size cfg io line in
      let rotated = rotate_live_if_needed-Rotated gz_size cfg io s o c off in
      let written = then-Adds io line s r w rotated.same (λ h.
        let (on, b) = rotated.ready h in write_all-Adds io line r.1 rotated.same.opened on b) in
      let counted =
        Adds-then io line s (r then w) (count_session gz_size cfg io (length line)) written (λ h.
          count_session-Same io (length line) (r then w).1 written.opened
            (then-on_live r w (λ k. write_all-on_live io line r.1 (rotated.ready k).0) h)) in
      Adds-then io line s _ (λ s. (true, count_written gz_size cfg io (length line) s)) counted
        (λ _. record {
          opened = record { last = counted.opened.last; writer = counted.opened.writer };
          log = refl;
        })

  -- For an archive without a budget that is fit for a match, at a time below 2 ^ 128 - 1 whose
  -- names are free, when the compression does not leave two copies, the live file can be opened
  -- again and the line can be made: a match that is answered as recorded is one line at the end of
  -- the log, which the texts of the files and of the writer's buffer make up in their order, with
  -- all of the log before it. A match that is refused is such a line too, or the log is as it was,
  -- or a line of 8 KiB or more whose write to the file failed has left its first part at the end.
  -- The archive stays fit for the next match, whichever other calls fail, and however much a failed
  -- flush has written.
  pub record_enqueued-Records :
      (io : Answers) (to_vec : MatchArchiveEvent → Option (List ℕ)) (prov : ConfigProvenance)
      (ev : MatchEvent) (all_domains : List Str) (s : MatchArchive) (json : List ℕ)
      → IsOpen cfg s
      → IsClean io (flushed s).dir.files
      → (cfg.max_total_bytes == 0) ≡ true
      → line_of gz_size cfg io to_vec prov ev all_domains ≡ some json
      → Adds io
          (json ++ (b'\n' ∷ []))
          s
          (record_enqueued gz_size cfg io to_vec prov ev all_domains s)
  unfolding record_enqueued
  record_enqueued-Records io to_vec prov ev all_domains s json o c off e =
      subst (λ line. Adds io (json ++ (b'\n' ∷ [])) s (record_line gz_size cfg io line s)) (sym e)
        (append_line-Adds io (json ++ (b'\n' ∷ [])) s o c off)
