-- ===== src/Archive/Resealed.antt =====
-- src/archive.rs: the live file sealed and a new one opened leave the lines as they are.
use ct_firehose_filter.Prelude.{
  ℕ, ◌≡◌, refl, sym, ap, ap₂, ◌∙◌, subst, Bool, true, false, ◌||◌, List, [], ◌∷◌, ◌++◌, append-nil,
  any, any-append, length, length-append, if◌then◌else◌, arith, Bool-cases, inl, inr, Str, str_eq,
  str_eq_iff,
}
use ct_firehose_filter.Chunks.{File, remove, gz}
use ct_firehose_filter.Archive.Files.{live_name, is_live}
use ct_firehose_filter.Chunks.Seal.{
  GzipAnswer, compresses, no_output, breaks_off, not_removed, makes_output, put_sealed, sealed_as,
  gzip_seal, exists, rename,
}
use ct_firehose_filter.Chunks.Gone.{none-sealed_as}
use ct_firehose_filter.Archive.Log.{
  lines_of, lines_of-append, IsLast, rename-live, moved, put_sealed-before, remove-none,
}
use ct_firehose_filter.Archive.Writer.{open_live, empty_live, ◌then◌}

unfoldable pub leaves_both : GzipAnswer → Bool
leaves_both compresses = false
leaves_both no_output = false
leaves_both (breaks_off n) = false
leaves_both not_removed = true

lines_of-sealed_as :
    (gz_size : List (List ℕ) → ℕ) (answer : GzipAnswer) (f : File)
    → leaves_both answer ≡ false
    → lines_of (sealed_as gz_size answer f) ≡ f.lines
unfolding leaves_both
lines_of-sealed_as gz_size compresses f h = append-nil f.lines
lines_of-sealed_as gz_size no_output f h = append-nil f.lines
lines_of-sealed_as gz_size (breaks_off n) f h = append-nil f.lines
lines_of-sealed_as gz_size not_removed f h = absurd cc

gz_name-ne : (path : Str) → str_eq path (path ++ gz) ≡ false
gz_name-ne path = elim (Bool-cases (str_eq path (path ++ gz))) [
  | inl same ↦
      let e : length path ≡ length (path ++ gz) =
        ap length ((str_eq_iff path (path ++ gz)).0 same) in
      absurd (omega (arith, e, length-append path gz))
  | inr other ↦ other
]

open_live-none :
    (files : List File)
    → exists live_name files ≡ false
    → open_live files ≡ files ++ (empty_live ∷ [])
open_live-none files h = rw h refl

module _ (gz_size : List (List ℕ) → ℕ) (answer : GzipAnswer) (path : Str) (files : List File)
    (l : IsLast files) (fresh : exists path files ≡ false)
    (fresh_gz : exists (path ++ gz) files ≡ false) where
  before-fresh : (name : Str) → exists name files ≡ false → exists name l.before ≡ false
  before-fresh name h =
      let both : (exists name l.before || exists name (l.current ∷ [])) ≡ false =
        sym (any-append (λ f. str_eq f.name name) l.before (l.current ∷ []))
        ∙ ap (exists name) (sym l.parts)
        ∙ h in
      ground arith

  seal-live :
      gzip_seal gz_size answer path (rename live_name path files)
      ≡ l.before ++ sealed_as gz_size answer (moved path l.current)
  unfolding gzip_seal
  seal-live =
      let renamed_files = l.before ++ (moved path l.current ∷ []) in
      let free : exists (path ++ gz) renamed_files ≡ false =
        any-append (λ f. str_eq f.name (path ++ gz)) l.before (moved path l.current ∷ [])
        ∙ ap₂ ◌||◌ (before-fresh (path ++ gz) fresh_gz) (ap (λ b. b || false) (gz_name-ne path)) in
      let kept : (if makes_output answer then remove (path ++ gz) renamed_files else renamed_files)
          ≡ renamed_files =
        elim (Bool-cases (makes_output answer)) [
          | inl makes ↦ rw makes (remove-none (path ++ gz) renamed_files free)
          | inr nothing ↦ rw nothing refl
        ] in
      ap (gzip_seal gz_size answer path) (rename-live path files l fresh)
      ∙ ap (put_sealed gz_size answer path) kept
      ∙ put_sealed-before gz_size answer path l.before l.current (before-fresh path fresh)

  sealed_files : List File
  sealed_files = l.before ++ sealed_as gz_size answer (moved path l.current)

  sealed_files-none :
      is_live path ≡ false
      → is_live (path ++ gz) ≡ false
      → any (λ f. is_live f.name) sealed_files ≡ false
  unfolding sealed_files
  sealed_files-none h g =
      any-append (λ f. is_live f.name) l.before _
      ∙ ap₂ ◌||◌ l.none (none-sealed_as live_name gz_size answer (moved path l.current) h g)

  lines_of-sealed_files : leaves_both answer ≡ false → lines_of sealed_files ≡ lines_of files
  unfolding sealed_files
  lines_of-sealed_files h =
      lines_of-append l.before _
      ∙ ap (λ t. lines_of l.before ++ t)
          (lines_of-sealed_as gz_size answer (moved path l.current) h
            ∙ sym (append-nil l.current.lines))
      ∙ sym (lines_of-append l.before (l.current ∷ []))
      ∙ ap lines_of (sym l.parts)

  pub record IsResealed (t : List File) : Type 0 where
    pub last : IsLast (open_live t)
    pub lines : lines_of (open_live t) ≡ lines_of files

  pub reseal :
      is_live path ≡ false
      → is_live (path ++ gz) ≡ false
      → leaves_both answer ≡ false
      → IsResealed (gzip_seal gz_size answer path (rename live_name path files))
  unfolding sealed_files
  reseal h g b =
      let opens = open_live-none sealed_files (sealed_files-none h g) in
      let last : IsLast (sealed_files ++ (empty_live ∷ [])) = record {
        before = sealed_files;
        current = empty_live;
        parts = refl;
        none = sealed_files-none h g;
        live = refl;
      } in
      subst IsResealed (sym seal-live) (record {
        last = subst IsLast (sym opens) last;
        lines =
            ap lines_of opens
            ∙ lines_of-append sealed_files (empty_live ∷ [])
            ∙ append-nil (lines_of sealed_files)
            ∙ lines_of-sealed_files b;
      })
