-- ===== src/Chunks/Gone.antt =====
-- src/archive.rs and src/alerts_file.rs: a file that was sealed is gone under its name.
use ct_firehose_filter.Prelude.{
  ℕ, ◌+◌, ◌<◌, ◌≡◌, refl, sym, ap, ap₂, ◌∙◌, Bool, true, false, not, ◌&&◌, ◌||◌, some, List, [],
  ◌∷◌, ◌++◌, append-nil, any, any-append, filter, map, arith, Bool-cases, inl, inr, Str, str_eq,
  str_eq_iff, strip_prefix,
}
use ct_firehose_filter.Chunks.{
  File, remove, rotated_name, is_rotated_sibling, prune_oldest, delete, gz, u128_max,
}
use ct_firehose_filter.Chunks.Names.{rotated_name-roundtrip, strip_prefix-append}
use ct_firehose_filter.Chunks.Seal.{
  GzipAnswer, compresses, no_output, breaks_off, not_removed, makes_output, put_sealed, sealed_as,
  gzip_seal, renamed, exists, rename, free_name,
}

module _ (q : File → Bool) where
  none-filter :
      (p : File → Bool) (files : List File) → any q files ≡ false → any q (filter p files) ≡ false
  none-filter p [] h = refl
  none-filter p (f ∷ files) h = ground (arith, none-filter p files)

  pub none-prune :
      (total : List File → ℕ) (most : ℕ) (keeps deletes : Str → Bool) (siblings : List Str)
      (files : List File)
      → any q files ≡ false
      → any q (prune_oldest total most keeps deletes siblings files) ≡ false
  unfolding prune_oldest
  none-prune total most keeps deletes [] files h = h
  none-prune total most keeps deletes (old ∷ rest) files h =
      let deleted : any q (delete total most keeps deletes old files) ≡ false =
        elim (Bool-cases (not (keeps old) && deletes old)) [
          | inl goes ↦ rw goes (none-filter (λ f. not (str_eq f.name old)) files h)
          | inr stays ↦ rw stays h
        ] in
      let later = none-prune total most keeps deletes rest _ deleted in ground arith

-- A file is no rotated sibling of itself.
self-not_sibling : (name : Str) → is_rotated_sibling name name ≡ false
unfolding is_rotated_sibling strip_prefix
self-not_sibling name =
    let whole : strip_prefix name name ≡ some [] =
      ap (strip_prefix name) (sym (append-nil name)) ∙ strip_prefix-append name [] in
    rw whole refl

module _ (live : Str) where
  sibling-ne : (name : Str) → is_rotated_sibling live name ≡ true → str_eq name live ≡ false
  sibling-ne name h = elim (Bool-cases (str_eq name live)) [
    | inl same ↦
        let itself : is_rotated_sibling live name ≡ false =
          ap (is_rotated_sibling live) ((str_eq_iff name live).0 same) ∙ self-not_sibling live in
        absurd cc
    | inr other ↦ other
  ]

  -- The names that a file is sealed under are not its own.
  pub free_name-ne :
      (ts : ℕ) (files : List File)
      → ts < u128_max
      → (str_eq (free_name live ts files) live ≡ false)
        × (str_eq (free_name live ts files ++ gz) live ≡ false)
  free_name-ne ts files h = elim (Bool-cases (exists (rotated_name live ts) files)) [
    | inl taken ↦
        let names = rotated_name-roundtrip live (ts + 1) (omega (arith, h)) in
        rw taken (sibling-ne _ names.0, sibling-ne _ names.2)
    | inr free ↦
        let names = rotated_name-roundtrip live ts (omega (arith, h)) in
        rw free (sibling-ne _ names.0, sibling-ne _ names.2)
  ]

  none-renamed :
      (path : Str) (files : List File)
      → str_eq path live ≡ false
      → any (λ f. str_eq f.name live) (map (renamed live path) files) ≡ false
  none-renamed path [] h = refl
  none-renamed path (f ∷ files) h = elim (Bool-cases (str_eq f.name live)) [
    | inl same ↦ rw (same, h) (none-renamed path files h)
    | inr other ↦ rw (other, other) (none-renamed path files h)
  ]

  pub none-sealed_as :
      (gz_size : List (List ℕ) → ℕ) (answer : GzipAnswer) (f : File)
      → str_eq f.name live ≡ false
      → str_eq (f.name ++ gz) live ≡ false
      → any (λ f. str_eq f.name live) (sealed_as gz_size answer f) ≡ false
  none-sealed_as gz_size compresses f h g = rw g refl
  none-sealed_as gz_size no_output f h g = rw h refl
  none-sealed_as gz_size (breaks_off n) f h g = rw (h, g) refl
  none-sealed_as gz_size not_removed f h g = rw (h, g) refl

  none-put_sealed :
      (gz_size : List (List ℕ) → ℕ) (answer : GzipAnswer) (path : Str) (files : List File)
      → str_eq (path ++ gz) live ≡ false
      → any (λ f. str_eq f.name live) files ≡ false
      → any (λ f. str_eq f.name live) (put_sealed gz_size answer path files) ≡ false
  none-put_sealed gz_size answer path [] g h = refl
  none-put_sealed gz_size answer path (f ∷ files) g h = elim (Bool-cases (str_eq f.name path)) [
    | inl same ↦
        let out : str_eq (f.name ++ gz) live ≡ false =
          ap (λ n. str_eq (n ++ gz) live) ((str_eq_iff f.name path).0 same) ∙ g in
        let one = none-sealed_as gz_size answer f (ground arith) out in
        let later = none-put_sealed gz_size answer path files g (ground arith) in
        rw same
          (any-append (λ f. str_eq f.name live) (sealed_as gz_size answer f) _ ∙ ap₂ ◌||◌ one later)
    | inr other ↦ rw other (ground (arith, none-put_sealed gz_size answer path files g))
  ]

  -- No live file is left when it was renamed, however the compression ends.
  pub none-gzip_seal :
      (gz_size : List (List ℕ) → ℕ) (answer : GzipAnswer) (path : Str) (files : List File)
      → str_eq path live ≡ false
      → str_eq (path ++ gz) live ≡ false
      → exists live (gzip_seal gz_size answer path (rename live path files)) ≡ false
  unfolding gzip_seal rename
  none-gzip_seal gz_size answer path files h g =
      let renamed_files = map (renamed live path) (remove path files) in
      let start = none-renamed path (remove path files) h in
      elim (Bool-cases (makes_output answer)) [
        | inl makes ↦ rw makes (
            none-put_sealed gz_size answer path _ g (
              none-filter (λ f. str_eq f.name live) (λ f. not (str_eq f.name (path ++ gz)))
                renamed_files start))
        | inr nothing ↦ rw nothing (none-put_sealed gz_size answer path renamed_files g start)
      ]
