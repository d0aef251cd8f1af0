-- ===== src/Chunks/Seal.antt =====
-- src/archive.rs and src/alerts_file.rs: `gzip_seal`, and the calls of the file system around it.
use ct_firehose_filter.Prelude.{
  ℕ, ◌+◌, Bool, true, false, List, [], ◌∷◌, ◌++◌, any, map, if◌then◌else◌, Str, str_eq,
}
use ct_firehose_filter.Chunks.{File, remove, gz, rotated_name}

-- How `gzip_seal` ends: with the compressed file in place of the other; before there is one; with a
-- part of it, of some size; with both files.
pub data GzipAnswer : Type 0 where
  compresses no_output : GzipAnswer
  breaks_off : ℕ → GzipAnswer
  not_removed : GzipAnswer

-- The compressed file of `f`, whose size the compression gives.
abbrev compressed : (List (List ℕ) → ℕ) → File → File
compressed gz_size f = record { name = f.name ++ gz; lines = f.lines; size = gz_size f.lines }

-- What stands in the place of `f`.
abbrev pub sealed_as : (List (List ℕ) → ℕ) → GzipAnswer → File → List File
sealed_as gz_size compresses f = compressed gz_size f ∷ []
sealed_as gz_size no_output f = f ∷ []
sealed_as gz_size (breaks_off n) f = f ∷ record { name = f.name ++ gz; lines = []; size = n } ∷ []
sealed_as gz_size not_removed f = f ∷ compressed gz_size f ∷ []

abbrev pub makes_output : GzipAnswer → Bool
makes_output compresses = true
makes_output no_output = false
makes_output (breaks_off n) = true
makes_output not_removed = true

abbrev pub put_sealed : (List (List ℕ) → ℕ) → GzipAnswer → Str → List File → List File
put_sealed gz_size answer path [] = []
put_sealed gz_size answer path (f ∷ files) =
    let later = put_sealed gz_size answer path files in
    if str_eq f.name path then sealed_as gz_size answer f ++ later else f ∷ later

-- `File::create` overwrites an older file of the output's name.
unfoldable pub gzip_seal : (List (List ℕ) → ℕ) → GzipAnswer → Str → List File → List File
gzip_seal gz_size answer path files =
    put_sealed gz_size answer path
      (if makes_output answer then remove (path ++ gz) files else files)

abbrev pub exists : Str → List File → Bool
exists name files = any (λ f. str_eq f.name name) files

abbrev pub renamed : Str → Str → File → File
renamed from to f = if str_eq f.name from then record f { name = to } else f

-- `fs::rename`, which overwrites a file of the new name.
unfoldable pub rename : Str → Str → List File → List File
rename from to files = map (renamed from to) (remove to files)

-- The name of a new chunk; the next time is taken if there is one of that name.
abbrev pub free_name : Str → ℕ → List File → Str
free_name name ts files =
    if exists (rotated_name name ts) files then rotated_name name (ts + 1) else rotated_name name ts
