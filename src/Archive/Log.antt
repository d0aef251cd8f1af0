-- ===== src/Archive/Log.antt =====
-- src/archive.rs: the files of the archive, the live one last, are a log of the lines. Nothing is
-- pruned here.
use ct_firehose_filter.Prelude.{
  ℕ, zero, suc, take, drop, take-append-drop, ◌+◌, ◌≡◌, refl, sym, ap, ap₂, ◌∙◌, true, false, List,
  [], ◌∷◌, ◌++◌, append-nil, append_assoc, any, map, map-append, if◌then◌else◌, arith, Str, str_eq,
  str_eq_refl,
}
use ct_firehose_filter.Chunks.{File, remove}
use ct_firehose_filter.Archive.Files.{live_name, is_live}
use ct_firehose_filter.Chunks.Seal.{GzipAnswer, put_sealed, sealed_as, renamed, exists, rename}
use ct_firehose_filter.Archive.Writer.{MatchArchive, joined, piece, append_to, bytes_of, live_len}

-- The lines of the files, in the files' order.
abbrev pub lines_of : List File → List (List ℕ)
lines_of [] = []
lines_of (f ∷ files) = f.lines ++ lines_of files

abbrev pub logged : MatchArchive → List (List ℕ)
logged s = lines_of s.dir.files ++ s.buffered

-- The log as one text.
abbrev pub log_bytes : MatchArchive → List ℕ
log_bytes s = joined (logged s)

pub joined-append : (a b : List (List ℕ)) → joined (a ++ b) ≡ joined a ++ joined b
joined-append [] b = refl
joined-append (line ∷ a) b =
    ap (λ l. line ++ l) (joined-append a b) ∙ sym (append_assoc line (joined a) (joined b))

joined-piece : (bytes : List ℕ) → joined (piece bytes) ≡ bytes
joined-piece [] = refl
joined-piece (b ∷ bytes) = append-nil (b ∷ bytes)

pub joined-append_piece :
    (a : List (List ℕ)) (bytes : List ℕ) → joined (a ++ piece bytes) ≡ joined a ++ bytes
joined-append_piece a bytes =
    joined-append a (piece bytes) ∙ ap (λ l. joined a ++ l) (joined-piece bytes)

pub piece-drop-nil : (n : ℕ) → piece (drop n []) ≡ []
piece-drop-nil zero = refl
piece-drop-nil (suc n) = refl

-- A text that is split between the files and the buffer.
pub joined-split :
    (a b : List (List ℕ)) (n : ℕ)
    → joined ((a ++ piece (take n (joined b))) ++ piece (drop n (joined b))) ≡ joined (a ++ b)
joined-split a b n =
    joined-append_piece (a ++ piece (take n (joined b))) (drop n (joined b))
    ∙ ap (λ l. l ++ drop n (joined b)) (joined-append_piece a (take n (joined b)))
    ∙ append_assoc (joined a) (take n (joined b)) (drop n (joined b))
    ∙ ap (λ l. joined a ++ l) (take-append-drop n (joined b))
    ∙ sym (joined-append a b)

pub lines_of-append : (a b : List File) → lines_of (a ++ b) ≡ lines_of a ++ lines_of b
lines_of-append [] b = refl
lines_of-append (f ∷ a) b =
    ap (λ l. f.lines ++ l) (lines_of-append a b)
    ∙ sym (append_assoc f.lines (lines_of a) (lines_of b))

-- The live file is the last of the files, and no other has its name.
pub record IsLast (files : List File) : Type 0 where
  pub before : List File
  pub current : File
  pub parts : files ≡ before ++ (current ∷ [])
  pub none : any (λ f. is_live f.name) before ≡ false
  pub live : is_live current.name ≡ true

map-append_to-none :
    (lines : List (List ℕ)) (files : List File)
    → any (λ f. is_live f.name) files ≡ false
    → map (append_to lines) files ≡ files
map-append_to-none lines [] h = refl
map-append_to-none lines (f ∷ files) h =
    let other : is_live f.name ≡ false = ground arith in
    rw other (ap (◌∷◌ f) (map-append_to-none lines files (ground arith)))

abbrev grown : List (List ℕ) → File → File
grown lines f = record f { lines = f.lines ++ lines; size = f.size + bytes_of lines }

map-append_to :
    (lines : List (List ℕ)) (files : List File) (l : IsLast files)
    → map (append_to lines) files ≡ l.before ++ (grown lines l.current ∷ [])
map-append_to lines files l =
    ap (map (append_to lines)) l.parts
    ∙ map-append (append_to lines) l.before (l.current ∷ [])
    ∙ ap₂ ◌++◌ (map-append_to-none lines l.before l.none)
        (ap (λ b. (if b then grown lines l.current else l.current) ∷ []) l.live)

pub append_to-IsLast :
    (lines : List (List ℕ)) (files : List File)
    → IsLast files
    → IsLast (map (append_to lines) files)
append_to-IsLast lines files l = record {
  before = l.before;
  current = grown lines l.current;
  parts = map-append_to lines files l;
  none = l.none;
  live = l.live;
}

pub lines_of-append_to :
    (lines : List (List ℕ)) (files : List File)
    → IsLast files
    → lines_of (map (append_to lines) files) ≡ lines_of files ++ lines
lines_of-append_to lines files l =
    ap lines_of (map-append_to lines files l)
    ∙ lines_of-append l.before (grown lines l.current ∷ [])
    ∙ ap (λ t. lines_of l.before ++ t) (append-nil (l.current.lines ++ lines))
    ∙ sym (append_assoc (lines_of l.before) l.current.lines lines)
    ∙ ap (λ t. (lines_of l.before ++ t) ++ lines) (sym (append-nil l.current.lines))
    ∙ ap (λ t. t ++ lines)
        (sym (lines_of-append l.before (l.current ∷ [])) ∙ ap lines_of (sym l.parts))

live_len-append :
    (files : List File) (f : File)
    → any (λ f. is_live f.name) files ≡ false
    → is_live f.name ≡ true
    → live_len (files ++ (f ∷ [])) ≡ f.size
live_len-append [] f n l = rw l refl
live_len-append (x ∷ files) f n l =
    let other : is_live x.name ≡ false = ground arith in
    rw other (live_len-append files f (ground arith) l)

pub live_len-current : (files : List File) (l : IsLast files) → live_len files ≡ l.current.size
live_len-current files l = ap live_len l.parts ∙ live_len-append l.before l.current l.none l.live

-- A name that no file has yet.
pub remove-none :
    (name : Str) (files : List File) → exists name files ≡ false → remove name files ≡ files
remove-none name [] h = refl
remove-none name (f ∷ files) h =
    let other : str_eq f.name name ≡ false = ground arith in
    rw other (ap (◌∷◌ f) (remove-none name files (ground arith)))

map-renamed-none :
    (path : Str) (files : List File)
    → any (λ f. is_live f.name) files ≡ false
    → map (renamed live_name path) files ≡ files
map-renamed-none path [] h = refl
map-renamed-none path (f ∷ files) h =
    let other : is_live f.name ≡ false = ground arith in
    rw other (ap (◌∷◌ f) (map-renamed-none path files (ground arith)))

abbrev pub moved : Str → File → File
moved path f = record f { name = path }

pub rename-live :
    (path : Str) (files : List File) (l : IsLast files)
    → exists path files ≡ false
    → rename live_name path files ≡ l.before ++ (moved path l.current ∷ [])
unfolding rename
rename-live path files l h =
    ap (map (renamed live_name path)) (remove-none path files h ∙ l.parts)
    ∙ map-append (renamed live_name path) l.before (l.current ∷ [])
    ∙ ap₂ ◌++◌ (map-renamed-none path l.before l.none)
        (ap (λ b. (if b then moved path l.current else l.current) ∷ []) l.live)

pub put_sealed-before :
    (gz_size : List (List ℕ) → ℕ) (answer : GzipAnswer) (path : Str) (files : List File) (f : File)
    → exists path files ≡ false
    → put_sealed gz_size answer path (files ++ (moved path f ∷ []))
      ≡ files ++ sealed_as gz_size answer (moved path f)
put_sealed-before gz_size answer path [] f h = rw (str_eq_refl path) (append-nil _)
put_sealed-before gz_size answer path (x ∷ files) f h =
    let other : str_eq x.name path ≡ false = ground arith in
    rw other (ap (◌∷◌ x) (put_sealed-before gz_size answer path files f (ground arith)))
