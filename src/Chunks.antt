-- ===== src/Chunks.antt =====
-- The sealed chunks of a rotated file, as src/archive.rs and src/alerts_file.rs both have them: their
-- names, their order by age, and the deletion of the oldest ones until a budget is kept.
pub mod Names
pub mod Prune
pub mod Budget
pub mod Seal
pub mod Gone
use ct_firehose_filter.Prelude.{
  ℕ, zero, suc, ◌+◌, ◌-◌, ◌^◌, Bool, true, false, not, ◌&&◌, ◌||◌, ◌==◌, Option, none, some, List,
  [], ◌∷◌, ◌++◌, all, filter, map, length, is_empty, leb, if◌then◌else◌, min, Str, codes, str_eq,
  strip_prefix,
}
use ct_firehose_filter.Prelude.Numbers.{is_digit, parse_unsigned, decimal, u64_max}

-- Of the standard library: `rsplit_once`, `strip_suffix` and `trim_end_matches` of a text.
abbrev pub or_here : ℕ → ℕ → Str → Option (Str × Str) → Option (Str × Str)
or_here sep c s none = if c == sep then some ([], s) else none
or_here sep c s (some p) = some (c ∷ p.0, p.1)

unfoldable pub rsplit_once : ℕ → Str → Option (Str × Str)
rsplit_once sep [] = none
rsplit_once sep (c ∷ s) = or_here sep c s (rsplit_once sep s)

abbrev pub cons_option : ℕ → Option Str → Option Str
cons_option c none = none
cons_option c (some s) = some (c ∷ s)

unfoldable pub strip_suffix : Str → Str → Option Str
strip_suffix suffix [] = if is_empty suffix then some [] else none
strip_suffix suffix (c ∷ s) =
    let later = strip_suffix suffix s in
    if str_eq suffix (c ∷ s) then some [] else cons_option c later

abbrev pub or_self : Str → Option Str → Str
or_self s none = s
or_self s (some t) = t

-- On fuel; a text is stripped fewer times than it has characters.
abbrev pub trim_end_on : ℕ → Str → Str → Str
trim_end_on zero suffix s = s
trim_end_on (suc fuel) suffix s = elim (strip_suffix suffix s) [
  | none ↦ s
  | some t ↦ trim_end_on fuel suffix t
]

abbrev pub gz : Str
gz = codes ".gz"

abbrev pub trim_gz : Str → Str
trim_gz s = trim_end_on (length s) gz s

-- A number, with or without `.gz`.
abbrev is_stamp : Str → Bool
is_stamp rest =
    let stem = or_self rest (strip_suffix gz rest) in not (is_empty stem) && all is_digit stem

abbrev after_dot : Option Str → Option Str
after_dot none = none
after_dot (some rest) = strip_prefix (b'.' ∷ []) rest

abbrev is_stamp_at : Option Str → Bool
is_stamp_at none = false
is_stamp_at (some rest) = is_stamp rest

-- In src/alerts_file.rs; src/archive.rs has it for one prefix, as `is_sealed_archive_name`.
unfoldable pub is_rotated_sibling : Str → Str → Bool
is_rotated_sibling prefix name = is_stamp_at (after_dot (strip_prefix prefix name))

abbrev pub u128_max : ℕ
u128_max = 2 ^ 128 - 1

abbrev pub last_part : Option (Str × Str) → Str
last_part none = []
last_part (some p) = p.1

abbrev pub number_or_0 : Option ℕ → ℕ
number_or_0 none = 0
number_or_0 (some n) = n

-- And `sealed_sort_key`.
unfoldable pub rotated_sort_key : Str → ℕ
rotated_sort_key name =
    let after = last_part (rsplit_once b'.' name) in
    let stem =
      if str_eq after (codes "gz") then last_part (rsplit_once b'.' (trim_gz name)) else after in
    number_or_0 (parse_unsigned u128_max stem)

abbrev pub rotated_name : Str → ℕ → Str
rotated_name name ts = name ++ (b'.' ∷ decimal ts)

-- A stable sort, as `sort_by_key` is.
unfoldable pub insert_by_key : Str → List Str → List Str
unfolding rotated_sort_key
insert_by_key x [] = x ∷ []
insert_by_key x (y ∷ ys) =
    let later = insert_by_key x ys in
    if leb (rotated_sort_key x) (rotated_sort_key y) then x ∷ y ∷ ys else y ∷ later

unfoldable pub sort_by_key : List Str → List Str
unfolding insert_by_key
sort_by_key [] = []
sort_by_key (x ∷ xs) = insert_by_key x (sort_by_key xs)

-- A file of the directory, with the lines in it, before any compression.
pub record File : Type 0 where
  pub name : Str
  pub lines : List (List ℕ)
  pub size : ℕ

abbrev pub remove : Str → List File → List File
remove name files = filter (λ f. not (str_eq f.name name)) files

abbrev pub names : List File → List Str
names files = map (λ f. f.name) files

unfoldable pub list_rotated : Str → List File → List Str
unfolding is_rotated_sibling sort_by_key
list_rotated prefix files = sort_by_key (filter (is_rotated_sibling prefix) (names files))

abbrev pub saturating_add : ℕ → ℕ → ℕ
saturating_add a b = min (a + b) u64_max

abbrev pub add_sizes : ℕ → List File → ℕ
add_sizes total [] = total
add_sizes total (f ∷ files) = add_sizes (saturating_add total f.size) files

-- The loop that prunes: `total` is what the directory counts, `keeps` the paths that it leaves out,
-- and `deletes` whether the deletion of a file succeeds.
module _ (total : List File → ℕ) (most : ℕ) (keeps deletes : Str → Bool) where
  abbrev pub delete : Str → List File → List File
  delete old files = if not (keeps old) && deletes old then remove old files else files

  unfoldable pub prune_oldest : List Str → List File → List File
  prune_oldest [] files = files
  prune_oldest (old ∷ rest) files =
      let later = prune_oldest rest (delete old files) in
      if leb (total files) most then files else later
