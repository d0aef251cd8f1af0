-- ===== src/Prelude/Text.antt =====
-- Rust's `str` as the list of its characters' code points, and the operations of the standard
-- library that the program calls.
use Prim.Native.Nat.{ℕ, ◌+◌, ◌≤◌}
use Prim.Native.Char.{code}
use Prim.Native.String.{String}
use mathlib.Core.Path.{◌≡◌, refl, sym, ap, ◌∙◌}
use mathlib.Core.Logic.{◌↔◌, inl, inr}
use mathlib.Core.Bool.{Bool, true, false, ◌&&◌, ◌||◌}
use mathlib.Core.Option.{Option, none, some}
use mathlib.Core.List.{List, [], ◌∷◌, ◌++◌, map}
use native.Mathlib.Omega.{arith}
use ct_firehose_filter.Prelude.Tests.{ltb, leb, ◌==◌, if◌then◌else◌, Bool-cases}
use ct_firehose_filter.Prelude.Lists.{all}

abbrev pub Str : Type 0
Str = List ℕ

-- The text of a literal.
abbrev pub codes : String → Str
codes String.[] = []
codes (String.◌∷◌ c s) = code c ∷ codes s

abbrev pub str_eq : Str → Str → Bool
str_eq [] [] = true
str_eq [] (y ∷ ys) = false
str_eq (x ∷ xs) [] = false
str_eq (x ∷ xs) (y ∷ ys) = (x == y) && str_eq xs ys

pub str_eq_refl : (s : Str) → str_eq s s ≡ true
str_eq_refl [] = refl
str_eq_refl (x ∷ xs) = ground (arith, str_eq_refl xs)

str_eq_sound : (s t : Str) → str_eq s t ≡ true → s ≡ t
str_eq_sound [] [] h = refl
str_eq_sound [] (y ∷ ys) h = ground arith
str_eq_sound (x ∷ xs) [] h = ground arith
str_eq_sound (x ∷ xs) (y ∷ ys) h = ground (arith, str_eq_sound xs ys)

pub str_eq_iff : (s t : Str) → (str_eq s t ≡ true) ↔ (s ≡ t)
str_eq_iff s t = (str_eq_sound s t, λ e. ground (arith, str_eq_refl s))

-- The order of `Ord for str`: bytes of UTF-8 compare as code points do.
unfoldable pub str_ltb : Str → Str → Bool
str_ltb [] [] = false
str_ltb [] (y ∷ ys) = true
str_ltb (x ∷ xs) [] = false
str_ltb (x ∷ xs) (y ∷ ys) = ltb x y || ((x == y) && str_ltb xs ys)

-- `char::is_whitespace`
abbrev pub is_whitespace : ℕ → Bool
is_whitespace c =
    (leb 9 c && leb c 13)
    || (c == 0x20)
    || (c == 0x85)
    || (c == 0xa0)
    || (c == 0x1680)
    || (leb 0x2000 c && leb c 0x200a)
    || (c == 0x2028)
    || (c == 0x2029)
    || (c == 0x202f)
    || (c == 0x205f)
    || (c == 0x3000)

-- `trim_start_matches`
unfoldable pub drop_start : (ℕ → Bool) → Str → Str
drop_start p [] = []
drop_start p (c ∷ s) = if p c then drop_start p s else c ∷ s

-- `trim_end_matches`
unfoldable pub drop_end : (ℕ → Bool) → Str → Str
drop_end p [] = []
drop_end p (c ∷ s) = if all p (c ∷ s) then [] else c ∷ drop_end p s

unfoldable pub trim : Str → Str
unfolding drop_start drop_end
trim s = drop_start is_whitespace (drop_end is_whitespace s)

abbrev pub lower : ℕ → ℕ
lower c = if leb 65 c && leb c 90 then c + 32 else c

abbrev pub to_ascii_lowercase : Str → Str
to_ascii_lowercase = map lower

unfoldable pub strip_prefix : Str → Str → Option Str
strip_prefix [] s = some s
strip_prefix (p ∷ ps) [] = none
strip_prefix (p ∷ ps) (c ∷ s) = if p == c then strip_prefix ps s else none

-- `parts.join(sep)`
unfoldable pub join : Str → List Str → Str
join sep [] = []
join sep (x ∷ []) = x
join sep (x ∷ y ∷ rest) = x ++ (sep ++ join sep (y ∷ rest))

-- `s.split(sep)`, which never yields an empty sequence.
prepend : ℕ → List Str → List Str
prepend c [] = (c ∷ []) ∷ []
prepend c (w ∷ ws) = (c ∷ w) ∷ ws

unfoldable pub split : ℕ → Str → List Str
unfolding prepend
split sep [] = [] ∷ []
split sep (c ∷ s) = let rest = split sep s in if c == sep then [] ∷ rest else prepend c rest

lower_idem : (c : ℕ) → lower (lower c) ≡ lower c
lower_idem c = ground arith

pub to_ascii_lowercase_idem :
    (s : Str) → to_ascii_lowercase (to_ascii_lowercase s) ≡ to_ascii_lowercase s
to_ascii_lowercase_idem [] = refl
to_ascii_lowercase_idem (c ∷ s) = ground (arith, lower_idem c, to_ascii_lowercase_idem s)

-- A test that does not look at the case of letters.
module _ (p : ℕ → Bool) (blind : (c : ℕ) → p (lower c) ≡ p c) where
  all-lower : (s : Str) → all p (to_ascii_lowercase s) ≡ all p s
  all-lower [] = refl
  all-lower (c ∷ s) = ground (arith, blind c, all-lower s)

  pub drop_start-lower :
      (s : Str) → drop_start p (to_ascii_lowercase s) ≡ to_ascii_lowercase (drop_start p s)
  unfolding drop_start
  drop_start-lower [] = refl
  drop_start-lower (c ∷ s) = ground (arith, blind c, drop_start-lower s)

  pub drop_end-lower :
      (s : Str) → drop_end p (to_ascii_lowercase s) ≡ to_ascii_lowercase (drop_end p s)
  unfolding drop_end
  drop_end-lower [] = refl
  drop_end-lower (c ∷ s) = ground (arith, blind c, all-lower s, drop_end-lower s)

letter-ne-is_whitespace : (c : ℕ) → 65 ≤ c → c ≤ 122 → is_whitespace c ≡ false
letter-ne-is_whitespace c lo hi = ground arith

is_whitespace-lower : (c : ℕ) → is_whitespace (lower c) ≡ is_whitespace c
is_whitespace-lower c = elim (Bool-cases (leb 65 c && leb c 90)) [
  | inl upper ↦ rw upper (
      letter-ne-is_whitespace (c + 32) (ground arith) (ground arith)
      ∙ sym (letter-ne-is_whitespace c (ground arith) (ground arith)))
  | inr other ↦ rw other
]

pub trim-lower : (s : Str) → trim (to_ascii_lowercase s) ≡ to_ascii_lowercase (trim s)
unfolding trim
trim-lower s =
    ap (drop_start is_whitespace) (drop_end-lower is_whitespace is_whitespace-lower s)
    ∙ drop_start-lower is_whitespace is_whitespace-lower (drop_end is_whitespace s)
