-- ===== src/Prelude/Order.antt =====
-- The order of texts, and `sort` on a list of distinct texts.
use mathlib.Core.Path.{◌≡◌, refl, ◌∙◌}
use mathlib.Core.Logic.{inl, inr}
use mathlib.Core.Bool.{Bool, true, false, ◌||◌}
use mathlib.Core.List.{List, [], ◌∷◌}
use native.Mathlib.Omega.{arith}
use ct_firehose_filter.Prelude.Tests.{if◌then◌else◌, Bool-cases}
use ct_firehose_filter.Prelude.Lists.{any}
use ct_firehose_filter.Prelude.Text.{Str, str_eq, str_ltb}

pub str_ltb_irrefl : (s : Str) → str_ltb s s ≡ false
unfolding str_ltb
str_ltb_irrefl [] = refl
str_ltb_irrefl (x ∷ xs) = ground (arith, str_ltb_irrefl xs)

pub str_ltb_trans : (s t u : Str) → str_ltb s t ≡ true → str_ltb t u ≡ true → str_ltb s u ≡ true
unfolding str_ltb
str_ltb_trans [] [] u h k = ground arith
str_ltb_trans [] (y ∷ t) [] h k = ground arith
str_ltb_trans [] (y ∷ t) (z ∷ u) h k = refl
str_ltb_trans (x ∷ s) [] u h k = ground arith
str_ltb_trans (x ∷ s) (y ∷ t) [] h k = ground arith
str_ltb_trans (x ∷ s) (y ∷ t) (z ∷ u) h k = ground (arith, str_ltb_trans s t u)

-- Of two different texts one comes first.
pub str_ltb_connex : (s t : Str) → str_ltb s t ≡ false → str_eq s t ≡ false → str_ltb t s ≡ true
unfolding str_ltb
str_ltb_connex [] [] h k = ground arith
str_ltb_connex [] (y ∷ t) h k = ground arith
str_ltb_connex (x ∷ s) [] h k = refl
str_ltb_connex (x ∷ s) (y ∷ t) h k = ground (arith, str_ltb_connex s t)

-- Every text of the list comes after `s`.
abbrev pub IsBelow : Str → List Str → Type 0
IsBelow s [] = Unit {0}
IsBelow s (x ∷ xs) = (str_ltb s x ≡ true) × IsBelow s xs

-- Sorted, and with no text twice.
abbrev pub IsAscending : List Str → Type 0
IsAscending [] = Unit {0}
IsAscending (x ∷ xs) = IsBelow x xs × IsAscending xs

pub IsBelow-trans : (s t : Str) (xs : List Str) → str_ltb s t ≡ true → IsBelow t xs → IsBelow s xs
IsBelow-trans s t [] h b = tt
IsBelow-trans s t (x ∷ xs) h b = (str_ltb_trans s t x h b.0, IsBelow-trans s t xs h b.1)

insert_sorted : Str → List Str → List Str
insert_sorted x [] = x ∷ []
insert_sorted x (y ∷ ys) = if str_ltb x y then x ∷ y ∷ ys else y ∷ insert_sorted x ys

-- `slice::sort` of texts.
unfoldable pub sort : List Str → List Str
unfolding insert_sorted
sort [] = []
sort (x ∷ xs) = insert_sorted x (sort xs)

abbrev pub contains : List Str → Str → Bool
contains xs a = any (str_eq a) xs

any-insert_sorted :
    (p : Str → Bool) (x : Str) (ys : List Str) → any p (insert_sorted x ys) ≡ (p x || any p ys)
unfolding insert_sorted
any-insert_sorted p x [] = refl
any-insert_sorted p x (y ∷ ys) = ground (arith, any-insert_sorted p x ys)

pub any-sort : (p : Str → Bool) (xs : List Str) → any p (sort xs) ≡ any p xs
unfolding sort
any-sort p [] = refl
any-sort p (x ∷ xs) = ground (arith, any-insert_sorted p x (sort xs), any-sort p xs)

-- No text stands twice in the list.
abbrev pub IsNodup : List Str → Type 0
IsNodup [] = Unit {0}
IsNodup (x ∷ xs) = (contains xs x ≡ false) × IsNodup xs

IsBelow-insert_sorted :
    (s x : Str) (ys : List Str) → str_ltb s x ≡ true → IsBelow s ys → IsBelow s (insert_sorted x ys)
unfolding insert_sorted
IsBelow-insert_sorted s x [] h b = (h, tt)
IsBelow-insert_sorted s x (y ∷ ys) h b = elim (Bool-cases (str_ltb x y)) [
  | inl first ↦ rw first (h, b)
  | inr later ↦ rw later (b.0, IsBelow-insert_sorted s x ys h b.1)
]

insert_sorted-IsAscending :
    (x : Str) (ys : List Str)
    → contains ys x ≡ false
    → IsAscending ys
    → IsAscending (insert_sorted x ys)
unfolding insert_sorted
insert_sorted-IsAscending x [] h a = (tt, tt)
insert_sorted-IsAscending x (y ∷ ys) h a = elim (Bool-cases (str_ltb x y)) [
  | inl first ↦ rw first ((first, IsBelow-trans x y ys first a.0), a)
  | inr later ↦ rw later (
    IsBelow-insert_sorted y x ys (str_ltb_connex x y later (ground arith)) a.0,
    insert_sorted-IsAscending x ys (ground arith) a.1,
  )
]

pub sort-IsAscending : (xs : List Str) → IsNodup xs → IsAscending (sort xs)
unfolding sort
sort-IsAscending [] d = tt
sort-IsAscending (x ∷ xs) d =
    insert_sorted-IsAscending x (sort xs) (any-sort (str_eq x) xs ∙ d.0) (sort-IsAscending xs d.1)
