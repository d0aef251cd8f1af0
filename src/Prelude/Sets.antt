-- ===== src/Prelude/Sets.antt =====
-- `HashSet<String>` as a list with no text twice. Its order is never observed: the program sorts
-- what it collects from one.
use ct_firehose_filter.Prelude.Tests.{if◌then◌else◌, Bool-cases, Bool-ext}
use ct_firehose_filter.Prelude.Lists.{any, filter}
use ct_firehose_filter.Prelude.Text.{Str, str_eq, str_eq_iff, str_eq_refl, str_ltb}
use ct_firehose_filter.Prelude.Order.{
  contains, sort, sort-IsAscending, any-sort, IsNodup, IsAscending, IsBelow, str_ltb_irrefl,
  str_ltb_trans,
}
use mathlib.Core.Path.{◌≡◌, refl, ap, ap₂, ◌∙◌}
use mathlib.Core.Logic.{inl, inr}
use mathlib.Core.Bool.{Bool, true, false, ◌&&◌, ◌||◌}
use mathlib.Core.List.{List, [], ◌∷◌}
use native.Mathlib.Omega.{arith}

unfoldable pub insert : Str → List Str → List Str
insert x xs = if contains xs x then xs else x ∷ xs

-- `collect::<HashSet<_>>()`
unfoldable pub collect_set : List Str → List Str
collect_set [] = []
collect_set (x ∷ xs) = insert x (collect_set xs)

pub contains-insert :
    (x a : Str) (xs : List Str) → contains (insert x xs) a ≡ (str_eq a x || contains xs a)
unfolding insert
contains-insert x a xs = elim (Bool-cases (contains xs x)) [
  | inl old ↦ rw old (
      Bool-ext (contains xs a) (str_eq a x || contains xs a) (λ h. ground arith)
        (λ h. ground (arith, str_eq_iff a x)))
  | inr new ↦ rw new
]

pub insert-IsNodup : (x : Str) (xs : List Str) → IsNodup xs → IsNodup (insert x xs)
unfolding insert
insert-IsNodup x xs d = elim (Bool-cases (contains xs x)) [
  | inl old ↦ rw old d
  | inr new ↦ rw new (new, d)
]

pub collect_set-IsNodup : (xs : List Str) → IsNodup (collect_set xs)
unfolding collect_set
collect_set-IsNodup [] = tt
collect_set-IsNodup (x ∷ xs) = insert-IsNodup x (collect_set xs) (collect_set-IsNodup xs)

pub contains-collect_set : (xs : List Str) (a : Str) → contains (collect_set xs) a ≡ contains xs a
unfolding collect_set
contains-collect_set [] a = refl
contains-collect_set (x ∷ xs) a =
    contains-insert x a (collect_set xs) ∙ ap (λ b. str_eq a x || b) (contains-collect_set xs a)

-- A test that holds of one member holds of some member.
pub any_of_contains :
    (p : Str → Bool) (xs : List Str) (a : Str) → contains xs a ≡ true → p a ≡ true → any p xs ≡ true
any_of_contains p [] a h k = ground arith
any_of_contains p (x ∷ xs) a h k = ground (arith, str_eq_iff a x, any_of_contains p xs a)

-- A set decides a test by its members alone.
pub contains_of_any :
    (p : Str → Bool) (xs : List Str)
    → any p xs ≡ true
    → (a : Str) × (contains xs a ≡ true) × (p a ≡ true)
contains_of_any p [] h = ground arith
contains_of_any p (x ∷ xs) h = elim (Bool-cases (p x)) [
  | inl here ↦ (x, ground (arith, str_eq_refl x), here)
  | inr there ↦ let (a, m, k) = contains_of_any p xs (ground arith) in (a, ground arith, k)
]

pub contains-filter :
    (p : Str → Bool) (xs : List Str) (a : Str) → contains (filter p xs) a ≡ (contains xs a && p a)
contains-filter p [] a = refl
contains-filter p (x ∷ xs) a = elim (Bool-cases (str_eq a x)) [
  | inl same ↦ ground (arith, str_eq_iff a x, contains-filter p xs a, str_eq_refl a)
  | inr other ↦ ground (arith, contains-filter p xs a)
]

pub filter-IsNodup : (p : Str → Bool) (xs : List Str) → IsNodup xs → IsNodup (filter p xs)
filter-IsNodup p [] d = tt
filter-IsNodup p (x ∷ xs) d = elim (Bool-cases (p x)) [
  | inl keep ↦ rw keep (ground (arith, contains-filter p xs x, d.0), filter-IsNodup p xs d.1)
  | inr skip ↦ rw skip (filter-IsNodup p xs d.1)
]

filter-IsBelow : (p : Str → Bool) (s : Str) (xs : List Str) → IsBelow s xs → IsBelow s (filter p xs)
filter-IsBelow p s [] b = tt
filter-IsBelow p s (x ∷ xs) b = elim (Bool-cases (p x)) [
  | inl keep ↦ rw keep (b.0, filter-IsBelow p s xs b.1)
  | inr skip ↦ rw skip (filter-IsBelow p s xs b.1)
]

pub filter-IsAscending :
    (p : Str → Bool) (xs : List Str) → IsAscending xs → IsAscending (filter p xs)
filter-IsAscending p [] a = tt
filter-IsAscending p (x ∷ xs) a = elim (Bool-cases (p x)) [
  | inl keep ↦ rw keep (filter-IsBelow p x xs a.0, filter-IsAscending p xs a.1)
  | inr skip ↦ rw skip (filter-IsAscending p xs a.1)
]

-- Members of an ascending tail come after its bound.
ltb_of_contains :
    (s a : Str) (xs : List Str) → IsBelow s xs → contains xs a ≡ true → str_ltb s a ≡ true
ltb_of_contains s a [] b h = ground arith
ltb_of_contains s a (x ∷ xs) b h = ground (arith, str_eq_iff a x, b.0, ltb_of_contains s a xs b.1)

pub not-contains_of_IsBelow : (s : Str) (xs : List Str) → IsBelow s xs → contains xs s ≡ false
not-contains_of_IsBelow s xs b = elim (Bool-cases (contains xs s)) [
  | inl h ↦ ground (arith, ltb_of_contains s s xs b h, str_ltb_irrefl s)
  | inr h ↦ h
]

heads-eq :
    (x y : Str) (xs ys : List Str)
    → IsBelow x xs
    → IsBelow y ys
    → contains (y ∷ ys) x ≡ true
    → contains (x ∷ xs) y ≡ true
    → x ≡ y
heads-eq x y xs ys bx by hx hy = elim (Bool-cases (str_eq x y)) [
  | inl same ↦ (str_eq_iff x y).0 same
  | inr other ↦ ground (
    arith,
    str_eq_iff x y,
    str_eq_iff y x,
    ltb_of_contains y x ys by,
    ltb_of_contains x y xs bx,
    str_ltb_trans x y x,
    str_ltb_irrefl x,
  )
]

tails-contains :
    (x y : Str) (xs ys : List Str)
    → x ≡ y
    → IsBelow x xs
    → IsBelow y ys
    → (a : Str) → contains (x ∷ xs) a ≡ contains (y ∷ ys) a
    → contains xs a ≡ contains ys a
tails-contains x y xs ys e bx by a h = elim (Bool-cases (str_eq a x)) [
  | inl same ↦
      ground
        (arith, str_eq_iff a x, not-contains_of_IsBelow x xs bx, not-contains_of_IsBelow y ys by)
  | inr other ↦ ground arith
]

-- A sorted list is determined by its members.
pub IsAscending-ext :
    (xs ys : List Str)
    → IsAscending xs
    → IsAscending ys
    → ((a : Str) → contains xs a ≡ contains ys a)
    → xs ≡ ys
IsAscending-ext [] [] ax ay h = refl
IsAscending-ext [] (y ∷ ys) ax ay h = ground (arith, h y, str_eq_refl y)
IsAscending-ext (x ∷ xs) [] ax ay h = ground (arith, h x, str_eq_refl x)
IsAscending-ext (x ∷ xs) (y ∷ ys) ax ay h =
    let e : x ≡ y =
      heads-eq x y xs ys ax.0 ay.0 (ground (arith, h x, str_eq_refl x))
        (ground (arith, h y, str_eq_refl y)) in
    ap₂ ◌∷◌ e (IsAscending-ext xs ys ax.1 ay.1 (λ a. tails-contains x y xs ys e ax.0 ay.0 a (h a)))

pub IsNodup-of_IsAscending : (xs : List Str) → IsAscending xs → IsNodup xs
IsNodup-of_IsAscending [] a = tt
IsNodup-of_IsAscending (x ∷ xs) a =
    (not-contains_of_IsBelow x xs a.0, IsNodup-of_IsAscending xs a.1)

-- A sorted list stays as it is.
pub sort_of_IsAscending : (xs : List Str) → IsAscending xs → sort xs ≡ xs
sort_of_IsAscending xs a =
    IsAscending-ext (sort xs) xs (sort-IsAscending xs (IsNodup-of_IsAscending xs a)) a
      (λ b. any-sort (str_eq b) xs)
