-- ===== src/Prelude/Numbers.antt =====
-- Unsigned numbers as decimal text: `str::parse` and `Display` of the standard library.
use Prim.Native.Nat.{ℕ, zero, suc, ◌+◌, ◌-◌, ◌*◌, ◌/◌, ◌%◌, ◌^◌, ◌≤◌, ◌<◌}
use mathlib.Core.Path.{◌≡◌, refl, ap, ◌∙◌}
use mathlib.Core.Logic.{inl, inr}
use mathlib.Core.Bool.{Bool, true, false, ◌&&◌}
use mathlib.Core.Option.{Option, none, some}
use mathlib.Core.List.{[], ◌∷◌, ◌++◌}
use native.Mathlib.Omega.{arith}
use ct_firehose_filter.Prelude.Tests.{ltb, leb, ◌==◌, if◌then◌else◌, Bool-cases}
use ct_firehose_filter.Prelude.Lists.{all, all-append, is_empty, is_empty-append}
use ct_firehose_filter.Prelude.Text.{Str}

abbrev pub u64_max : ℕ
u64_max = 2 ^ 64 - 1

abbrev pub is_digit : ℕ → Bool
is_digit c = leb b'0' c && leb c b'9'

unfoldable pub digits : ℕ → Str → Option ℕ
digits n [] = some n
digits n (c ∷ s) = let later = digits (n * 10 + (c - b'0')) s in if is_digit c then later else none

abbrev bounded : ℕ → Option ℕ → Option ℕ
bounded most none = none
bounded most (some n) = if leb n most then some n else none

abbrev some_digits : Str → Option ℕ
some_digits [] = none
some_digits (c ∷ s) = digits 0 (c ∷ s)

abbrev without_plus : Str → Str
without_plus [] = []
without_plus (c ∷ s) = if c == b'+' then s else c ∷ s

-- `raw.parse()` for an unsigned type whose largest value is `most`.
unfoldable pub parse_unsigned : ℕ → Str → Option ℕ
unfolding digits
parse_unsigned most raw = bounded most (some_digits (without_plus raw))

-- The digits of `n`, the most significant first; `fuel` is a bound on their number.
unfoldable pub print : ℕ → ℕ → Str
print zero n = []
print (suc fuel) n =
    let front = print fuel (n / 10) in
    let last = b'0' + n % 10 in if ltb n 10 then last ∷ [] else front ++ (last ∷ [])

-- A number of up to 128 bits has at most 39 digits.
abbrev pub decimal : ℕ → Str
decimal n = print 39 n

digit_test : (n : ℕ) → n < 10 → is_digit (b'0' + n) ≡ true
digit_test n h = ground arith

digits-append : (n : ℕ) (s t : Str) (k : ℕ) → digits n s ≡ some k → digits n (s ++ t) ≡ digits k t
unfolding digits
digits-append n [] t k h = ground arith
digits-append n (c ∷ s) t k h = elim (Bool-cases (is_digit c)) [
  | inl digit ↦ rw digit (digits-append (n * 10 + (c - b'0')) s t k (ground arith))
  | inr other ↦ absurd (ground arith)
]

pub digits-print : (fuel n : ℕ) → n < 10 ^ fuel → digits 0 (print fuel n) ≡ some n
unfolding digits print
digits-print zero n h = ap some (omega arith)
digits-print (suc fuel) n h = elim (Bool-cases (ltb n 10)) [
  | inl small ↦
      let test = digit_test (n % 10) (omega arith) in rw (small, test) (ap some (ground arith))
  | inr more ↦
      let test = digit_test (n % 10) (omega arith) in
      let front = digits-print fuel (n / 10) (omega arith) in
      rw (more, digits-append 0 (print fuel (n / 10)) ((b'0' + n % 10) ∷ []) (n / 10) front, test)
        (ap some (omega arith))
]

pub all-print : (fuel n : ℕ) → all is_digit (print fuel n) ≡ true
unfolding print
all-print zero n = refl
all-print (suc fuel) n = elim (Bool-cases (ltb n 10)) [
  | inl small ↦ rw (small, digit_test (n % 10) (omega arith)) refl
  | inr more ↦
      rw
        (
          more,
          all-append is_digit (print fuel (n / 10)) ((b'0' + n % 10) ∷ []),
          all-print fuel (n / 10),
          digit_test (n % 10) (omega arith),
        )
        refl
]

pub is_empty-print : (fuel n : ℕ) → is_empty (print (suc fuel) n) ≡ false
unfolding print
is_empty-print fuel n = elim (Bool-cases (ltb n 10)) [
  | inl small ↦ rw small refl
  | inr more ↦ rw more (is_empty-append (print fuel (n / 10)) (b'0' + n % 10) [])
]

parse_of_digits :
    (most : ℕ) (s : Str)
    → all is_digit s ≡ true
    → is_empty s ≡ false
    → parse_unsigned most s ≡ bounded most (digits 0 s)
unfolding parse_unsigned
parse_of_digits most [] h e = absurd cc
parse_of_digits most (c ∷ s) h e = let other : (c == b'+') ≡ false = ground arith in rw other refl

-- What is printed is read back.
pub parse_unsigned-decimal :
    (most n : ℕ) → n ≤ most → n < 10 ^ 39 → parse_unsigned most (decimal n) ≡ some n
parse_unsigned-decimal most n h k =
    let fits : leb n most ≡ true = ground arith in
    parse_of_digits most (decimal n) (all-print 39 n) (is_empty-print 38 n)
    ∙ ap (bounded most) (digits-print 39 n k)
    ∙ ap (λ b. if b then some n else none) fits

bounded_bound : (most : ℕ) (o : Option ℕ) (n : ℕ) → bounded most o ≡ some n → n ≤ most
bounded_bound most none n h = absurd cc
bounded_bound most (some k) n h = ground arith

pub parse_unsigned_bound :
    (most : ℕ) (raw : Str) (n : ℕ) → parse_unsigned most raw ≡ some n → n ≤ most
unfolding parse_unsigned
parse_unsigned_bound most raw n h = bounded_bound most (some_digits (without_plus raw)) n h
