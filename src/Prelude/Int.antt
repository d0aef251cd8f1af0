-- ===== src/Prelude/Int.antt =====
-- Signed integers, with the saturating operations on `i64`.
use Prim.Native.Nat.{ℕ, suc, ◌+◌, ◌-◌, ◌^◌, ◌*◌, ◌/◌, ◌≤◌}
use mathlib.Core.Bool.{Bool, true, false}
use ct_firehose_filter.Prelude.Tests.{leb, if◌then◌else◌}

-- `negsuc n` is -(n + 1).
pub data ℤ : Type 0 where
  pos : ℕ → ℤ
  negsuc : ℕ → ℤ

abbrev pub pos_part : ℤ → ℕ
pos_part (pos n) = n
pos_part (negsuc n) = 0

abbrev pub neg_part : ℤ → ℕ
neg_part (pos n) = 0
neg_part (negsuc n) = suc n

-- a - b, as an integer.
abbrev pub sub_ℕ : ℕ → ℕ → ℤ
sub_ℕ a b = if leb b a then pos (a - b) else negsuc (b - a - 1)

infix 50 ◌≤ℤ◌
abbrev pub ◌≤ℤ◌ : ℤ → ℤ → Type 0
a ≤ℤ b = pos_part a + neg_part b ≤ pos_part b + neg_part a

abbrev pub leb_ℤ : ℤ → ℤ → Bool
leb_ℤ a b = leb (pos_part a + neg_part b) (pos_part b + neg_part a)

abbrev pub i64_max : ℕ
i64_max = 2 ^ 63 - 1

-- Into the range of `i64`, as saturating arithmetic and `as i64` do.
abbrev pub saturate_i64 : ℤ → ℤ
saturate_i64 (pos n) = if leb n i64_max then pos n else pos i64_max
saturate_i64 (negsuc n) = if leb n i64_max then negsuc n else negsuc i64_max

-- `i64::saturating_sub`
abbrev pub saturating_sub : ℤ → ℤ → ℤ
saturating_sub a b = saturate_i64 (sub_ℕ (pos_part a + neg_part b) (neg_part a + pos_part b))

-- `u32::try_from(n).unwrap_or(u32::MAX)`
abbrev pub u32_max : ℕ
u32_max = 2 ^ 32 - 1

abbrev pub saturate_u32 : ℕ → ℕ
saturate_u32 n = if leb n u32_max then n else u32_max

-- `f64`: a value that is finite is `± mantissa * 2 ^ exponent`.
pub data F64 : Type 0 where
  nan : F64
  infinite : Bool → F64
  finite : Bool → ℕ → ℤ → F64

abbrev pub scale : ℕ → ℤ → ℕ
scale m (pos e) = m * 2 ^ e
scale m (negsuc e) = m / 2 ^ suc e

abbrev pub signed : Bool → ℕ → ℤ
signed true n = sub_ℕ 0 n
signed false n = pos n

-- `x.trunc() as i64` of a finite value.
abbrev pub trunc_i64 : Bool → ℕ → ℤ → ℤ
trunc_i64 negative m e = saturate_i64 (signed negative (scale m e))
