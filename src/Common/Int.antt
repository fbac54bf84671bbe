-- ===== src/Common/Int.antt =====
-- Signed 64-bit numbers: the integers, their saturating sums, and their two's complement bytes.
use Prim.Native.Nat.{ℕ, ◌+◌, ◌-◌, ◌%◌, ◌^◌, ◌≤◌, ◌<◌}
use mathlib.Core.Path.{◌≡◌}
use mathlib.Core.Bool.{Bool}
use native.Mathlib.Omega.{arith}
use distr_hnsw.Common.Tests.{ltb, leb, if◌then◌else◌}

-- `negsuc n` is -(n + 1).
pub data ℤ : Type 0 where
  pos : ℕ → ℤ
  negsuc : ℕ → ℤ

abbrev pub pos_part : ℤ → ℕ
pos_part (pos n) = n
pos_part (negsuc n) = 0

abbrev pub neg_part : ℤ → ℕ
neg_part (pos n) = 0
neg_part (negsuc n) = n + 1

abbrev pub sub_ℕ : ℕ → ℕ → ℤ
sub_ℕ a b = if leb b a then pos (a - b) else negsuc (b - a - 1)

infix 50 ◌≤ℤ◌
abbrev pub ◌≤ℤ◌ : ℤ → ℤ → Type 0
a ≤ℤ b = pos_part a + neg_part b ≤ pos_part b + neg_part a

-- `a < b` as a test.
abbrev pub ltℤ : ℤ → ℤ → Bool
ltℤ a b = ltb (pos_part a + neg_part b) (pos_part b + neg_part a)

-- The `i64` range.
abbrev pub IsI64 : ℤ → Type 0
IsI64 (pos n) = n < 2 ^ 63
IsI64 (negsuc n) = n < 2 ^ 63

-- `i64::saturating_add` and `saturating_sub`: the true result, clamped to the range.
abbrev clamp_i64 : ℤ → ℤ
clamp_i64 (pos n) = if ltb n (2 ^ 63) then pos n else pos (2 ^ 63 - 1)
clamp_i64 (negsuc n) = if ltb n (2 ^ 63) then negsuc n else negsuc (2 ^ 63 - 1)

unfoldable pub saturating_add : ℤ → ℤ → ℤ
saturating_add a b = clamp_i64 (sub_ℕ (pos_part a + pos_part b) (neg_part a + neg_part b))

unfoldable pub saturating_sub : ℤ → ℤ → ℤ
saturating_sub a b = clamp_i64 (sub_ℕ (pos_part a + neg_part b) (neg_part a + pos_part b))

-- The sum of integers, without a bound.
infixl 65 ◌+ℤ◌
abbrev pub ◌+ℤ◌ : ℤ → ℤ → ℤ
a +ℤ b = sub_ℕ (pos_part a + pos_part b) (neg_part a + neg_part b)

-- The 64-bit pattern of an `i64`, and the `i64` of a pattern.
unfoldable pub to_bits : ℤ → ℕ
to_bits (pos n) = n
to_bits (negsuc n) = 2 ^ 64 - 1 - n

unfoldable pub of_bits : ℕ → ℤ
of_bits w = if ltb w (2 ^ 63) then pos w else negsuc (2 ^ 64 - 1 - w)

pub to_bits-lt : (a : ℤ) → IsI64 a → to_bits a < 2 ^ 64
unfolding to_bits
to_bits-lt (pos n) h = omega arith
to_bits-lt (negsuc n) h = omega arith

pub of_bits-to_bits : (a : ℤ) → IsI64 a → of_bits (to_bits a) ≡ a
unfolding to_bits of_bits
of_bits-to_bits (pos n) h = ground arith
of_bits-to_bits (negsuc n) h = ground arith

-- A saturated difference at most `k` below the top of the range is the true difference.
pub saturating_sub_le :
    (a b : ℤ) (k : ℕ)
    → k < 2 ^ 63 - 1
    → saturating_sub a b ≤ℤ pos k
    → pos_part a + neg_part b ≤ neg_part a + pos_part b + k
unfolding saturating_sub
saturating_sub_le a b k hk h = ground arith

-- `a + b` on `i64` wraps around.
unfoldable pub wrapping_add : ℤ → ℤ → ℤ
wrapping_add a b = of_bits ((to_bits a + to_bits b) % 2 ^ 64)

pub wrapping_add-eq :
    (a : ℤ) (k : ℕ)
    → IsI64 a
    → a +ℤ pos k ≤ℤ pos (2 ^ 63 - 1)
    → (wrapping_add a (pos k) ≡ a +ℤ pos k) × IsI64 (a +ℤ pos k)
unfolding wrapping_add to_bits of_bits
wrapping_add-eq (pos n) k i h = ground arith
wrapping_add-eq (negsuc n) k i h = ground arith

-- The saturating sum with a number of seconds bounds the same times as the true sum does.
pub saturating_add_iff :
    (now a : ℤ) (k : ℕ)
    → IsI64 now
    → IsI64 a
    → ltℤ (saturating_add a (pos k)) now ≡ ltℤ (a +ℤ pos k) now
unfolding saturating_add
saturating_add_iff (pos n) (pos m) k i j = ground arith
saturating_add_iff (pos n) (negsuc m) k i j = ground arith
saturating_add_iff (negsuc n) (pos m) k i j = ground arith
saturating_add_iff (negsuc n) (negsuc m) k i j = ground arith

pub saturating_sub_iff :
    (a b : ℤ) (k : ℕ) → k < 2 ^ 63 - 1 → ltℤ (pos k) (saturating_sub a b) ≡ ltℤ (b +ℤ pos k) a
unfolding saturating_sub
saturating_sub_iff (pos n) (pos m) k h = ground arith
saturating_sub_iff (pos n) (negsuc m) k h = ground arith
saturating_sub_iff (negsuc n) (pos m) k h = ground arith
saturating_sub_iff (negsuc n) (negsuc m) k h = ground arith
