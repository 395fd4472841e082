-- ===== src/Common/Int.antt =====
-- Signed 64-bit integers: an i64 is the integer it stands for, and an operation that may overflow
-- wraps as a release build does (two's complement).
use Prim.Native.Nat.{ℕ, suc, ◌+◌, ◌-◌, ◌*◌, ◌%◌, ◌^◌, ◌≤◌, ◌<◌}
use mathlib.Core.Path.{◌≡◌}
use mathlib.Core.Bool.{Bool}
use native.Mathlib.Decide.{ℕ_discrete}
use native.Mathlib.Omega.{arith}
use cordn_rs.Common.Tests.{ltb, leb, if◌then◌else◌, decide}

-- `negsuc n` is -(n + 1).
pub data ℤ : Type 0 where
  pos : ℕ → ℤ
  negsuc : ℕ → ℤ

abbrev pub pos_part : ℤ → ℕ
pos_part (pos n) = n
pos_part (negsuc n) = 0

abbrev pub neg_part : ℤ → ℕ
neg_part (pos n) = 0
neg_part (negsuc n) = suc n

-- a - b, as an integer.
abbrev pub sub_ℕ : ℕ → ℕ → ℤ
sub_ℕ a b = if leb b a then pos (a - b) else negsuc (b - a - 1)

infix 50 ◌≤ℤ◌ ◌<ℤ◌
abbrev pub ◌≤ℤ◌ : ℤ → ℤ → Type 0
a ≤ℤ b = pos_part a + neg_part b ≤ pos_part b + neg_part a

abbrev pub ◌<ℤ◌ : ℤ → ℤ → Type 0
a <ℤ b = pos_part a + neg_part b < pos_part b + neg_part a

abbrev pub ltb_ℤ : ℤ → ℤ → Bool
ltb_ℤ a b = ltb (pos_part a + neg_part b) (pos_part b + neg_part a)

abbrev pub leb_ℤ : ℤ → ℤ → Bool
leb_ℤ a b = leb (pos_part a + neg_part b) (pos_part b + neg_part a)

unfoldable pub ℤ_discrete : Discrete ℤ
unfolding ℕ_discrete
ℤ_discrete = hlevel ℕ_discrete

abbrev pub int_eq : ℤ → ℤ → Bool
int_eq a b = decide (ℤ_discrete a b)

-- The i64 whose bit pattern is `n % 2 ^ 64`.
abbrev signed : ℕ → ℤ
signed r = if ltb r (2 ^ 63) then pos r else negsuc (2 ^ 64 - r - 1)

-- An integer brought into the range of i64.
unfoldable pub wrap_i64 : ℤ → ℤ
wrap_i64 (pos n) = signed (n % 2 ^ 64)
wrap_i64 (negsuc n) = signed (2 ^ 64 - 1 - n % 2 ^ 64)

-- `a + b` and `a - b` on i64.
unfoldable pub add_i64 : ℤ → ℤ → ℤ
unfolding wrap_i64
add_i64 a b = wrap_i64 (sub_ℕ (pos_part a + pos_part b) (neg_part a + neg_part b))

unfoldable pub sub_i64 : ℤ → ℤ → ℤ
unfolding wrap_i64
sub_i64 a b = wrap_i64 (sub_ℕ (pos_part a + neg_part b) (neg_part a + pos_part b))

-- `a * b` on i64.
unfoldable pub mul_i64 : ℤ → ℤ → ℤ
unfolding wrap_i64
mul_i64 a b = wrap_i64 (
    sub_ℕ (pos_part a * pos_part b + neg_part a * neg_part b)
      (pos_part a * neg_part b + neg_part a * pos_part b))

-- The values that an i64 takes.
abbrev pub IsI64 : ℤ → Type 0
IsI64 a = (pos_part a < 2 ^ 63) × (neg_part a ≤ 2 ^ 63)

pub wrap_i64-IsI64 : (a : ℤ) → IsI64 (wrap_i64 a)
unfolding wrap_i64
wrap_i64-IsI64 (pos n) = ground arith
wrap_i64-IsI64 (negsuc n) = ground arith

pub wrap_i64-eq_self : (a : ℤ) → IsI64 a → wrap_i64 a ≡ a
unfolding wrap_i64
wrap_i64-eq_self (pos n) h = ground arith
wrap_i64-eq_self (negsuc n) h = ground arith

-- Without an overflow the sum of two numbers is their sum.
pub add_i64-pos : (m n : ℕ) → m + n < 2 ^ 63 → add_i64 (pos m) (pos n) ≡ pos (m + n)
unfolding add_i64
add_i64-pos m n h = ground arith

pub mul_i64-pos : (m n : ℕ) → m * n < 2 ^ 63 → mul_i64 (pos m) (pos n) ≡ pos (m * n)
unfolding mul_i64
mul_i64-pos m n h =
    let left : m * n + 0 * 0 ≡ m * n = omega arith in
    let right : m * 0 + 0 * n ≡ 0 = omega arith in
    let whole : sub_ℕ (m * n) 0 ≡ pos (m * n) = ground arith in
    rw (left, right, whole) (wrap_i64-eq_self (pos (m * n)) (h, omega arith))

-- Timestamps that are not negative subtract without an overflow.
pub sub_i64-pos : (m n : ℕ) → m < 2 ^ 63 → n < 2 ^ 63 → sub_i64 (pos m) (pos n) ≡ sub_ℕ m n
unfolding sub_i64
sub_i64-pos m n h k = ground arith
