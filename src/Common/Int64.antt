-- ===== src/Common/Int64.antt =====
-- Go's `int64` and (on the 64-bit platforms that are built) `int`: integers whose arithmetic wraps.
use Prim.Native.Nat.{ℕ, suc, ◌+◌, ◌-◌, ◌*◌, ◌%◌, ◌^◌, ◌≤◌, ◌<◌}
use mathlib.Core.Path.{ap, ◌≡◌}
use mathlib.Core.Bool.{Bool, true, false, not}
use native.Mathlib.Omega.{arith}
use agentpeek.Common.Tests.{ltb, leb, if◌then◌else◌}

-- `negsuc n` is -(n + 1).
pub data ℤ : Type 0 where
  pos : ℕ → ℤ
  negsuc : ℕ → ℤ

abbrev pub pos_part : ℤ → ℕ
pos_part (pos n) = n
pos_part (negsuc n) = 0

abbrev pub neg_part : ℤ → ℕ
neg_part (pos n) = 0
neg_part (negsuc n) = suc n

-- The integer in [-2^63, 2^63) that is a - b modulo 2^64.
unfoldable pub wrap64 : ℕ → ℕ → ℤ
wrap64 a b =
    let r = (a % 2 ^ 64 + 2 ^ 64 - b % 2 ^ 64) % 2 ^ 64 in
    if ltb r (2 ^ 63) then pos r else negsuc (2 ^ 64 - r - 1)

-- a + b
unfoldable pub add64 : ℤ → ℤ → ℤ
unfolding wrap64
add64 a b = wrap64 (pos_part a + pos_part b) (neg_part a + neg_part b)

-- a - b
unfoldable pub sub64 : ℤ → ℤ → ℤ
unfolding wrap64
sub64 a b = wrap64 (pos_part a + neg_part b) (neg_part a + pos_part b)

-- a * b
unfoldable pub mul64 : ℤ → ℤ → ℤ
unfolding wrap64
mul64 a b =
    wrap64 (pos_part a * pos_part b + neg_part a * neg_part b)
      (pos_part a * neg_part b + neg_part a * pos_part b)

-- a <= b
unfoldable pub le64 : ℤ → ℤ → Bool
le64 a b = leb (pos_part a + neg_part b) (pos_part b + neg_part a)

-- a < b
unfoldable pub lt64 : ℤ → ℤ → Bool
lt64 a b = ltb (pos_part a + neg_part b) (pos_part b + neg_part a)

-- The values of an `int64`.
abbrev pub IsInt64 : ℤ → Type 0
IsInt64 z = (pos_part z < 2 ^ 63) × (neg_part z ≤ 2 ^ 63)

-- `a + b` does not leave the range upwards.
abbrev pub NoOverflow : ℤ → ℤ → Type 0
NoOverflow a b = pos_part a + pos_part b < 2 ^ 63 + neg_part a + neg_part b

pub not-le64 : (a b : ℤ) → lt64 a b ≡ true → le64 b a ≡ false
unfolding lt64 le64
not-le64 a b h = ground arith

pub lt64-of-not-le64 : (a b : ℤ) → le64 b a ≡ false → lt64 a b ≡ true
unfolding lt64 le64
lt64-of-not-le64 a b h = ground arith

pub le64_refl : (a : ℤ) → le64 a a ≡ true
unfolding le64
le64_refl a = ground arith

pub le64_trans : (a b c : ℤ) → le64 a b ≡ true → le64 b c ≡ true → le64 a c ≡ true
unfolding le64
le64_trans a b c h k = ground arith

pub add64-IsInt64 : (a b : ℤ) → IsInt64 (add64 a b)
unfolding add64
add64-IsInt64 a b = ground arith

-- A positive amount added without overflow gives something later.
pub add64_later :
    (now d : ℤ)
    → IsInt64 now
    → IsInt64 d
    → le64 d (pos 0) ≡ false
    → NoOverflow now d
    → le64 (add64 now d) now ≡ false
unfolding add64 le64
add64_later (pos a) (pos b) i j h o = ground arith
add64_later (pos a) (negsuc b) i j h o = ground arith
add64_later (negsuc a) (pos b) i j h o = ground arith
add64_later (negsuc a) (negsuc b) i j h o = ground arith

pub lt64_lem : (a b : ℤ) → lt64 a b ≡ not (le64 b a)
unfolding lt64 le64
lt64_lem a b = ground arith

pub lt64_antisym : (a b : ℤ) → lt64 a b ≡ false → lt64 b a ≡ false → a ≡ b
unfolding lt64
lt64_antisym (pos m) (pos n) h k = ap pos (ground arith)
lt64_antisym (pos m) (negsuc n) h k = absurd (ground arith)
lt64_antisym (negsuc m) (pos n) h k = absurd (ground arith)
lt64_antisym (negsuc m) (negsuc n) h k = ap negsuc (ground arith)

-- A sum of two non-negative values that leaves the range comes out before both.
pub add64_overflow :
    (a b : ℕ)
    → a < 2 ^ 63
    → b < 2 ^ 63
    → 2 ^ 63 ≤ a + b
    → le64 (add64 (pos a) (pos b)) (pos a) ≡ true
unfolding add64 le64
add64_overflow a b i j h = ground arith
