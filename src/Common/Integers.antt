-- ===== src/Common/Integers.antt =====
-- Signed integers, under the library's names, over the native numbers.
use Prim.Native.Nat.{ℕ, zero, suc, ◌+◌, ◌-◌, ◌*◌, ◌/◌, ◌%◌}
use mathlib.Core.Path.{◌≡◌, refl}
use mathlib.Core.Bool.{Bool, true}
use ferrum_proxy.Common.Tests.{if◌then◌else◌, leb, ltb, u64_mod}

pub data ℤ : Type 0 where
  pos : ℕ → ℤ
  negsuc : ℕ → ℤ

-- a - b
abbrev pub minus : ℕ → ℕ → ℤ
minus a b = if ltb a b then negsuc (b - a - 1) else pos (a - b)

-- - n
abbrev pub negate : ℕ → ℤ
negate zero = pos zero
negate (suc n) = negsuc n

infixl 65 ◌+ℤ◌ ◌-ℤ◌
abbrev pub ◌+ℤ◌ : ℤ → ℤ → ℤ
pos a +ℤ pos b = pos (a + b)
pos a +ℤ negsuc b = minus a (b + 1)
negsuc a +ℤ pos b = minus b (a + 1)
negsuc a +ℤ negsuc b = negsuc (a + b + 1)

abbrev pub ◌-ℤ◌ : ℤ → ℤ → ℤ
pos a -ℤ pos b = minus a b
pos a -ℤ negsuc b = pos (a + (b + 1))
negsuc a -ℤ pos b = negsuc (a + b)
negsuc a -ℤ negsuc b = minus b a

-- A product with a positive constant.
abbrev pub scale : ℕ → ℤ → ℤ
scale k (pos a) = pos (k * a)
scale k (negsuc a) = negate (k * (a + 1))

-- `/` by a positive constant, which cuts towards zero.
abbrev pub quot : ℤ → ℕ → ℤ
quot (pos a) k = pos (a / k)
quot (negsuc a) k = negate ((a + 1) / k)

-- `div_euclid` and `rem_euclid` by a positive constant.
abbrev pub div_euclid : ℤ → ℕ → ℤ
div_euclid (pos a) k = pos (a / k)
div_euclid (negsuc a) k = negsuc (a / k)

abbrev pub rem_euclid : ℤ → ℕ → ℕ
rem_euclid (pos a) k = a % k
rem_euclid (negsuc a) k = k - 1 - a % k

abbrev pub is_at_most : ℤ → ℕ → Bool
is_at_most (pos a) n = leb a n
is_at_most (negsuc a) n = true

abbrev pub is_below : ℤ → ℕ → Bool
is_below (pos a) n = ltb a n
is_below (negsuc a) n = true

-- The number of `bound * 2` values from `- bound` up that is `n` modulo their count: `as i64` of a
-- `u64` with `bound` 2 ^ 63.
abbrev pub wrap_from : ℕ → ℕ → ℤ
wrap_from bound n =
    let r = n % (2 * bound) in if ltb r bound then pos r else negsuc (2 * bound - 1 - r)

abbrev pub i64_bound : ℕ
i64_bound = 0x8000_0000_0000_0000

abbrev pub i32_bound : ℕ
i32_bound = 0x8000_0000

-- `as u32` and `as i32`
abbrev pub to_u32 : ℤ → ℕ
to_u32 z = rem_euclid z (2 * i32_bound)

abbrev pub to_i32 : ℤ → ℤ
to_i32 z = wrap_from i32_bound (to_u32 z)

wrap_test : wrap_from i64_bound (u64_mod - 1) ≡ negsuc 0
wrap_test = refl

i32_test : to_i32 (negsuc 4) ≡ negsuc 4
i32_test = refl
