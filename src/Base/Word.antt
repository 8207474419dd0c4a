-- ===== src/Base/Word.antt =====
-- Go's int64 as its bit pattern, a number below 2 ^ 64: sums and differences wrap around.
use Prim.Native.Nat.{ℕ, ◌+◌, ◌-◌, ◌*◌, ◌%◌, ◌^◌, ◌<◌}
use mathlib.Core.Path.{◌≡◌}
use mathlib.Core.Bool.{Bool, ◌||◌}
use native.Mathlib.Omega.{arith}
use svcmetrics.Base.Tests.{leb, ◌==◌}

abbrev pub Int64 : Type 0
Int64 = ℕ

abbrev pub word_mod : ℕ
word_mod = 2 ^ 64

-- a + b, a - b and a * b of int64 values.
unfoldable pub add64 : Int64 → Int64 → Int64
add64 a b = (a + b) % word_mod

unfoldable pub sub64 : Int64 → Int64 → Int64
sub64 a b = (a + word_mod - b % word_mod) % word_mod

unfoldable pub mul64 : Int64 → Int64 → Int64
mul64 a b = (a * b) % word_mod

-- x <= 0 of an int64: zero, or the sign bit is set.
unfoldable pub not_positive : Int64 → Bool
not_positive w = w == 0 || leb (2 ^ 63) w

pub add64-lt : (a b : Int64) → add64 a b < word_mod
unfolding add64
add64-lt a b = omega arith

pub sub64-lt : (a b : Int64) → sub64 a b < word_mod
unfolding sub64
sub64-lt a b = omega arith

pub add64_assoc : (a b c : Int64) → add64 (add64 a b) c ≡ add64 a (add64 b c)
unfolding add64
add64_assoc a b c = omega arith

pub add64_comm : (a b : Int64) → add64 a b ≡ add64 b a
unfolding add64
add64_comm a b = omega arith

pub add64-sub64 : (a b : Int64) → a < word_mod → add64 b (sub64 a b) ≡ a
unfolding add64 sub64
add64-sub64 a b h = omega arith

pub sub64-sub64 : (a b : Int64) → b < word_mod → sub64 a (sub64 a b) ≡ b
unfolding sub64
sub64-sub64 a b h = omega arith

pub sub64_self : (a : Int64) → sub64 a a ≡ 0
unfolding sub64
sub64_self a = omega arith

-- Less taken away is more left.
pub sub64-sub64-add64 : (a b c : Int64) → sub64 a (sub64 b c) ≡ add64 (sub64 a b) c
unfolding add64 sub64
sub64-sub64-add64 a b c = omega arith

pub add64_zero : (a : Int64) → a < word_mod → add64 a 0 ≡ a
unfolding add64
add64_zero a h = omega arith

pub zero_add64 : (a : Int64) → a < word_mod → add64 0 a ≡ a
unfolding add64
zero_add64 a h = omega arith
