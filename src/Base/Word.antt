-- ===== src/Base/Word.antt =====
-- Unsigned machine words as numbers below a power of two, with the wrap-around written out.
use Prim.Native.Nat.{ℕ, ◌+◌, ◌-◌, ◌<◌, ◌%◌, ◌^◌}
use mathlib.Core.Path.{◌≡◌}
use native.Mathlib.Omega.{arith}

abbrev pub u64_mod : ℕ
u64_mod = 2 ^ 64

abbrev pub u32_mod : ℕ
u32_mod = 2 ^ 32

-- Go's `a + b` and `a - b` on uint64.
unfoldable pub add64 : ℕ → ℕ → ℕ
add64 a b = (a + b) % u64_mod

unfoldable pub sub64 : ℕ → ℕ → ℕ
sub64 a b = (a + u64_mod - b) % u64_mod

pub add64-lt : (a b : ℕ) → add64 a b < u64_mod
unfolding add64
add64-lt a b = omega arith

pub add64_exact : (a b : ℕ) → a + b < u64_mod → add64 a b ≡ a + b
unfolding add64
add64_exact a b h = omega arith

pub add64_comm : (a b : ℕ) → add64 a b ≡ add64 b a
unfolding add64
add64_comm a b = omega arith

pub add64_assoc : (a b c : ℕ) → add64 (add64 a b) c ≡ add64 a (add64 b c)
unfolding add64
add64_assoc a b c = omega arith

pub add64-zero : (a : ℕ) → a < u64_mod → add64 a 0 ≡ a
unfolding add64
add64-zero a h = omega arith

pub zero-add64 : (a : ℕ) → a < u64_mod → add64 0 a ≡ a
unfolding add64
zero-add64 a h = omega arith

pub sub64_self : (a : ℕ) → a < u64_mod → sub64 a a ≡ 0
unfolding sub64
sub64_self a h = omega arith
