-- ===== src/Base/Int.antt =====
-- Signed integers over the native numbers, under the library's names (its ℤ stands on the unary ℕ).
-- Sums and orders go through the two parts of an integer, which are numbers that `omega` reads.
use Prim.Native.Nat.{ℕ, suc, pred, ◌+◌, ◌-◌, ◌≤◌, ◌<◌, ◌^◌}
use mathlib.Core.Bool.{Bool}
use mathlib.Core.Path.{◌≡◌, ap, sym, ◌∙◌}
use mathlib.Core.Logic.{◌≢◌}
use native.Mathlib.Decide.{ℕ_discrete}
use native.Mathlib.Omega.{arith}
use maping.Base.Tests.{ltb, leb, if◌then◌else◌}

-- `negsuc n` is -(n + 1).
pub data ℤ : Type 0 where
  pos : ℕ → ℤ
  negsuc : ℕ → ℤ

abbrev pub pos_part : ℤ → ℕ
pos_part (pos n) = n
pos_part (negsuc n) = 0

abbrev pub neg_part : ℤ → ℕ
neg_part (pos n) = 0
neg_part (negsuc n) = suc n

-- a - b, as an integer.
abbrev pub sub_ℕ : ℕ → ℕ → ℤ
sub_ℕ a b = if leb b a then pos (a - b) else negsuc (b - a - 1)

infixl 65 ◌+ℤ◌ ◌-ℤ◌
infix 50 ◌≤ℤ◌
unfoldable pub ◌+ℤ◌ : ℤ → ℤ → ℤ
a +ℤ b = sub_ℕ (pos_part a + pos_part b) (neg_part a + neg_part b)

unfoldable pub ◌-ℤ◌ : ℤ → ℤ → ℤ
a -ℤ b = sub_ℕ (pos_part a + neg_part b) (neg_part a + pos_part b)

abbrev pub ◌≤ℤ◌ : ℤ → ℤ → Type 0
a ≤ℤ b = pos_part a + neg_part b ≤ pos_part b + neg_part a

abbrev pub ltb_ℤ : ℤ → ℤ → Bool
ltb_ℤ a b = ltb (pos_part a + neg_part b) (pos_part b + neg_part a)

-- One lemma for each operation lets `omega` work with the operations shut, at any depth.
pub +ℤ_parts :
    (a b : ℤ)
    → pos_part (a +ℤ b) + neg_part a + neg_part b ≡ neg_part (a +ℤ b) + pos_part a + pos_part b
unfolding ◌+ℤ◌
+ℤ_parts a b = ground arith

pub -ℤ_parts :
    (a b : ℤ)
    → pos_part (a -ℤ b) + neg_part a + pos_part b ≡ neg_part (a -ℤ b) + pos_part a + neg_part b
unfolding ◌-ℤ◌
-ℤ_parts a b = ground arith

pub eq_of_parts : (a b : ℤ) → pos_part a + neg_part b ≡ pos_part b + neg_part a → a ≡ b
eq_of_parts a b h = ground arith

pos-ne-negsuc : (a b : ℕ) → pos a ≢ negsuc b
pos-ne-negsuc a b e = cc e

unfoldable pub ℤ_discrete : Discrete ℤ
unfolding ℕ_discrete pos-ne-negsuc
ℤ_discrete (pos a) (pos b) = elim (ℕ_discrete a b) [
  | yes e ↦ yes (ap pos e)
  | no ne ↦ no (λ e. ne (ap pos_part e))
]
ℤ_discrete (pos a) (negsuc b) = no (λ e. pos-ne-negsuc a b e)
ℤ_discrete (negsuc a) (pos b) = no (λ e. pos-ne-negsuc b a (sym e))
ℤ_discrete (negsuc a) (negsuc b) = elim (ℕ_discrete a b) [
  | yes e ↦ yes (ap negsuc e)
  | no ne ↦ no (λ e. ne (ap (λ z. pred (neg_part z)) e))
]

-- Go's `a + b` on int64, which wraps.
unfoldable pub add_int64 : ℤ → ℤ → ℤ
add_int64 a b =
    let s = a +ℤ b in
    if leb (2 ^ 63) (pos_part s)
    then s -ℤ pos (2 ^ 64)
    else if ltb (2 ^ 63) (neg_part s)
    then s +ℤ pos (2 ^ 64)
    else s

pub add_int64_exact : (a b : ℕ) → a + b < 2 ^ 63 → add_int64 (pos a) (pos b) ≡ pos (a + b)
unfolding add_int64 ◌+ℤ◌
add_int64_exact a b h = ground arith

pub ruleset int_laws = (arith, +ℤ_parts, -ℤ_parts, eq_of_parts)

pub sub_of_le : (a b : ℤ) → b ≤ℤ a → a -ℤ b ≡ pos (pos_part (a -ℤ b))
unfolding ◌-ℤ◌
sub_of_le a b h = ground arith

pub sub-add_cancel : (a b : ℤ) → b ≤ℤ a → a ≡ pos (pos_part (a -ℤ b)) +ℤ b
unfolding ◌+ℤ◌ ◌-ℤ◌
sub-add_cancel a b h = ground arith

pub add-sub_cancel : (a b : ℤ) → a +ℤ b -ℤ b ≡ a
unfolding ◌+ℤ◌ ◌-ℤ◌
add-sub_cancel a b = ground arith

pub sub_mono : (a b c : ℤ) → b ≤ℤ c → c ≤ℤ a → pos_part (c -ℤ b) < pos_part (a -ℤ b +ℤ pos 1)
unfolding ◌+ℤ◌ ◌-ℤ◌
sub_mono a b c h k = ground arith

pub add_bound : (a b : ℤ) (n : ℕ) → n < pos_part (a -ℤ b +ℤ pos 1) → pos n +ℤ b ≤ℤ a
unfolding ◌+ℤ◌ ◌-ℤ◌
add_bound a b n h = ground arith

pub add-ge : (b : ℤ) (n : ℕ) → b ≤ℤ pos n +ℤ b
unfolding ◌+ℤ◌
add-ge b n = ground arith

pub add_suc : (n : ℕ) (b : ℤ) → pos n +ℤ b +ℤ pos 1 ≡ pos (suc n) +ℤ b
unfolding ◌+ℤ◌
add_suc n b = ground arith

pub zero_add : (b : ℤ) → pos 0 +ℤ b ≡ b
unfolding ◌+ℤ◌
zero_add b = ground arith

pub add_injective : (m n : ℕ) (b : ℤ) → pos m +ℤ b ≡ pos n +ℤ b → m ≡ n
add_injective m n b e =
    ap pos_part (sym (add-sub_cancel (pos m) b) ∙ ap (λ z. z -ℤ b) e ∙ add-sub_cancel (pos n) b)

pub add_low : (b m : ℤ) (n : ℕ) → pos 0 ≤ℤ b +ℤ m → pos 0 ≤ℤ pos n +ℤ b +ℤ m
add_low b m n h = omega int_laws

pub add_high : (b c : ℤ) (m n : ℕ) → n < m → b +ℤ pos m ≤ℤ c → pos n +ℤ b +ℤ pos 1 ≤ℤ c
add_high b c m n h k = omega int_laws
