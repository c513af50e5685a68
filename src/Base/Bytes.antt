-- ===== src/Base/Bytes.antt =====
-- Go's strings as lists of bytes, with decided equality.
use Prim.Native.Nat.{ℕ}
use Prim.Native.Char.{code}
use Prim.Native.String.{String}
use mathlib.Core.List.{List, [], ◌∷◌}
use mathlib.Core.Bool.{Bool, true, false}
use mathlib.Core.Logic.{◌≢◌}
use mathlib.Core.Path.{◌≡◌, refl, sym}
use native.Mathlib.Decide.{ℕ_discrete}
use maping.Base.Assoc.{Key}

abbrev pub Bytes : Type 0
Bytes = List ℕ

-- The bytes of an ASCII literal.
abbrev pub codes : String → Bytes
codes String.[] = []
codes (String.◌∷◌ c s) = code c ∷ codes s

nil-ne-cons : (a : ℕ) (xs : Bytes) → [] ≢ a ∷ xs
nil-ne-cons a xs e = cc e

cons-dec :
    (a b : ℕ) (xs ys : Bytes)
    → Dec (a ≡ b)
    → Dec (xs ≡ ys)
    → Dec (◌≡◌ {A = Bytes} (a ∷ xs) (b ∷ ys))
cons-dec a b xs ys (yes p) (yes q) = yes (cc)
cons-dec a b xs ys (yes p) (no n) = no (λ e. n (cc))
cons-dec a b xs ys (no n) d = no (λ e. n (cc))

unfoldable pub bytes_discrete : Discrete Bytes
unfolding ℕ_discrete cons-dec nil-ne-cons
bytes_discrete [] [] = yes refl
bytes_discrete [] (b ∷ ys) = no (nil-ne-cons b ys)
bytes_discrete (a ∷ xs) [] = no (λ e. nil-ne-cons a xs (sym e))
bytes_discrete (a ∷ xs) (b ∷ ys) = cons-dec a b xs ys (ℕ_discrete a b) (bytes_discrete xs ys)

instance abbrev pub bytes_key : Key Bytes
bytes_key = record { dec = bytes_discrete }

abbrev pub is_empty : Bytes → Bool
is_empty [] = true
is_empty (c ∷ s) = false
