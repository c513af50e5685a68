-- ===== src/Base/Text.antt =====
-- The functions of Go's package strings that the code calls, on bytes.
use Prim.Native.Nat.{ℕ, zero, suc, ◌-◌}
use mathlib.Core.Bool.{Bool, true, false}
use mathlib.Core.Logic.{◌≢◌, inl, inr}
use mathlib.Core.List.{List, [], ◌∷◌, ◌++◌}
use mathlib.Core.Path.{◌≡◌, refl, ap}
use native.Mathlib.Omega.{arith}
use maping.Base.Bytes.{Bytes, bytes_discrete}
use maping.Base.Lists.{length, take, drop, All}
use maping.Base.Tests.{leb, ◌==◌, if◌then◌else◌, Bool-cases}

-- strings.Join
unfoldable pub join : List Bytes → Bytes → Bytes
join [] separator = []
join (s ∷ []) separator = s
join (s ∷ t ∷ ss) separator = s ++ (separator ++ join (t ∷ ss) separator)

unfoldable pub cons_first : ℕ → List Bytes → List Bytes
cons_first c [] = (c ∷ []) ∷ []
cons_first c (w ∷ ws) = (c ∷ w) ∷ ws

-- strings.Split at a separator of one byte.
unfoldable pub split_on : ℕ → Bytes → List Bytes
split_on separator [] = [] ∷ []
split_on separator (c ∷ s) =
    let rest = split_on separator s in if c == separator then [] ∷ rest else cons_first c rest

unfoldable pub same_bytes : Bytes → Bytes → Bool
same_bytes a b = elim (bytes_discrete a b) [ yes _ ↦ true | no _ ↦ false ]

-- strings.HasSuffix
unfoldable pub has_suffix : Bytes → Bytes → Bool
has_suffix s suffix =
    if leb (length suffix) (length s)
    then same_bytes (drop (length s - length suffix) s) suffix
    else false

abbrev pub Without : ℕ → Bytes → Type 0
Without c s = All (λ (b : ℕ). b ≢ c) s

pub same_bytes→eq : (a b : Bytes) → same_bytes a b ≡ true → a ≡ b
unfolding same_bytes
same_bytes→eq a b h = ground arith

pub eq→same_bytes : (a b : Bytes) → a ≡ b → same_bytes a b ≡ true
unfolding same_bytes
eq→same_bytes a b h = ground arith

take-drop : (n : ℕ) (s : Bytes) → s ≡ take n s ++ drop n s
take-drop zero s = refl
take-drop (suc n) [] = refl
take-drop (suc n) (c ∷ s) = ap (λ (t : Bytes). c ∷ t) (take-drop n s)

pub has_suffix_lem :
    (s suffix : Bytes) → has_suffix s suffix ≡ true → (p : Bytes) × (s ≡ p ++ suffix)
unfolding has_suffix
has_suffix_lem s suffix h = elim (Bool-cases (leb (length suffix) (length s))) [
  | inl e ↦
      let n = length s - length suffix in
      let h' : same_bytes (drop n s) suffix ≡ true = rw e at h in
      (take n s, rw (same_bytes→eq (drop n s) suffix h') at (take-drop n s))
  | inr e ↦ let h' : false ≡ true = rw e at h in cc h'
]

pub split_on_one : (c : ℕ) (w : Bytes) → Without c w → split_on c w ≡ w ∷ []
unfolding split_on cons_first
split_on_one c [] h = refl
split_on_one c (b ∷ w) (h, hs) = rw (split_on_one c w hs) (ground arith)

pub split_on_first :
    (c : ℕ) (w s : Bytes) → Without c w → split_on c (w ++ c ∷ s) ≡ w ∷ split_on c s
unfolding split_on cons_first
split_on_first c [] s h = ground arith
split_on_first c (b ∷ w) s (h, hs) = rw (split_on_first c w s hs) (ground arith)

-- Four parts between separators.
pub split_on_four :
    (c : ℕ) (w x y z : Bytes)
    → Without c w
    → Without c x
    → Without c y
    → Without c z
    → split_on c (w ++ (c ∷ (x ++ (c ∷ (y ++ (c ∷ z)))))) ≡ w ∷ x ∷ y ∷ z ∷ []
split_on_four c w x y z hw hx hy hz = rw (split_on_first c w (x ++ (c ∷ (y ++ (c ∷ z)))) hw) (
    rw (split_on_first c x (y ++ (c ∷ z)) hx)
      (rw (split_on_first c y z hy) (rw (split_on_one c z hz) refl)))
