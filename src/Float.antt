-- ===== src/Float.antt =====
-- float64 and the functions of Go's package math, which are not code of the repository: a type
-- with its operations, taken as a parameter by whatever computes with floats.
use maping.Base.{ℕ, ◌≡◌, Bool, false}
use maping.Base.Int.{ℤ}

pub record Float : Type 1 where
  pub F : Type 0
  -- `lit a b` is the constant a / b.
  pub lit : ℕ → ℕ → F
  pub is_nan : F → Bool
  -- Go's < and <=, both false at a NaN.
  pub lt : F → F → Bool
  pub le : F → F → Bool
  pub add : F → F → F
  pub sub : F → F → F
  pub mul : F → F → F
  pub div : F → F → F
  -- math.Log, math.Ceil, math.Round, math.Pow
  pub log : F → F
  pub ceil : F → F
  pub round : F → F
  pub pow : F → F → F
  -- float64(n) of an unsigned and of a signed integer
  pub of_ℕ : ℕ → F
  pub of_ℤ : ℤ → F
  -- int(f) and uint64(f); `fits_int` holds where int(f) is specified.
  pub to_int : F → ℤ
  pub to_uint64 : F → ℕ
  pub fits_int : F → Bool

-- a ≤ b between numbers that are no NaN.
abbrev pub Le : (fl : Float) → fl.F → fl.F → Type 0
Le fl a b = (fl.is_nan a ≡ false) × (fl.is_nan b ≡ false) × (fl.lt b a ≡ false)
