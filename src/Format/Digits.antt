-- ===== src/Format/Digits.antt =====
-- A printer of numbers for runs at concrete inputs.
use maping.Base.{◌%◌, ◌+◌, [], ◌∷◌}
use maping.Base.Bytes.{codes}
use maping.Format.{Strconv}
use maping.Sketch.Whole.{whole}

-- The last digit of a number, with a point and zeros for a precision above zero.
abbrev pub last_digit : Strconv whole.F
last_digit = record {
  fixed = λ x p. (48 + x % 10) ∷ codes ".0";
  general = λ x p. (48 + x % 10) ∷ [];
  format_uint = λ n. (48 + n % 10) ∷ [];
}
