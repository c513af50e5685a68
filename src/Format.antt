-- ===== src/Format.antt =====
-- server/internal/web/chrome_format.go: values as text on the dashboard's pages. Go's package
-- strconv is a parameter.
pub mod Digits
mod Tests
use maping.Base.{ℕ, ◌^◌, Bool, true, false, List, [], ◌∷◌, ◌++◌, ◌||◌, if◌then◌else◌}
use maping.Base.Bytes.{Bytes, codes, bytes_discrete}
use maping.Float.{Float}

-- FormatFloat with the formats 'f' and 'g' and a precision, and FormatUint in base ten, which is
-- also Itoa of a number that is not negative.
pub record Strconv (F : Type 0) : Type 0 where
  pub fixed : F → ℕ → Bytes
  pub general : F → ℕ → Bytes
  pub format_uint : ℕ → Bytes

-- strings.TrimSuffix
unfoldable pub trim_suffix : Bytes → Bytes → Bytes
trim_suffix [] suffix = []
trim_suffix (c ∷ s) suffix =
    let rest = trim_suffix s suffix in
    elim (bytes_discrete (c ∷ s) suffix) [ yes _ ↦ [] | no _ ↦ c ∷ rest ]

-- The signs × and — in UTF-8.
abbrev pub times_sign : Bytes
times_sign = 195 ∷ 151 ∷ []

abbrev pub long_dash : Bytes
long_dash = 226 ∷ 128 ∷ 148 ∷ []

module _ (fl : Float) (go : Strconv fl.F) where
  open fl use {F, lit, lt, le, mul, div, of_ℕ}
  open go use {fixed, general, format_uint}

  unfoldable pub fmt_rate : F → Bytes
  fmt_rate r =
      if le (lit 1000 1) r
      then trim_suffix (fixed (div r (lit 1000 1)) 1) (codes ".0") ++ codes "k"
      else if le (lit 1 1) r
      then fixed r 0
      else if lt (lit 0 1) r
      then general r 2
      else codes "0"

  unfoldable pub fmt_count : ℕ → Bytes
  fmt_count c =
      let f = of_ℕ c in
      if le (lit 1000000 1) f
      then fixed (div f (lit 1000000 1)) 1 ++ codes "M"
      else if le (lit 1000 1) f
      then fixed (div f (lit 1000 1)) 1 ++ codes "k"
      else format_uint c

  unfoldable pub fmt_pct_d : F → Bytes
  fmt_pct_d f =
      let dec = if le (lit 1 10) f then 1 else 2 in fixed (mul f (lit 100 1)) dec ++ codes "%"

  unfoldable pub fmt_ms_val : F → Bytes
  fmt_ms_val sec =
      let ms = mul sec (lit 1000 1) in
      if le (lit 1000 1) ms
      then fixed (div ms (lit 1000 1)) 2
      else if lt ms (lit 10 1)
      then fixed ms 1
      else fixed ms 0

  unfoldable pub fmt_ms_unit : F → Bytes
  fmt_ms_unit sec = if le (lit 1000 1) (mul sec (lit 1000 1)) then codes "s" else codes "ms"

  unfoldable pub fmt_ms_full : F → Bytes
  fmt_ms_full sec = fmt_ms_val sec ++ codes " " ++ fmt_ms_unit sec

  unfoldable pub fmt_cores : F → Bytes
  fmt_cores c = fixed c 2 ++ codes " cores"

  unfoldable pub fmt_bytes : F → Bytes
  fmt_bytes avg =
      if le (lit (2 ^ 30) 1) avg
      then trim_suffix (fixed (div avg (lit (2 ^ 30) 1)) 2) (codes ".00") ++ codes " GB"
      else if le (lit (2 ^ 20) 1) avg
      then trim_suffix (fixed (div avg (lit (2 ^ 20) 1)) 1) (codes ".0") ++ codes " MB"
      else if le (lit (2 ^ 10) 1) avg
      then trim_suffix (fixed (div avg (lit (2 ^ 10) 1)) 1) (codes ".0") ++ codes " KB"
      else fixed avg 0 ++ codes " B"

  unfoldable pub fmt_compact : F → Bytes
  fmt_compact f =
      if le (lit (10 ^ 9) 1) f
      then trim_suffix (fixed (div f (lit (10 ^ 9) 1)) 1) (codes ".0") ++ codes "bn"
      else if le (lit (10 ^ 6) 1) f
      then trim_suffix (fixed (div f (lit (10 ^ 6) 1)) 1) (codes ".0") ++ codes "M"
      else if le (lit 1000 1) f
      then trim_suffix (fixed (div f (lit 1000 1)) 1) (codes ".0") ++ codes "k"
      else fixed f 0

  unfoldable pub fmt_spread : F → F → Bytes
  fmt_spread p50 p95 =
      if le p50 (lit 0 1) || le p95 (lit 0 1)
      then long_dash
      else fixed (div p95 p50) 2 ++ times_sign

  -- server/internal/web/verdict.go
  unfoldable pub fmt_ratio : F → Bytes
  fmt_ratio x = fixed x 1 ++ times_sign
