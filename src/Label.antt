-- ===== src/Label.antt =====
-- client/series.go, `sanitizeErrorClass` and `asciiUpperAlnum`: the normal form of error labels.
pub mod Tidy
pub mod Fixed
mod Tests
use maping.Base.{
  ℕ, ◌-◌, ◌+◌, Bool, true, false, ◌&&◌, ◌||◌, not, Option, none, some, List, [], ◌∷◌, ◌++◌, length,
  ltb, leb, ◌==◌, if◌then◌else◌,
}
use maping.Base.Bytes.{Bytes, is_empty}

unfoldable pub max_error_class_len : ℕ
max_error_class_len = 64

abbrev pub underscore : ℕ
underscore = b'_'

unfoldable pub ascii_upper_alnum : ℕ → Option ℕ
ascii_upper_alnum c =
    if leb b'a' c && leb c b'z'
    then some (c - (b'a' - b'A'))
    else if (leb b'A' c && leb c b'Z') || (leb b'0' c && leb c b'9')
    then some c
    else none

-- One byte: what the builder holds afterwards, and `prevUnderscore`.
unfoldable pub write_byte : ℕ → Bytes → Bool → Bytes × Bool
write_byte c b prev_underscore = elim (ascii_upper_alnum c) [
  | some u ↦ (b ++ u ∷ [], false)
  | none ↦
      if ltb 0 (length b) && not prev_underscore
      then (b ++ underscore ∷ [], true)
      else (b, prev_underscore)
]

-- The loop of `sanitizeErrorClass`; it stops when the builder is full.
unfoldable pub sanitize_from : Bytes → Bytes → Bool → Bytes
sanitize_from [] b prev_underscore = b
sanitize_from (c ∷ s) b prev_underscore =
    let next = write_byte c b prev_underscore in
    let rest = sanitize_from s next.0 next.1 in
    if ltb (length b) max_error_class_len then rest else b

-- strings.TrimRight(s, "_")
unfoldable pub trim_right : Bytes → Bytes
trim_right [] = []
trim_right (c ∷ s) =
    let rest = trim_right s in if c == underscore && is_empty rest then [] else c ∷ rest

unfoldable pub sanitize_error_class : Bytes → Bytes
sanitize_error_class s = if is_empty s then [] else trim_right (sanitize_from s [] false)
