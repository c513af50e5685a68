-- ===== src/Token.antt =====
-- proto/token/token.go: the ingest key, its origin and its secret.
-- encoding/base64 is a parameter: its encoder, and its decoder with none for an error.
pub mod Split
pub mod Round
pub mod Toy
mod Tests
use maping.Base.{ℕ, Bool, true, false, ◌||◌, Option, none, some, [], ◌∷◌, ◌++◌, if◌then◌else◌, ◌==◌}
use maping.Base.Bytes.{Bytes, codes, is_empty}

pub record Base64 : Type 0 where
  pub encode : Bytes → Bytes
  pub decode : Bytes → Option Bytes

-- "mk_live_"
abbrev pub prefix : Bytes
prefix = 109 ∷ 107 ∷ 95 ∷ 108 ∷ 105 ∷ 118 ∷ 101 ∷ 95 ∷ []

-- The byte of '.'.
abbrev pub dot : ℕ
dot = 46

-- strings.HasPrefix, with what follows the prefix.
unfoldable pub strip : Bytes → Bytes → Option Bytes
strip [] s = some s
strip (p ∷ ps) [] = none
strip (p ∷ ps) (c ∷ s) = if p == c then strip ps s else none

-- The two sides of the first '.', if there is one.
unfoldable pub split_dot : Bytes → Option (Bytes × Bytes)
split_dot [] = none
split_dot (c ∷ s) =
    let rest = split_dot s in
    if c == dot then some ([], s) else elim rest [ none ↦ none | some (l, r) ↦ some (c ∷ l, r) ]

unfoldable pub decode_plain : Bytes → Option (Bytes × Bytes)
decode_plain body = if is_empty body then none else some ([], body)

module _ (b64 : Base64) where
  unfoldable pub encode : Bytes → Bytes → Bytes
  encode origin secret =
      if is_empty origin then prefix ++ secret else prefix ++ (b64.encode origin ++ (dot ∷ secret))

  unfoldable pub decode_structured : Bytes → Bytes → Option (Bytes × Bytes)
  decode_structured origin_b64 sec = elim (b64.decode origin_b64) [
    | none ↦ none
    | some raw ↦ if is_empty sec then none else some (raw, sec)
  ]

  -- The origin and the secret, or none where `ok` is false.
  unfoldable pub decode : Bytes → Option (Bytes × Bytes)
  decode tok = if is_empty tok then none else elim (strip prefix tok) [
    | none ↦ decode_plain tok
    | some body ↦ elim (split_dot body) [
      | none ↦ decode_plain body
      | some (l, r) ↦ decode_structured l r
    ]
  ]
