-- ===== src/Token/Split.antt =====
-- The prefix and the first '.'.
use maping.Base.{◌≡◌, ◌≢◌, refl, none, some, [], ◌∷◌, ◌++◌, All, arith}
use maping.Base.Bytes.{Bytes}
use maping.Token.{strip, split_dot, dot}

pub strip-append : (p s : Bytes) → strip p (p ++ s) ≡ some s
unfolding strip
strip-append [] s = refl
strip-append (c ∷ p) s = ground (arith, strip-append p s)

-- No byte of the text is a '.'.
abbrev pub NoDot : Bytes → Type 0
NoDot s = All (λ c. c ≢ dot) s

pub split_dot-append : (l r : Bytes) → NoDot l → split_dot (l ++ (dot ∷ r)) ≡ some (l, r)
unfolding split_dot
split_dot-append [] r h = refl
split_dot-append (c ∷ l) r h = ground (arith, split_dot-append l r h.1, h.0)

pub split_dot-none : (s : Bytes) → NoDot s → split_dot s ≡ none
unfolding split_dot
split_dot-none [] h = refl
split_dot-none (c ∷ s) h = ground (arith, split_dot-none s h.1, h.0)
