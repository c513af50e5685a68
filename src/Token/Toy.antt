-- ===== src/Token/Toy.antt =====
-- A toy base64 for runs at concrete inputs: the bytes of its texts are all odd.
use maping.Base.{◌+◌, ◌*◌, ◌/◌, ◌≡◌, refl, some, [], ◌∷◌, arith}
use maping.Base.Bytes.{Bytes}
use maping.Token.{Base64}
use maping.Token.Split.{NoDot}

abbrev odd : Bytes → Bytes
odd [] = []
odd (c ∷ s) = (2 * c + 1) ∷ odd s

abbrev half : Bytes → Bytes
half [] = []
half (c ∷ s) = (c / 2) ∷ half s

abbrev pub toy : Base64
toy = record { encode = odd; decode = λ s. some (half s) }

pub half-odd : (s : Bytes) → half (odd s) ≡ s
half-odd [] = refl
half-odd (c ∷ s) = let same : (2 * c + 1) / 2 ≡ c = omega arith in rw (same, half-odd s) refl

pub odd-NoDot : (s : Bytes) → NoDot (odd s)
odd-NoDot [] = tt
odd-NoDot (c ∷ s) = (λ e. omega (arith, e), odd-NoDot s)
