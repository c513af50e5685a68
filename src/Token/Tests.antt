-- ===== src/Token/Tests.antt =====
-- Keys at concrete inputs.
use maping.Base.{◌≡◌, refl, ap, some, [], ◌∷◌, inl}
use maping.Base.Bytes.{Bytes}
use maping.Token.{encode, decode, strip, decode_plain}
use maping.Token.Toy.{toy, half-odd, odd-NoDot}
use maping.Token.Round.{decode-encode}

-- The secret has a '.', which an origin makes harmless.
decode-encode_example :
    decode toy (encode toy (104 ∷ 116 ∷ []) (115 ∷ 46 ∷ 115 ∷ []))
    ≡ some (104 ∷ 116 ∷ [], 115 ∷ 46 ∷ 115 ∷ [])
decode-encode_example =
    decode-encode toy (104 ∷ 116 ∷ []) (115 ∷ 46 ∷ 115 ∷ []) (λ s. ap some (half-odd s)) odd-NoDot
      refl (inl refl)

-- "dev"
abbrev dev : Bytes
dev = 100 ∷ 101 ∷ 118 ∷ []

legacy : decode toy dev ≡ some ([], dev)
unfolding decode decode_plain strip
legacy = refl
