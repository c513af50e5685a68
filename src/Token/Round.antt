-- ===== src/Token/Round.antt =====
-- A key, written and read.
use maping.Base.{◌≡◌, refl, ◌∙◌, false, Option, none, some, [], ◌∷◌, ◌++◌, arith, inl, inr, ◌⊎◌}
use maping.Base.Bytes.{Bytes, is_empty}
use maping.Token.{
  Base64, prefix, dot, strip, split_dot, decode_plain, decode_structured, encode, decode,
}
use maping.Token.Split.{strip-append, NoDot, split_dot-append, split_dot-none}

module _ (b64 : Base64) where
  -- What the decoder answers for a text behind the prefix.
  decode_body : Bytes → Option (Bytes × Bytes)
  decode_body body = elim (split_dot body) [
    | none ↦ decode_plain body
    | some (l, r) ↦ decode_structured b64 l r
  ]

  decode-prefix : (body : Bytes) → decode b64 (prefix ++ body) ≡ decode_body body
  unfolding decode decode_body
  decode-prefix body = rw (strip-append prefix body) refl

  -- Reading a key that was written gives back its origin and its secret, for any secret that is
  -- not empty, and has no '.' if the key has no origin. Of base64url: what is encoded decodes to
  -- itself, and has no '.'.
  pub decode-encode :
      (origin secret : Bytes)
      → ((s : Bytes) → b64.decode (b64.encode s) ≡ some s)
      → ((s : Bytes) → NoDot (b64.encode s))
      → is_empty secret ≡ false
      → (is_empty origin ≡ false) ⊎ NoDot secret
      → decode b64 (encode b64 origin secret) ≡ some (origin, secret)
  unfolding encode decode_body decode_structured decode_plain
  decode-encode [] secret back clean h (inl e) = cc e
  decode-encode [] secret back clean h (inr d) =
      decode-prefix secret ∙ rw (split_dot-none secret d, decode_body) (rw (h, decode_plain) refl)
  decode-encode (c ∷ o) secret back clean h some_ =
      decode-prefix (b64.encode (c ∷ o) ++ (dot ∷ secret))
      ∙ rw (split_dot-append (b64.encode (c ∷ o)) secret (clean (c ∷ o)), decode_body)
          (rw (back (c ∷ o), decode_structured) (rw h refl))

  -- A key that is accepted has a secret, and without the prefix it is its own secret.
  pub decode_lem :
      (tok origin secret : Bytes)
      → decode b64 tok ≡ some (origin, secret)
      → (is_empty secret ≡ false) × (strip prefix tok ≡ none → (origin ≡ []) × (secret ≡ tok))
  unfolding decode decode_plain decode_structured
  decode_lem tok origin secret e = ground arith
