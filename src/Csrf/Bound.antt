-- ===== src/Csrf/Bound.antt =====
-- A token is bound to its tenant.
use maping.Base.{
  ◌≡◌, ◌≢◌, refl, ◌∙◌, ◌↔◌, inl, inr, true, false, ◌==◌, none, some, [], ◌∷◌, ◌++◌, Bool-cases,
  arith,
}
use maping.Base.Bytes.{Bytes, is_empty, bytes_discrete}
use maping.Base.Text.{Without, eq→same_bytes}
use maping.Token.{Base64, strip}
use maping.Token.Split.{NoDot, split_dot-append}
use maping.Csrf.{issue, names_tenant, verify_parts, verify_sides, verify}

-- Of two texts without '|', only the one in front of a '|' is found there.
strip_other :
    (t u rest : Bytes)
    → Without 124 t
    → Without 124 u
    → t ≢ u
    → strip (t ++ 124 ∷ []) (u ++ (124 ∷ rest)) ≡ none
unfolding strip
strip_other [] [] rest ht hu h = absurd (h refl)
strip_other [] (c ∷ u) rest ht (hc, hu) h = ground arith
strip_other (c ∷ t) [] rest (hc, ht) hu h = ground arith
strip_other (c ∷ t) (d ∷ u) rest (hc, ht) (hd, hu) h = elim (Bool-cases (c == d)) [
  | inl e ↦
      let same : c ≡ d = ground arith in rw e (strip_other t u rest ht hu (λ p. h (cc (p, same))))
  | inr e ↦ rw e refl
]

strip_same : (t rest : Bytes) → strip (t ++ 124 ∷ []) (t ++ (124 ∷ rest)) ≡ some rest
unfolding strip
strip_same [] rest = refl
strip_same (c ∷ t) rest = elim (Bool-cases (c == c)) [
  | inl e ↦ rw e (strip_same t rest)
  | inr e ↦ ground arith
]

module _ (b64 : Base64) (mac : Bytes → Bytes)
    (back : (s : Bytes) → b64.decode (b64.encode s) ≡ some s)
    (no_dot : (s : Bytes) → NoDot (b64.encode s)) where
  verify-issue_parts :
      (u t nonce : Bytes)
      → verify b64 mac u (issue b64 mac t nonce)
        ≡ names_tenant b64 mac u (t ++ (124 ∷ b64.encode nonce))
  unfolding verify issue verify_sides verify_parts
  verify-issue_parts u t nonce =
      let p = t ++ (124 ∷ b64.encode nonce) in
      rw (split_dot-append (b64.encode p) (b64.encode (mac p)) (no_dot p), verify_sides)
        (rw (back p, back (mac p), verify_parts) (rw (eq→same_bytes (mac p) (mac p) refl) refl))

  -- A token that was issued for one tenant is good for that tenant and for no other, where neither
  -- name has a '|' and the nonce's text is not empty; by the laws of base64url.
  pub verify-issue :
      (u t nonce : Bytes)
      → Without 124 u
      → Without 124 t
      → is_empty (b64.encode nonce) ≡ false
      → (verify b64 mac u (issue b64 mac t nonce) ≡ true) ↔ (u ≡ t)
  unfolding names_tenant
  verify-issue u t nonce hu ht h = (
    λ e. elim (bytes_discrete u t) [
      | yes p ↦ p
      | no n ↦
          let none_found = strip_other u t (b64.encode nonce) hu ht n in
          let refused : verify b64 mac u (issue b64 mac t nonce) ≡ false =
            verify-issue_parts u t nonce ∙ rw (none_found, names_tenant) refl in
          ground (arith, e, refused)
    ],
    λ e. rw e (
        verify-issue_parts t t nonce
        ∙ rw (strip_same t (b64.encode nonce), names_tenant) (rw h refl)),
  )
