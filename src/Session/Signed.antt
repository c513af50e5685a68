-- ===== src/Session/Signed.antt =====
-- Which cookies are accepted.
use maping.Base.{
  ◌≡◌, ◌⊎◌, refl, ap, inl, inr, true, Option, none, some, List, [], ◌∷◌, Bool-cases, Option-cases,
}
use maping.Base.Bytes.{Bytes}
use maping.Base.Int.{ℤ}
use maping.Base.Text.{split_on, same_bytes, same_bytes→eq}
use maping.Token.{Base64, split_dot}
use maping.Session.{
  Instant, Session, Decimal, after, unix, expires, parse_parts, verify, split_value, decode,
}

-- The session that a payload of these four parts carries.
pub carried : Bytes → Bytes → Bytes → ℤ → Session
carried org member role n = record { org_id = org; member_id = member; role = role; exp = unix n }

expires_lem :
    (now : Instant) (org member role : Bytes) (end : Option ℤ) (s : Session)
    → expires now org member role end ≡ some s
    → (n : ℤ) × (end ≡ some n) × (after (unix n) now ≡ true) × (s ≡ carried org member role n)
unfolding expires carried
expires_lem now org member role none s h = cc h
expires_lem now org member role (some n) s h = elim (Bool-cases (after (unix n) now)) [
  | inl e ↦ let h' : some (carried org member role n) ≡ some s = rw e at h in (n, refl, e, cc h')
  | inr e ↦ let h' : ◌≡◌ {A = Option Session} none (some s) = rw e at h in cc h'
]

module _ (b64 : Base64) (dec : Decimal) (mac : Bytes → Bytes) where
  -- The four parts of a payload that carry a session which has not ended.
  pub Carries : Instant → List Bytes → Session → Type 0
  Carries now parts s =
      (org member role exp : Bytes) × (n : ℤ) × (parts ≡ org ∷ member ∷ role ∷ exp ∷ [])
      × (dec.parse_int exp ≡ some n)
      × (after (unix n) now ≡ true)
      × (s ≡ carried org member role n)

  parse_parts-Carries :
      (now : Instant) (parts : List Bytes) (s : Session)
      → parse_parts b64 dec mac now parts ≡ some s
      → Carries now parts s
  unfolding parse_parts Carries
  parse_parts-Carries now [] s h = cc h
  parse_parts-Carries now (a ∷ []) s h = cc h
  parse_parts-Carries now (a ∷ b ∷ []) s h = cc h
  parse_parts-Carries now (a ∷ b ∷ c ∷ []) s h = cc h
  parse_parts-Carries now (a ∷ b ∷ c ∷ d ∷ []) s h =
      let (n, p, live, same) = expires_lem now a b c (dec.parse_int d) s h in
      (a, b, c, d, n, refl, p, live, same)
  parse_parts-Carries now (a ∷ b ∷ c ∷ d ∷ e ∷ fs) s h = cc h

  -- Signed text: the payload and its MAC, each in base64url, with a dot between.
  pub IsSigned : Bytes → Bytes → Type 0
  IsSigned value payload =
      (l r : Bytes) × (split_dot value ≡ some (l, r))
      × (b64.decode l ≡ some payload)
      × (b64.decode r ≡ some (mac payload))

  verify_lem :
      (now : Instant) (l r : Option Bytes) (s : Session)
      → verify b64 dec mac now l r ≡ some s
      → (payload : Bytes) × (l ≡ some payload)
        × (r ≡ some (mac payload))
        × Carries now (split_on 124 payload) s
  unfolding verify
  verify_lem now none r s h = cc h
  verify_lem now (some payload) none s h = cc h
  verify_lem now (some payload) (some got) s h = elim (Bool-cases (same_bytes got (mac payload))) [
    | inl e ↦
        let h' : parse_parts b64 dec mac now (split_on 124 payload) ≡ some s = rw e at h in
        (
          payload,
          refl,
          ap some (same_bytes→eq got (mac payload) e),
          parse_parts-Carries now (split_on 124 payload) s h',
        )
    | inr e ↦ let h' : ◌≡◌ {A = Option Session} none (some s) = rw e at h in cc h'
  ]

  split_value_lem :
      (value : Bytes) (now : Instant) (sides : Option (Bytes × Bytes)) (s : Session)
      → split_dot value ≡ sides
      → split_value b64 dec mac now sides ≡ some s
      → (payload : Bytes) × IsSigned value payload × Carries now (split_on 124 payload) s
  unfolding split_value IsSigned
  split_value_lem value now none s e h = cc h
  split_value_lem value now (some (l, r)) s e h =
      let (payload, p, q, c) = verify_lem now (b64.decode l) (b64.decode r) s h in
      (payload, (l, r, e, p, q), c)

  -- A cookie is either answered with the one error, or it is signed: behind its first dot stands
  -- the MAC of what stands before it, that payload is the session answered, in four parts, and the
  -- session has not ended.
  pub decode-IsSigned :
      (value : Bytes) (now : Instant)
      → (decode b64 dec mac value now ≡ none)
        ⊎ (s : Session) × (payload : Bytes) × (decode b64 dec mac value now ≡ some s)
          × IsSigned value payload
          × Carries now (split_on 124 payload) s
  unfolding decode
  decode-IsSigned value now = elim (Option-cases (decode b64 dec mac value now)) [
    | inl e ↦ inl e
    | inr (s, e) ↦
        let (payload, signed, carries) = split_value_lem value now (split_dot value) s refl e in
        inr (s, payload, e, signed, carries)
  ]
