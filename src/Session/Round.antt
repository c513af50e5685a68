-- ===== src/Session/Round.antt =====
-- A session cookie, written and read back.
use maping.Base.{◌≡◌, refl, true, some, [], ◌∷◌}
use maping.Base.Bytes.{Bytes}
use maping.Base.Int.{ℤ}
use maping.Base.Text.{join, split_on, Without, split_on_four, eq→same_bytes}
use maping.Token.{Base64}
use maping.Token.Split.{NoDot, split_dot-append}
use maping.Session.{
  Instant, Session, Decimal, after, unix, expires, payload_of, encode, parse_parts, verify,
  split_value, decode,
}

-- What is used of base64url, and of the printer and the parser of numbers.
pub record CodecLaws (b64 : Base64) (dec : Decimal) : Type 0 where
  pub back : (s : Bytes) → b64.decode (b64.encode s) ≡ some s
  pub no_dot : (s : Bytes) → NoDot (b64.encode s)
  pub parse_back : (n : ℤ) → dec.parse_int (dec.format_int n) ≡ some n
  pub no_bar : (n : ℤ) → Without 124 (dec.format_int n)

module _ (b64 : Base64) (dec : Decimal) (mac : Bytes → Bytes) where
  payload_parts :
      (s : Session)
      → CodecLaws b64 dec
      → Without 124 s.org_id
      → Without 124 s.member_id
      → Without 124 s.role
      → split_on 124 (payload_of b64 dec mac s)
        ≡ s.org_id ∷ s.member_id ∷ s.role ∷ dec.format_int s.exp.sec ∷ []
  unfolding payload_of join
  payload_parts s laws o m r =
      split_on_four 124 s.org_id s.member_id s.role (dec.format_int s.exp.sec) o m r
        (laws.no_bar s.exp.sec)

  -- A cookie that was written for a session without '|' in its fields, and is read before the
  -- session ends, gives that session back with the end cut to its second; by the laws of base64url
  -- and of decimal numbers.
  pub session_back :
      (s : Session) (now : Instant)
      → CodecLaws b64 dec
      → Without 124 s.org_id
      → Without 124 s.member_id
      → Without 124 s.role
      → after (unix s.exp.sec) now ≡ true
      → decode b64 dec mac (encode b64 dec mac s) now ≡ some (record s { exp = unix s.exp.sec })
  unfolding decode encode split_value verify expires parse_parts unix
  session_back s now laws o m r live =
      let p = payload_of b64 dec mac s in
      rw (split_dot-append (b64.encode p) (b64.encode (mac p)) (laws.no_dot p), split_value)
        (rw (laws.back p, laws.back (mac p), verify)
          (rw (eq→same_bytes (mac p) (mac p) refl) (
            rw (payload_parts s laws o m r, parse_parts)
              (rw (laws.parse_back s.exp.sec, expires) (rw live refl)))))
