-- ===== src/Session.antt =====
-- server/internal/auth/session.go: the signed cookie of a dashboard session. The MAC under the
-- signer's key, base64 and the decimal printer and parser of strconv are parameters.
pub mod Round
pub mod Signed
mod Tests
use maping.Base.{
  ℕ, Bool, true, false, not, ◌&&◌, ◌||◌, Option, none, some, List, [], ◌∷◌, ◌++◌, length, ltb, ◌==◌,
  if◌then◌else◌,
}
use maping.Base.Bytes.{Bytes}
use maping.Base.Int.{ℤ, pos, ltb_ℤ}
use maping.Base.Text.{join, split_on, same_bytes}
use maping.Token.{Base64, split_dot}

-- A time.Time as seconds since the epoch and nanoseconds within the second.
pub record Instant : Type 0 where
  pub sec : ℤ
  pub nsec : ℕ

pub record Session : Type 0 where
  pub org_id : Bytes
  pub member_id : Bytes
  pub role : Bytes
  pub exp : Instant

-- FormatInt and ParseInt in base ten.
pub record Decimal : Type 0 where
  pub format_int : ℤ → Bytes
  pub parse_int : Bytes → Option ℤ

unfoldable pub after : Instant → Instant → Bool
after a b = ltb_ℤ b.sec a.sec || not (ltb_ℤ a.sec b.sec) && ltb b.nsec a.nsec

-- The key, or the error of a key that is too short.
unfoldable pub new_signer : Bytes → Option Bytes
new_signer key = if ltb (length key) 32 then none else some key

-- time.Unix(expUnix, 0)
unfoldable pub unix : ℤ → Instant
unix seconds = record { sec = seconds; nsec = 0 }

unfoldable pub expires : Instant → Bytes → Bytes → Bytes → Option ℤ → Option Session
expires now org member role none = none
expires now org member role (some seconds) =
    if not (after (unix seconds) now)
    then none
    else some (record { org_id = org; member_id = member; role = role; exp = unix seconds })

module _ (b64 : Base64) (dec : Decimal) (mac : Bytes → Bytes) where
  unfoldable pub payload_of : Session → Bytes
  payload_of s = join (s.org_id ∷ s.member_id ∷ s.role ∷ dec.format_int s.exp.sec ∷ []) (124 ∷ [])

  unfoldable pub encode : Session → Bytes
  encode s = let p = payload_of s in b64.encode p ++ 46 ∷ b64.encode (mac p)

  unfoldable pub parse_parts : Instant → List Bytes → Option Session
  parse_parts now (org ∷ member ∷ role ∷ exp ∷ []) = expires now org member role (dec.parse_int exp)
  parse_parts now [] = none
  parse_parts now (a ∷ []) = none
  parse_parts now (a ∷ b ∷ []) = none
  parse_parts now (a ∷ b ∷ c ∷ []) = none
  parse_parts now (a ∷ b ∷ c ∷ d ∷ e ∷ fs) = none

  unfoldable pub verify : Instant → Option Bytes → Option Bytes → Option Session
  verify now none got_mac = none
  verify now (some payload) none = none
  verify now (some payload) (some got_mac) =
      if not (same_bytes got_mac (mac payload))
      then none
      else parse_parts now (split_on 124 payload)

  unfoldable pub split_value : Instant → Option (Bytes × Bytes) → Option Session
  split_value now none = none
  split_value now (some (l, r)) = verify now (b64.decode l) (b64.decode r)

  -- none is errBadSession, the only error.
  unfoldable pub decode : Bytes → Instant → Option Session
  decode value now = split_value now (split_dot value)
