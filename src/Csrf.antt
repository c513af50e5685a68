-- ===== src/Csrf.antt =====
-- server/internal/web/csrf.go: the signed tokens of the dashboard's forms. The MAC, base64 and the
-- random nonce are parameters.
pub mod Bound
mod Tests
use maping.Base.{
  ℕ, Bool, true, false, not, ◌&&◌, Option, none, some, List, [], ◌∷◌, ◌++◌, length, ltb,
  if◌then◌else◌, is_some,
}
use maping.Base.Bytes.{Bytes, is_empty}
use maping.Base.Text.{same_bytes}
use maping.Token.{Base64, split_dot, strip}

-- The key, or nil without one.
unfoldable pub new_csrf : Bytes → Option Bytes
new_csrf key = if is_empty key then none else some key

module _ (b64 : Base64) (mac : Bytes → Bytes) where
  unfoldable pub issue : Bytes → Bytes → Bytes
  issue tenant nonce =
      let payload = tenant ++ (124 ∷ b64.encode nonce) in
      b64.encode payload ++ (46 ∷ b64.encode (mac payload))

  -- The payload begins with the tenant and '|', and something follows.
  unfoldable pub names_tenant : Bytes → Bytes → Bool
  names_tenant tenant payload = elim (strip (tenant ++ 124 ∷ []) payload) [
    | none ↦ false
    | some rest ↦ not (is_empty rest)
  ]

  unfoldable pub verify_parts : Bytes → Option Bytes → Option Bytes → Bool
  verify_parts tenant none got_mac = false
  verify_parts tenant (some payload) none = false
  verify_parts tenant (some payload) (some got_mac) =
      if not (same_bytes got_mac (mac payload)) then false else names_tenant tenant payload

  unfoldable pub verify_sides : Bytes → Option (Bytes × Bytes) → Bool
  verify_sides tenant none = false
  verify_sides tenant (some (l, r)) = verify_parts tenant (b64.decode l) (b64.decode r)

  unfoldable pub verify : Bytes → Bytes → Bool
  verify tenant token = verify_sides tenant (split_dot token)
