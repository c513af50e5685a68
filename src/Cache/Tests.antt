-- ===== src/Cache/Tests.antt =====
-- The caches at concrete inputs. The digest is the secret.
use maping.Base.{ℕ, ◌+◌, ◌<◌, ◌≡◌, refl, true, some, List, [], ◌∷◌, arith, ◌⊎◌}
use maping.Base.Bytes.{Bytes, bytes_discrete}
use maping.Base.Assoc.{lookup, insert}
use maping.Token
use maping.Token.{Base64}
use maping.Cache.{
  Clock, Answer, found, failed, negative_ttl, positive_ttl, sweep_threshold, digest, resolve,
  resolve_digest, get_fresh, store, entry_of,
}
use maping.Cache.Backed.{Request, after, Confirmed, accepted-Confirmed}
use maping.Token.Toy.{toy}

abbrev secret_hash : Bytes → Bytes
secret_hash s = s

abbrev at : ℕ → Clock
at t = record { read = t; stored = t; swept = t }

-- A key that the database knew at 1000, asked again when it fails.
abbrev asked : ℕ → Answer → Request
asked t answer = record { key = 107 ∷ []; answer = answer; clock = at t }

abbrev past : List Request
past = asked 1000 (found (116 ∷ [])) ∷ []

told :
    (resolve toy secret_hash (after toy secret_hash past) (107 ∷ []) failed (at 2000)).1 ≡ 116 ∷ []
unfolding resolve resolve_digest digest get_fresh store entry_of lookup insert positive_ttl
    bytes_discrete sweep_threshold Token.decode Token.strip Token.decode_plain
told = refl

told_ok :
    (resolve toy secret_hash (after toy secret_hash past) (107 ∷ []) failed (at 2000)).2 ≡ true
unfolding resolve resolve_digest digest get_fresh store entry_of lookup insert positive_ttl
    bytes_discrete sweep_threshold Token.decode Token.strip Token.decode_plain
told_ok = refl

accepted-Confirmed_example :
    (d : Bytes) × (digest toy secret_hash (107 ∷ []) ≡ some d)
    × ((failed ≡ found (116 ∷ [])) ⊎ Confirmed toy secret_hash d (116 ∷ []) 2000 past)
accepted-Confirmed_example =
    accepted-Confirmed toy secret_hash past (asked 2000 failed) (116 ∷ []) told told_ok

soon : 1000 < 7 + negative_ttl
unfolding negative_ttl
soon = omega arith
