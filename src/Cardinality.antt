-- ===== src/Cardinality.antt =====
-- server/internal/guardrail/cardinality.go: the cap on a tenant's series on one node.
-- A time is a number of nanoseconds; the clock is read once in each call, and is an argument.
pub mod Allow
pub mod Within
mod Tests
use maping.Base.{
  ℕ, suc, ◌+◌, ◌*◌, Bool, true, false, ◌||◌, not, Option, none, some, List, [], ◌∷◌, ◌++◌, length,
  keep, leb, if◌then◌else◌, is_some, ◌==◌,
}
use maping.Base.Int.{ℤ, pos, ltb_ℤ}
use maping.Base.Bytes.{Bytes, bytes_key}
use maping.Base.Assoc.{Map, lookup, insert, delete}

-- One hour.
unfoldable pub series_ttl : ℕ
series_ttl = 3600 * 1000000000

-- Each series and when it was last seen.
abbrev pub Seen : Type 0
Seen = Map Bytes ℕ

pub record Cardinality : Type 0 where
  pub tracked : Map Bytes Seen
  pub frozen_at : Map Bytes Bool

unfoldable pub new : Cardinality
new = record { tracked = []; frozen_at = [] }

unfoldable pub evict_stale : Seen → ℕ → Seen
evict_stale m now = keep (λ (e : Bytes × ℕ). not (leb (e.1 + series_ttl) now)) m

-- Parts joined with the byte of '|'.
unfoldable pub series_key : Bytes → Bytes → Bytes → Bytes
series_key method route status_class = method ++ (124 ∷ route ++ (124 ∷ status_class))

-- A read of a missing key gives the zero value.
unfoldable pub set_of : Cardinality → Bytes → Seen
set_of c tenant = elim (lookup tenant c.tracked) [ none ↦ [] | some m ↦ m ]

unfoldable pub frozen : Cardinality → Bytes → Bool
frozen c tenant = elim (lookup tenant c.frozen_at) [ none ↦ false | some b ↦ b ]

-- The tenant's swept set goes back, or the tenant is dropped and starts afresh.
unfoldable pub sweep : Cardinality → Bytes → Seen → Cardinality
sweep c tenant survivors =
    if length survivors == 0
    then record {
      tracked = insert tenant [] (delete tenant c.tracked);
      frozen_at = delete tenant c.frozen_at;
    }
    else record c { tracked = insert tenant survivors c.tracked }

-- set[seriesKey] = now
unfoldable pub track : Cardinality → Bytes → Bytes → ℕ → Cardinality
track c tenant key now = record c {
  tracked = insert tenant (insert key now (set_of c tenant)) c.tracked;
}

unfoldable pub allow : Cardinality → Bytes → Bytes → ℤ → ℕ → Cardinality × Bool × Bool
allow c tenant key capacity now =
    let c' = sweep c tenant (evict_stale (set_of c tenant) now) in
    if is_some (lookup key (set_of c' tenant))
    then (track c' tenant key now, true, frozen c' tenant)
    else if not (ltb_ℤ (pos 0) capacity) || ltb_ℤ (pos (length (set_of c' tenant))) capacity
    then (track c' tenant key now, true, frozen c' tenant)
    else (record c' { frozen_at = insert tenant true c'.frozen_at }, false, true)
